-- ===== src/Plugin/Merged.antt =====
-- The built-in tweaks with those of the plugins.
use winforge.Prelude.{
  ◌≡◌, refl, sym, ◌∙◌, ap, Bool, true, false, ◌||◌, List, [], ◌∷◌, ◌++◌, any, All, All-append,
  append_assoc, append-nil, Bool-cases, inl, inr,
}
use winforge.Text.{Text, text_eq, is_empty, CaseTable}
use winforge.Config.{Tweak}
use winforge.Config.Catalogue.Accepted.{IsValid, Distinct}
use winforge.Plugin.{seen_after, unless_seen, add_new, merge_tweaks}

module _ ⦃c : CaseTable⦄ where
  abbrev AllValid : List Tweak → Type 0
  AllValid tweaks = All (λ t. IsValid t) tweaks

  Distinct-append :
      (seen : List Text) (base rest : List Tweak)
      → Distinct seen base
      → Distinct (seen_after seen base) rest
      → Distinct seen (base ++ rest)
  Distinct-append seen [] rest h k = k
  Distinct-append seen (t ∷ base) rest (new, h) k =
      (new, Distinct-append (t.id ∷ seen) base rest h k)

  abbrev New : List Text → List Tweak → Type 0
  New seen tweaks = Distinct seen tweaks × AllValid tweaks

  or-false : (a b : Bool) → (a || b) ≡ false → b ≡ false
  or-false true b h = cc
  or-false false b h = h

  unless_seen-New :
      (t : Tweak) (seen : List Text) (more : List Text → List Tweak)
      → IsValid t
      → ((seen' : List Text) → New seen' (more seen'))
      → New seen (unless_seen t seen more)
  unless_seen-New t seen more valid k =
      elim (Bool-cases (is_empty t.id || any (text_eq t.id) seen)) [
        | inl e ↦ rw e (k seen)
        | inr e ↦
            rw e (let (d, v) = k (t.id ∷ seen) in ((or-false (is_empty t.id) _ e, d), (valid, v)))
      ]

  add_new-New :
      (seen : List Text) (extra : List Tweak) → AllValid extra → New seen (add_new seen extra)
  unfolding add_new
  add_new-New seen [] h = (tt, tt)
  add_new-New seen (t ∷ extra) (valid, h) =
      unless_seen-New t seen (λ seen'. add_new seen' extra) valid
        (λ seen'. add_new-New seen' extra h)

  -- A catalogue that begins with the built-in tweaks, as they are; no id comes twice, and every tweak is
  -- accepted.
  pub record IsMerged (base merged : List Tweak) : Type 0 where
    pub added : List Tweak
    pub built_in_first : merged ≡ base ++ added
    pub distinct : Distinct [] merged
    pub accepted : All (λ t. IsValid t) merged

  pub merge_tweaks-IsMerged :
      (base extra : List Tweak)
      → Distinct [] base
      → AllValid base
      → AllValid extra
      → IsMerged base (merge_tweaks base extra)
  unfolding merge_tweaks
  merge_tweaks-IsMerged base extra d v e =
      let (new, valid) = add_new-New (seen_after [] base) extra e in
      record {
        added = add_new (seen_after [] base) extra;
        built_in_first = refl;
        distinct = Distinct-append [] base _ d new;
        accepted = All-append (λ t. IsValid t) base _ v valid;
      }

  pub IsMerged-after :
      (base middle merged : List Tweak)
      → IsMerged base middle
      → IsMerged middle merged
      → IsMerged base merged
  IsMerged-after base middle merged a b = record {
    added = a.added ++ b.added;
    built_in_first =
        b.built_in_first
        ∙ (ap (λ (l : List Tweak). l ++ b.added) a.built_in_first
            ∙ append_assoc base a.added b.added);
    distinct = b.distinct;
    accepted = b.accepted;
  }

  pub nothing-IsMerged :
      (base : List Tweak) → Distinct [] base → All (λ t. IsValid t) base → IsMerged base base
  nothing-IsMerged base d v = record {
    added = [];
    built_in_first = sym (append-nil base);
    distinct = d;
    accepted = v;
  }
