-- ===== src/App/Requests/Points.antt =====
-- How the restore points of EnsureRestorePoint follow each other.
use winforge.Prelude.{
  ℕ, ◌+◌, ◌≤◌, ◌≡◌, refl, sym, ap, ◌∙◌, Bool, true, false, not, ◌||◌, Option, none, some, List, [],
  ◌∷◌, arith, if◌then◌else◌,
}
use mathlib.Core.Path.{subst}
use winforge.Text.{Text}
use winforge.Errors.{Err}
use winforge.Audit.Entry.{Logger}
use winforge.Tweak.Orchestrator.{World}
use winforge.App.{
  RestorePoints, AppState, create_restore_point, recent, created, ensure_restore_point,
}
use winforge.App.Operations.{on_world, ensured, record_entry-sys}

-- Times of restore points, the newest first: none is within the hour after the one before it.
abbrev pub Spaced : List ℕ → Type 0
Spaced [] = Unit
Spaced (t ∷ []) = Unit
Spaced (t ∷ u ∷ ts) = (u ≤ t → u + 3600 ≤ t) × Spaced (u ∷ ts)

abbrev pub newest : List ℕ → Option ℕ
newest [] = none
newest (t ∷ ts) = some t

module _ {S : Type 0} (made : S → List ℕ) {L : Type 0} where
  -- what is relied on of restorepoint.Create: a success makes one restore point, a failure none
  pub record MakesPoints (points : RestorePoints (World S L)) : Type 0 where
    pub succeeds :
        (d : Text) (w : World S L)
        → (points.creator d w).0.1 ≡ none
        → made (points.creator d w).1.sys ≡ points.now w ∷ made w.sys
    pub fails :
        (d : Text) (w : World S L) {e : Err}
        → (points.creator d w).0.1 ≡ some e
        → made (points.creator d w).1.sys ≡ made w.sys

  -- App knows the newest restore point, and they are spaced.
  pub record IsThrottled (a : AppState (World S L)) : Type 0 where
    pub known : a.last_restore_point ≡ newest (made a.world.sys)
    pub spaced : Spaced (made a.world.sys)

  pub IsThrottled-same :
      (a : AppState (World S L)) (w : World S L)
      → made w.sys ≡ made a.world.sys
      → IsThrottled a
      → IsThrottled (record a { world = w })
  IsThrottled-same a w e h = record {
    known = h.known ∙ rw e refl;
    spaced = subst Spaced (sym e) h.spaced;
  }

  module _ (logger : Option (Logger L)) (points : RestorePoints (World S L)) (auto : Bool)
      (makes : MakesPoints points) where
    creation-sys :
        (d : Text) (w : World S L)
        → (create_restore_point (on_world logger) points d w).1.sys ≡ (points.creator d w).1.sys
    unfolding create_restore_point
    creation-sys d w = record_entry-sys logger _ (points.creator d w).1

    Spaced-cons :
        (now : ℕ) (ts : List ℕ)
        → recent (on_world logger) points auto now (newest ts) ≡ false
        → Spaced ts
        → Spaced (now ∷ ts)
    Spaced-cons now [] old h = tt
    Spaced-cons now (t ∷ ts) old h = (ground arith, h)

    -- what a creation leaves, from its error
    created-IsThrottled :
        (d : Text) (a : AppState (World S L))
        → recent (on_world logger) points auto (points.now a.world) a.last_restore_point ≡ false
        → IsThrottled a
        → IsThrottled (record {
          world = (create_restore_point (on_world logger) points d a.world).1;
          last_restore_point =
              created
                (on_world logger)
                points
                (points.now a.world)
                a.last_restore_point
                (points.creator d a.world).0.1;
        })
    unfolding create_restore_point
    created-IsThrottled d a old h = from (points.creator d a.world).0.1 refl
      where
        from :
            (e : Option Err)
            → (points.creator d a.world).0.1 ≡ e
            → IsThrottled (record {
              world = (create_restore_point (on_world logger) points d a.world).1;
              last_restore_point =
                  created (on_world logger) points (points.now a.world) a.last_restore_point e;
            })
        from none done =
            let m = ap made (creation-sys d a.world) ∙ makes.succeeds d a.world done in
            record {
              known = sym (ap newest m);
              spaced = subst Spaced (sym m) (
                  Spaced-cons (points.now a.world) (made a.world.sys)
                    (subst
                      (λ l. recent (on_world logger) points auto (points.now a.world) l ≡ false)
                      h.known old)
                    h.spaced);
            }
        from (some e) failed =
            IsThrottled-same a _ (ap made (creation-sys d a.world) ∙ makes.fails d a.world failed) h

    -- EnsureRestorePoint keeps the throttle.
    pub ensured-IsThrottled :
        (d : Text) (a : AppState (World S L))
        → IsThrottled a
        → IsThrottled (ensured logger points auto d a)
    unfolding ensure_restore_point
    ensured-IsThrottled d a h =
        in_order (not auto || not (points.enabled a.world))
          (recent (on_world logger) points auto (points.now a.world) a.last_restore_point) refl
      where
        in_order :
            (off young : Bool)
            → recent (on_world logger) points auto (points.now a.world) a.last_restore_point ≡ young
            → IsThrottled (
                if off then a else if young then a else record {
                  world = (create_restore_point (on_world logger) points d a.world).1;
                  last_restore_point =
                      created
                        (on_world logger)
                        points
                        (points.now a.world)
                        a.last_restore_point
                        (create_restore_point (on_world logger) points d a.world).0.1;
                })
        in_order true young e = h
        in_order false true e = h
        in_order false false e = created-IsThrottled d a e h
