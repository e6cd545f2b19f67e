-- ===== src/Power/Resolved.antt =====
-- The GUID that Resolve returns is one that it keeps.
use winforge.Prelude.{
  ℕ, ◌+◌, ◌≡◌, ◌≢◌, refl, ap, ◌∙◌, arith, true, false, none, [], ◌∷◌, length, ◌==◌, Bool-cases, inl,
  inr, if◌then◌else◌,
}
use winforge.Text.{
  Text, codes, text_eq, is_space, keep_space, trim_left, trim_right, trim_space, CaseTable,
}
use winforge.Text.Laws.{eq_of_text_eq}
use winforge.Errors.{ok}
use winforge.Power.{alias, is_hyphen_place, is_hex, guid_from, is_guid, resolve}
use winforge.Power.Laws.{resolve-is_guid}
use winforge.Power.Guid.RoundTrip.{resolve-lower}

guid_rune-is_space :
    (i c : ℕ) → (if is_hyphen_place i then c == b'-' else is_hex c) ≡ true → is_space c ≡ false
unfolding is_hex is_space
guid_rune-is_space i c h = ground arith

keep_space-kept : (c : ℕ) (s : Text) → is_space c ≡ false → keep_space c s ≡ c ∷ s
unfolding keep_space
keep_space-kept c [] h = rw h refl
keep_space-kept c (d ∷ s) h = refl

guid_from-trim_right : (i : ℕ) (s : Text) → guid_from i s ≡ true → trim_right s ≡ s
unfolding guid_from trim_right
guid_from-trim_right i [] h = refl
guid_from-trim_right i (c ∷ s) h =
    ap (keep_space c) (guid_from-trim_right (i + 1) s (ground arith))
    ∙ keep_space-kept c s (guid_rune-is_space i c (ground arith))

guid_from-trim_left : (s : Text) → guid_from 0 s ≡ true → trim_left s ≡ s
unfolding guid_from trim_left
guid_from-trim_left [] h = refl
guid_from-trim_left (c ∷ s) h = rw (guid_rune-is_space 0 c (ground arith)) refl

text_eq-length : (s t : Text) → length s ≢ length t → text_eq s t ≡ false
text_eq-length s t h = elim (Bool-cases (text_eq s t)) [
  | inl same ↦ absurd (h (ap length (eq_of_text_eq s t same)))
  | inr other ↦ other
]

is_guid-alias : (s : Text) → length s ≡ 36 → alias s ≡ none
unfolding alias
is_guid-alias s h =
    rw
      (
        text_eq-length s (codes "balanced") (rw h λ e. cc),
        text_eq-length s (codes "high-performance") (rw h λ e. cc),
        text_eq-length s (codes "highperformance") (rw h λ e. cc),
        text_eq-length s (codes "power-saver") (rw h λ e. cc),
        text_eq-length s (codes "powersaver") (rw h λ e. cc),
        text_eq-length s (codes "ultimate") (rw h λ e. cc),
      )
      refl

module _ ⦃t : CaseTable⦄ where
  is_guid-trim_space : (s : Text) → is_guid s ≡ true → trim_space s ≡ s
  unfolding trim_space is_guid
  is_guid-trim_space s h =
      ap trim_right (guid_from-trim_left s (ground arith)) ∙ guid_from-trim_right 0 s (ground arith)

  length-guid : (s : Text) → is_guid s ≡ true → length s ≡ 36
  unfolding is_guid
  length-guid s h = ground arith

  pub resolve-resolve : (s : Text) {g : Text} → resolve s ≡ ok g → resolve g ≡ ok g
  unfolding resolve
  resolve-resolve s {g} h =
      let known = resolve-is_guid s h in
      let lower = resolve-lower s h in
      rw (is_guid-trim_space g known, lower, is_guid-alias g (length-guid g known), known, lower)
        refl
