-- ===== src/Text/Trim.antt =====
-- strings.TrimSpace done twice.
use winforge.Prelude.{ℕ, ◌≡◌, refl, ◌∙◌, ap, arith, false, [], ◌∷◌, Bool-cases, inl, inr}
use winforge.Text.{Text, is_space, keep_space, trim_left, trim_right, trim_space}

trim_right-keep_space :
    (c : ℕ) (t : Text) → trim_right t ≡ t → trim_right (keep_space c t) ≡ keep_space c t
unfolding trim_right keep_space
trim_right-keep_space c [] h = ground arith
trim_right-keep_space c (d ∷ s) h = rw h refl

trim_right_idem : (s : Text) → trim_right (trim_right s) ≡ trim_right s
unfolding trim_right
trim_right_idem [] = refl
trim_right_idem (c ∷ s) = trim_right-keep_space c (trim_right s) (trim_right_idem s)

trim_left-keep_space :
    (c : ℕ) (t : Text) → is_space c ≡ false → trim_left (keep_space c t) ≡ keep_space c t
unfolding trim_left keep_space
trim_left-keep_space c [] h = rw h (rw h refl)
trim_left-keep_space c (d ∷ s) h = rw h refl

trim_left-trim_space : (s : Text) → trim_left (trim_space s) ≡ trim_space s
unfolding trim_space trim_left trim_right
trim_left-trim_space [] = refl
trim_left-trim_space (c ∷ s) = elim (Bool-cases (is_space c)) [
  | inl e ↦ rw e (trim_left-trim_space s)
  | inr e ↦ rw e (trim_left-keep_space c (trim_right s) e)
]

pub trim_space_idem : (s : Text) → trim_space (trim_space s) ≡ trim_space s
unfolding trim_space
trim_space_idem s = ap trim_right (trim_left-trim_space s) ∙ trim_right_idem (trim_left s)
