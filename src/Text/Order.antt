-- ===== src/Text/Order.antt =====
-- The order of texts.
use winforge.Prelude.{◌≡◌, refl, arith, true, false, not, [], ◌∷◌}
use winforge.Text.{Text, text_eq, text_lt}

pub text_eq_sym : (s t : Text) → text_eq s t ≡ text_eq t s
unfolding text_eq
text_eq_sym [] [] = refl
text_eq_sym [] (d ∷ t) = refl
text_eq_sym (c ∷ s) [] = refl
text_eq_sym (c ∷ s) (d ∷ t) = ground (arith, text_eq_sym s t)

-- of two texts that differ, one is the smaller
pub text_lt_total : (s t : Text) → text_eq s t ≡ false → text_lt s t ≡ not (text_lt t s)
unfolding text_eq text_lt
text_lt_total [] [] h = cc
text_lt_total [] (d ∷ t) h = refl
text_lt_total (c ∷ s) [] h = refl
text_lt_total (c ∷ s) (d ∷ t) h = ground (arith, text_lt_total s t)

pub text_lt_trans : (s t u : Text) → text_lt s t ≡ true → text_lt t u ≡ true → text_lt s u ≡ true
unfolding text_lt
text_lt_trans [] [] [] h h' = cc
text_lt_trans [] (d ∷ t) [] h h' = cc
text_lt_trans [] t (e ∷ u) h h' = refl
text_lt_trans (c ∷ s) [] u h h' = cc
text_lt_trans (c ∷ s) (d ∷ t) [] h h' = cc
text_lt_trans (c ∷ s) (d ∷ t) (e ∷ u) h h' = ground (arith, text_lt_trans s t u)

pub text_lt_differ : (s t : Text) → text_lt s t ≡ true → text_eq s t ≡ false
unfolding text_lt text_eq
text_lt_differ [] [] h = cc
text_lt_differ [] (d ∷ t) h = refl
text_lt_differ (c ∷ s) [] h = refl
text_lt_differ (c ∷ s) (d ∷ t) h = ground (arith, text_lt_differ s t)
