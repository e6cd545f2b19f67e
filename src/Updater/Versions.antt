-- ===== src/Updater/Versions.antt =====
-- The order of segments, and of versions as lists of segments.
use winforge.Prelude.{zero, suc, ◌≡◌, refl, ◌∙◌, arith, true, ◌&&◌, ◌||◌, List, [], ◌∷◌, ltb, ◌==◌}
use winforge.Text.{Text, text_eq, text_lt}
use winforge.Text.Laws.{eq_of_text_eq}
use winforge.Config.Json.{ℤ, pos, negsuc}
use winforge.Updater.{segment_number, compare_segments, or_else, compare_from, is_positive}
use winforge.Text.Order.{text_eq_sym, text_lt_total, text_lt_trans, text_lt_differ}

abbrev pub negative : ℤ → ℤ
negative (pos zero) = pos zero
negative (pos (suc n)) = negsuc n
negative (negsuc n) = pos (suc n)

compare_segments_opposite : (a b : Text) → compare_segments b a ≡ negative (compare_segments a b)
unfolding compare_segments
compare_segments_opposite a b = ground (arith, text_eq_sym a b, text_lt_total a b)

above_cases :
    (a b : Text)
    → compare_segments a b ≡ pos 1
    → (ltb (segment_number b) (segment_number a)
        || ((segment_number a == segment_number b) && text_lt b a))
      ≡ true
unfolding compare_segments
above_cases a b h = ground arith

compare_segments_trans :
    (a b c : Text)
    → compare_segments a b ≡ pos 1
    → compare_segments b c ≡ pos 1
    → compare_segments a c ≡ pos 1
unfolding compare_segments
compare_segments_trans a b c h h' = ground (
  arith,
  above_cases a b h,
  above_cases b c h',
  text_lt_trans c b a,
  text_lt_differ c a,
  text_eq_sym c a,
)

compare_segments-zero : (a b : Text) → compare_segments a b ≡ pos 0 → a ≡ b
unfolding compare_segments
compare_segments-zero a b h = ground (arith, eq_of_text_eq a b)

step_trans :
    (a b c : Text) (r r' r'' : ℤ)
    → (r ≡ pos 1 → r' ≡ pos 1 → r'' ≡ pos 1)
    → or_else (compare_segments a b) r ≡ pos 1
    → or_else (compare_segments b c) r' ≡ pos 1
    → or_else (compare_segments a c) r'' ≡ pos 1
step_trans a b c r r' r'' rest h h' =
    go (compare_segments a b) (compare_segments b c) refl refl h h'
  where
    go :
        (s t : ℤ)
        → compare_segments a b ≡ s
        → compare_segments b c ≡ t
        → or_else s r ≡ pos 1
        → or_else t r' ≡ pos 1
        → or_else (compare_segments a c) r'' ≡ pos 1
    go (negsuc n) t e e' h h' = cc
    go s (negsuc n) e e' h h' = cc
    go (pos zero) (pos zero) e e' h h' = rw (compare_segments-zero a b e) (rw e' (rest h h'))
    go (pos zero) (pos (suc n)) e e' h h' = rw (compare_segments-zero a b e) (rw e' h')
    go (pos (suc n)) (pos zero) e e' h h' = rw (← compare_segments-zero b c e') (rw e h)
    go (pos (suc n)) (pos (suc k)) e e' h h' =
        rw (compare_segments_trans a b c (e ∙ h) (e' ∙ h')) refl

pub compare_from_trans :
    (xs ys zs : List Text)
    → compare_from xs ys ≡ pos 1
    → compare_from ys zs ≡ pos 1
    → compare_from xs zs ≡ pos 1
unfolding compare_from compare_segments segment_number text_eq
compare_from_trans [] [] zs h h' = h'
compare_from_trans [] (y ∷ ys) [] h h' = step_trans [] y [] _ _ _ (compare_from_trans [] ys []) h h'
compare_from_trans [] (y ∷ ys) (z ∷ zs) h h' =
    step_trans [] y z _ _ _ (compare_from_trans [] ys zs) h h'
compare_from_trans (x ∷ xs) [] [] h h' = h
compare_from_trans (x ∷ xs) [] (z ∷ zs) h h' =
    step_trans x [] z _ _ _ (compare_from_trans xs [] zs) h h'
compare_from_trans (x ∷ xs) (y ∷ ys) [] h h' =
    step_trans x y [] _ _ _ (compare_from_trans xs ys []) h h'
compare_from_trans (x ∷ xs) (y ∷ ys) (z ∷ zs) h h' =
    step_trans x y z _ _ _ (compare_from_trans xs ys zs) h h'

or_else_opposite :
    (s t r r' : ℤ) → t ≡ negative s → r' ≡ negative r → or_else t r' ≡ negative (or_else s r)
or_else_opposite (pos zero) t r r' e e' = rw e e'
or_else_opposite (pos (suc n)) t r r' e e' = rw e refl
or_else_opposite (negsuc n) t r r' e e' = rw e refl

pub compare_from_opposite : (xs ys : List Text) → compare_from ys xs ≡ negative (compare_from xs ys)
unfolding compare_from
compare_from_opposite [] [] = refl
compare_from_opposite [] (y ∷ ys) =
    or_else_opposite _ _ _ _ (compare_segments_opposite [] y) (compare_from_opposite [] ys)
compare_from_opposite (x ∷ xs) [] =
    or_else_opposite _ _ _ _ (compare_segments_opposite x []) (compare_from_opposite xs [])
compare_from_opposite (x ∷ xs) (y ∷ ys) =
    or_else_opposite _ _ _ _ (compare_segments_opposite x y) (compare_from_opposite xs ys)

compare_segments-one :
    (a b : Text) → is_positive (compare_segments a b) ≡ true → compare_segments a b ≡ pos 1
unfolding compare_segments
compare_segments-one a b h = ground arith

or_else-one :
    (s r : ℤ)
    → (is_positive s ≡ true → s ≡ pos 1)
    → (is_positive r ≡ true → r ≡ pos 1)
    → is_positive (or_else s r) ≡ true
    → or_else s r ≡ pos 1
or_else-one (pos zero) r hs hr h = hr h
or_else-one (pos (suc n)) r hs hr h = hs refl
or_else-one (negsuc n) r hs hr h = cc

pub compare_from-one :
    (xs ys : List Text) → is_positive (compare_from xs ys) ≡ true → compare_from xs ys ≡ pos 1
unfolding compare_from
compare_from-one [] [] h = cc
compare_from-one [] (y ∷ ys) h =
    or_else-one _ _ (compare_segments-one [] y) (compare_from-one [] ys) h
compare_from-one (x ∷ xs) [] h =
    or_else-one _ _ (compare_segments-one x []) (compare_from-one xs []) h
compare_from-one (x ∷ xs) (y ∷ ys) h =
    or_else-one _ _ (compare_segments-one x y) (compare_from-one xs ys) h
