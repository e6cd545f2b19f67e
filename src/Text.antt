-- ===== src/Text.antt =====
-- Go strings as sequences of code points, and the functions of Go's packages strings and unicode
-- that the engine calls. The case tables beyond ASCII are a parameter.
pub mod Laws
pub mod Trim
pub mod Order
use Prim.Native.Char.{code}
use winforge.Prelude.{
  ℕ, suc, zero, ◌+◌, ◌-◌, Bool, true, false, ◌&&◌, ◌||◌, not, Option, none, some, List, [], ◌∷◌,
  ◌++◌, map, String, ltb, leb, ◌==◌, if◌then◌else◌, any,
}

abbrev pub Text : Type 0
Text = List ℕ

-- the code points of a literal
abbrev pub codes : String → Text
codes String.[] = []
codes (String.◌∷◌ c s) = code c ∷ codes s

-- s == t
unfoldable pub text_eq : Text → Text → Bool
text_eq [] [] = true
text_eq (c ∷ s) (d ∷ t) = c == d && text_eq s t
text_eq _ _ = false

-- s < t: UTF-8 keeps the order of code points
unfoldable pub text_lt : Text → Text → Bool
text_lt [] [] = false
text_lt [] (d ∷ t) = true
text_lt (c ∷ s) [] = false
text_lt (c ∷ s) (d ∷ t) = ltb c d || (c == d && text_lt s t)

-- strings.HasPrefix and strings.TrimPrefix in one: what follows the prefix
unfoldable pub cut_prefix : Text → Text → Option Text
cut_prefix [] s = some s
cut_prefix (c ∷ p) [] = none
cut_prefix (c ∷ p) (d ∷ s) = let rest = cut_prefix p s in if c == d then rest else none

abbrev pub or_whole : Text → Option Text → Text
or_whole s none = s
or_whole s (some r) = r

-- strings.TrimPrefix(s, p)
unfoldable pub trim_prefix : Text → Text → Text
unfolding cut_prefix
trim_prefix s p = or_whole s (cut_prefix p s)

abbrev pub is_some {ℓ} : {A : Type ℓ} → Option A → Bool
is_some none = false
is_some (some a) = true

-- strings.HasPrefix(s, p)
unfoldable pub has_prefix : Text → Text → Bool
unfolding cut_prefix
has_prefix s p = is_some (cut_prefix p s)

-- unicode.IsSpace
unfoldable pub is_space : ℕ → Bool
is_space r =
    (leb 9 r && leb r 13)
    || r == 32
    || r == 0x85
    || r == 0xa0
    || r == 0x1680
    || (leb 0x2000 r && leb r 0x200a)
    || r == 0x2028
    || r == 0x2029
    || r == 0x202f
    || r == 0x205f
    || r == 0x3000

-- unicode.IsControl
unfoldable pub is_control : ℕ → Bool
is_control r = ltb r 32 || (leb 0x7f r && ltb r 0xa0)

unfoldable pub trim_left : Text → Text
unfolding is_space
trim_left [] = []
trim_left (c ∷ s) = let rest = trim_left s in if is_space c then rest else c ∷ s

-- drops the spaces at the end: a space is kept only before a character that is kept
unfoldable pub keep_space : ℕ → Text → Text
unfolding is_space
keep_space c [] = if is_space c then [] else c ∷ []
keep_space c (d ∷ s) = c ∷ d ∷ s

unfoldable pub trim_right : Text → Text
unfolding keep_space
trim_right [] = []
trim_right (c ∷ s) = keep_space c (trim_right s)

-- strings.TrimSpace
unfoldable pub trim_space : Text → Text
unfolding trim_left trim_right
trim_space s = trim_right (trim_left s)

abbrev pub is_empty : Text → Bool
is_empty [] = true
is_empty (c ∷ s) = false

-- strings.ContainsAny(s, chars)
unfoldable pub contains_any : Text → Text → Bool
contains_any s chars = any (λ c. any (λ d. c == d) chars) s

-- The part of unicode.ToLower and unicode.SimpleFold that lies beyond ASCII. `fold` names one
-- code point for each class of code points that strings.EqualFold takes for equal.
pub record CaseTable : Type 0 where
  pub lower : ℕ → ℕ
  pub fold : ℕ → ℕ

unfoldable pub ascii_lower : ℕ → ℕ
ascii_lower c = if leb b'A' c && leb c b'Z' then c + 32 else c

module _ ⦃t : CaseTable⦄ where
  unfoldable pub lower_rune : ℕ → ℕ
  unfolding ascii_lower
  lower_rune c = if ltb c 128 then ascii_lower c else t.lower c

  unfoldable pub fold_rune : ℕ → ℕ
  unfolding ascii_lower
  fold_rune c = if ltb c 128 then ascii_lower c else t.fold c

  -- strings.ToLower
  unfoldable pub to_lower : Text → Text
  unfolding lower_rune
  to_lower [] = []
  to_lower (c ∷ s) = lower_rune c ∷ to_lower s

  unfoldable pub fold_text : Text → Text
  unfolding fold_rune
  fold_text [] = []
  fold_text (c ∷ s) = fold_rune c ∷ fold_text s

  -- strings.EqualFold
  unfoldable pub equal_fold : Text → Text → Bool
  unfolding fold_text text_eq
  equal_fold s u = text_eq (fold_text s) (fold_text u)
