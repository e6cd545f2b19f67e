-- ===== src/AppManager.antt =====
-- internal/appmanager/manager.go: the names of packages, and the commands that Manager runs. The tables
-- of unicode and the calls of the operating system are parameters.
pub mod Search
pub mod Report
mod Tests
use winforge.Prelude.{
  ℕ, suc, ◌+◌, ◌≡◌, Bool, true, false, not, ◌&&◌, ◌||◌, List, [], ◌∷◌, ◌++◌, length, all, any, ltb,
  leb, ◌==◌, if◌then◌else◌,
}
use winforge.Text.{
  Text, codes, text_eq, trim_space, has_prefix, is_empty, is_space, is_control, contains_any,
}
use winforge.Errors.{Err, Result, ok, err, ◌>>◌, refuse, invalid_package_id, invalid_search_query}

-- utf8.RuneLen, and len of a text
abbrev pub rune_bytes : ℕ → ℕ
rune_bytes r = if ltb r 0x80 then 1 else if ltb r 0x800 then 2 else if ltb r 0x10000 then 3 else 4

abbrev pub byte_length : Text → ℕ
byte_length [] = 0
byte_length (c ∷ s) = rune_bytes c + byte_length s

-- strings.HasSuffix
unfoldable pub has_suffix : Text → Text → Bool
has_suffix [] p = text_eq [] p
has_suffix (c ∷ s) p = let rest = has_suffix s p in text_eq (c ∷ s) p || rest

abbrev push_rune : ℕ → List Text → List Text
push_rune c [] = (c ∷ []) ∷ []
push_rune c (f ∷ fs) = (c ∷ f) ∷ fs

-- strings.Split(s, sep) for a separator of one character
unfoldable pub split_at : ℕ → Text → List Text
split_at sep [] = [] ∷ []
split_at sep (c ∷ s) = let rest = split_at sep s in if c == sep then [] ∷ rest else push_rune c rest

-- the characters that a segment must not have
abbrev pub is_delimiter : ℕ → Bool
is_delimiter r =
    r == b'\\'
    || r == b'/'
    || r == b':'
    || r == b'*'
    || r == b'?'
    || r == b'"'
    || r == b'<'
    || r == b'>'
    || r == b'|'

unfoldable pub segment_rune : ℕ → Bool
segment_rune r = not (is_space r || is_control r || is_delimiter r)

unfoldable pub is_segment : Text → Bool
is_segment s = not (length s == 0 || ltb 32 (length s)) && all segment_rune s

unfoldable pub store_rune : ℕ → Bool
store_rune r = (leb b'A' r && leb r b'Z') || (leb b'0' r && leb r b'9')

abbrev pub count_ok : ℕ → Bool
count_ok n = not (ltb n 2 || ltb 8 n)

-- isPackageID
unfoldable pub is_package_id : Text → Bool
unfolding split_at has_suffix is_segment store_rune
is_package_id id =
    if is_empty id
      || ltb 128 (length id)
      || has_prefix id (codes "-")
      || contains_any id (0x2026 ∷ [])
      || has_suffix id (codes "...")
    then false
    else if not (contains_any id (codes "."))
    then not (ltb (byte_length id) 8) && all store_rune id
    else count_ok (length (split_at b'.' id)) && all is_segment (split_at b'.' id)

-- ValidatePackageID
unfoldable pub validate_package_id : Text → Result (Unit {0})
unfolding is_package_id
validate_package_id id =
    refuse (not (text_eq (trim_space id) id) || not (is_package_id id)) invalid_package_id

-- validateSearchQuery
unfoldable pub validate_search_query : Text → Result (Unit {0})
validate_search_query query =
    refuse
      (is_empty query
        || ltb 512 (byte_length query)
        || not (text_eq (trim_space query) query)
        || has_prefix query (codes "-"))
      invalid_search_query
    >> refuse (any is_control query) invalid_search_query
