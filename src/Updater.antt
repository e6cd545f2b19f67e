-- ===== src/Updater.antt =====
-- internal/updater/github.go: the order of versions and the check for an update.
pub mod Versions
pub mod Order
pub mod Release
mod Tests
use winforge.Prelude.{
  ℕ, suc, zero, ◌+◌, ◌-◌, ◌*◌, ◌≡◌, Bool, true, false, not, ◌&&◌, ◌||◌, Option, none, some, List,
  [], ◌∷◌, length, ltb, leb, ◌==◌, if◌then◌else◌,
}
use winforge.Text.{Text, codes, text_eq, text_lt, trim_space, trim_prefix, is_empty}
use winforge.Errors.{Err, Result, ok, err, ◌>>◌, refuse, empty_tag, version_too_long}
use winforge.Config.Json.{ℤ, pos, negsuc}
use winforge.AppManager.{split_at}

abbrev pub is_digit : ℕ → Bool
is_digit r = leb b'0' r && leb r b'9'

-- leadingDigits
unfoldable pub leading_digits : Text → Text
leading_digits [] = []
leading_digits (c ∷ s) = let rest = leading_digits s in if is_digit c then c ∷ rest else []

-- the loop of parseInt, which ends early above a million
unfoldable pub parse_from : ℕ → Text → ℕ
parse_from n [] = n
parse_from n (c ∷ s) =
    let m = n * 10 + (c - b'0') in let rest = parse_from m s in if ltb 1000000 m then m else rest

unfoldable pub parse_int : Text → ℕ
unfolding parse_from
parse_int s = parse_from 0 s

unfoldable pub segment_number : Text → ℕ
unfolding leading_digits parse_int
segment_number s = parse_int (leading_digits s)

-- one round of the loop in compareVersions: 0 goes on
unfoldable pub compare_segments : Text → Text → ℤ
compare_segments a b =
    let ai = segment_number a in
    let bi = segment_number b in
    if not (ai == bi)
    then (if ltb bi ai then pos 1 else negsuc 0)
    else if not (text_eq a b)
    then (if text_lt b a then pos 1 else negsuc 0)
    else pos 0

abbrev pub or_else : ℤ → ℤ → ℤ
or_else (pos zero) rest = rest
or_else (pos (suc n)) rest = pos (suc n)
or_else (negsuc n) rest = negsuc n

-- the loop; a version with fewer segments has empty ones at its end
unfoldable pub compare_from : List Text → List Text → ℤ
compare_from [] [] = pos 0
compare_from (a ∷ as') [] = or_else (compare_segments a []) (compare_from as' [])
compare_from [] (b ∷ bs) = or_else (compare_segments [] b) (compare_from [] bs)
compare_from (a ∷ as') (b ∷ bs) = or_else (compare_segments a b) (compare_from as' bs)

unfoldable pub compare_versions : Text → Text → ℤ
unfolding compare_from
compare_versions a b = compare_from (split_at b'.' a) (split_at b'.' b)

-- what stands before the first '+'
abbrev before_plus : Text → Text
before_plus [] = []
before_plus (c ∷ s) = let rest = before_plus s in if c == b'+' then [] else c ∷ rest

unfoldable pub normalize_version : Text → Text
normalize_version v = before_plus (trim_space (trim_prefix (trim_prefix v (codes "v")) (codes "V")))

abbrev pub is_positive : ℤ → Bool
is_positive (pos zero) = false
is_positive (pos (suc n)) = true
is_positive (negsuc n) = false

abbrev pub newer : Text → Text → Bool
newer latest current =
    if text_eq current latest then false else is_positive (compare_versions latest current)

-- the checks and the comparison, of trimmed texts
unfoldable pub check_trimmed : (current latest : Text) → Result Bool
unfolding compare_versions normalize_version
check_trimmed current latest =
    if is_empty latest
    then err empty_tag
    else if ltb 256 (length current) || ltb 256 (length latest)
    then err version_too_long
    else if is_empty current
    then ok true
    else ok (newer (normalize_version latest) (normalize_version current))

-- CheckForUpdate
unfoldable pub check_for_update : (current_version latest_tag : Text) → Result Bool
unfolding check_trimmed
check_for_update current_version latest_tag =
    check_trimmed (trim_space current_version) (trim_space latest_tag)
