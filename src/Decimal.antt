-- ===== src/Decimal.antt =====
-- Decimal numerals: strconv.FormatUint and strconv.ParseUint in base 10.
pub mod RoundTrip
use winforge.Prelude.{
  ℕ, Bool, suc, zero, ◌+◌, ◌-◌, ◌*◌, ◌/◌, ◌%◌, ◌^◌, ◌&&◌, Option, none, some, [], ◌∷◌, ltb, leb,
  if◌then◌else◌,
}
use winforge.Text.{Text}

abbrev pub is_digit : ℕ → Bool
is_digit c = leb b'0' c && leb c b'9'

-- The last digit is written first. A number has fewer digits than its value and one more.
unfoldable pub digits : ℕ → ℕ → Text → Text
digits zero n out = out
digits (suc fuel) n out =
    let more = digits fuel (n / 10) ((b'0' + n % 10) ∷ out) in
    if ltb n 10 then (b'0' + n % 10) ∷ out else more

-- strconv.FormatUint(n, 10), and the %d of package fmt
unfoldable pub format_uint : ℕ → Text
unfolding digits
format_uint n = digits (suc n) n []

unfoldable pub scan : ℕ → Text → ℕ → Option ℕ
scan max [] n = some n
scan max (c ∷ s) n =
    let next = n * 10 + (c - b'0') in
    let rest = scan max s next in if is_digit c && leb next max then rest else none

-- strconv.ParseUint(s, 10, bits): no sign, no underscore, and an error above 2^bits - 1
unfoldable pub parse_uint : ℕ → Text → Option ℕ
unfolding scan
parse_uint bits [] = none
parse_uint bits (c ∷ s) = scan (2 ^ bits - 1) (c ∷ s) 0
