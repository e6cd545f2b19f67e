-- ===== src/Tweak/Snapshot/RoundTrip.antt =====
-- formatProcessorState and parseProcessorState are inverse.
use winforge.Prelude.{
  ℕ, ◌^◌, ◌≤◌, ◌<◌, ◌≡◌, ◌≢◌, refl, arith, true, some, all, [], ◌∷◌, ◌++◌, append-nil,
}
use winforge.Text.{Text, codes}
use winforge.Decimal.{is_digit, format_uint}
use winforge.Decimal.RoundTrip.{format_uint-ne-nil, format_uint-all_digits, parse_uint-format_uint}
use winforge.Errors.{ok}
use winforge.Tweak.Snapshot.{
  skip_space, span_digits, scan_uint32, scan_processor_state, format_processor_state,
  parse_processor_state,
}

skip_space-append :
    (ds rest : Text)
    → ds ≢ []
    → all is_digit ds ≡ true
    → skip_space (ds ++ rest) ≡ some (ds ++ rest)
unfolding skip_space
skip_space-append [] rest h d = absurd (h refl)
skip_space-append (c ∷ ds) rest h d = ground arith

span_digits-append :
    (ds rest : Text)
    → all is_digit ds ≡ true
    → span_digits rest ≡ ([], rest)
    → span_digits (ds ++ rest) ≡ (ds, rest)
unfolding span_digits
span_digits-append [] rest d h = h
span_digits-append (c ∷ ds) rest d h = ground (arith, span_digits-append ds rest)

-- A number that is printed in front of a text that does not begin with a digit is read back.
scan_uint32-format_uint :
    (n : ℕ) (rest : Text)
    → n < 2 ^ 32
    → span_digits rest ≡ ([], rest)
    → scan_uint32 (format_uint n ++ rest) ≡ some (n, rest)
unfolding scan_uint32
scan_uint32-format_uint n rest h r = ground (
  arith,
  skip_space-append (format_uint n) rest (format_uint-ne-nil n) (format_uint-all_digits n),
  span_digits-append (format_uint n) rest (format_uint-all_digits n) r,
  parse_uint-format_uint 64 n (omega arith),
)

comma-span_digits : (s : Text) → span_digits (codes ",max=" ++ s) ≡ ([], codes ",max=" ++ s)
unfolding span_digits
comma-span_digits s = ground arith

scan-format_processor_state :
    (lo hi : ℕ)
    → lo < 2 ^ 32
    → hi < 2 ^ 32
    → scan_processor_state (format_processor_state lo hi) ≡ some (lo, hi)
unfolding scan_processor_state format_processor_state
scan-format_processor_state lo hi h k = ground (
  arith,
  scan_uint32-format_uint lo (codes ",max=" ++ format_uint hi) h
      (comma-span_digits (format_uint hi)),
  scan_uint32-format_uint hi [] k (unfold span_digits in refl),
  append-nil (format_uint hi),
)

-- A processor state in range that is written into the audit log is read back unchanged.
pub parse-format_processor_state :
    (lo hi : ℕ)
    → lo ≤ hi
    → hi ≤ 100
    → parse_processor_state (format_processor_state lo hi) ≡ ok (lo, hi)
unfolding parse_processor_state
parse-format_processor_state lo hi h k =
    ground (arith, scan-format_processor_state lo hi (omega arith) (omega arith))
