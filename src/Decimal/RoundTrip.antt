-- ===== src/Decimal/RoundTrip.antt =====
-- What is formatted is read back.
use winforge.Prelude.{
  ℕ, suc, zero, ◌+◌, ◌-◌, ◌/◌, ◌%◌, ◌^◌, ◌≤◌, ◌<◌, ◌≡◌, ◌≢◌, refl, true, some, [], ◌∷◌, arith, ltb,
  all, Bool-cases, inl, inr, ap, sym, ◌∙◌,
}
use winforge.Text.{Text}
use winforge.Decimal.{is_digit, digits, format_uint, scan, parse_uint}

scan_last :
    (max n : ℕ) (out : Text) → n ≤ max → scan max ((b'0' + n % 10) ∷ out) (n / 10) ≡ scan max out n
unfolding scan
scan_last max n out h = ground arith

scan_only :
    (max n : ℕ) (out : Text)
    → n ≤ max
    → ltb n 10 ≡ true
    → scan max ((b'0' + n % 10) ∷ out) 0 ≡ scan max out n
unfolding scan
scan_only max n out h s = ground arith

scan-digits :
    (max fuel n : ℕ) (out : Text)
    → n ≤ max
    → n < fuel
    → scan max (digits fuel n out) 0 ≡ scan max out n
unfolding digits
scan-digits max zero n out h f = absurd (omega arith)
scan-digits max (suc fuel) n out h f = elim (Bool-cases (ltb n 10)) [
  | inl small ↦ rw small (scan_only max n out h small)
  | inr large ↦ rw large (
      scan-digits max fuel (n / 10) ((b'0' + n % 10) ∷ out) (omega arith) (ground arith)
      ∙ scan_last max n out h)
]

digits-ne-nil : (fuel n : ℕ) (out : Text) → out ≢ [] → digits fuel n out ≢ []
unfolding digits
digits-ne-nil zero n out h = h
digits-ne-nil (suc fuel) n out h =
    ground (arith, digits-ne-nil fuel (n / 10) ((b'0' + n % 10) ∷ out))

pub format_uint-ne-nil : (n : ℕ) → format_uint n ≢ []
unfolding format_uint
format_uint-ne-nil n = ground (arith, digits-ne-nil n (n / 10) ((b'0' + n % 10) ∷ []))

parse_uint-scan : (bits : ℕ) (s : Text) → s ≢ [] → parse_uint bits s ≡ scan (2 ^ bits - 1) s 0
unfolding parse_uint
parse_uint-scan bits [] h = absurd (h refl)
parse_uint-scan bits (c ∷ s) h = refl

pub parse_uint-format_uint :
    (bits n : ℕ) → n ≤ 2 ^ bits - 1 → parse_uint bits (format_uint n) ≡ some n
parse_uint-format_uint bits n h =
    parse_uint-scan bits (format_uint n) (format_uint-ne-nil n)
    ∙ unfold format_uint scan in scan-digits (2 ^ bits - 1) (suc n) n [] h (omega arith)

pub format_uint_injective : (m n : ℕ) → format_uint m ≡ format_uint n → m ≡ n
unfolding format_uint scan
format_uint_injective m n e =
    let p : scan (m + n) (digits (suc m) m []) 0 ≡ some m =
      scan-digits (m + n) (suc m) m [] (omega arith) (omega arith) in
    let q : scan (m + n) (digits (suc n) n []) 0 ≡ some n =
      scan-digits (m + n) (suc n) n [] (omega arith) (omega arith) in
    let r : some m ≡ some n = sym p ∙ ap (λ (s : Text). scan (m + n) s 0) e ∙ q in ground arith

digits-all :
    (fuel n : ℕ) (out : Text) → all is_digit out ≡ true → all is_digit (digits fuel n out) ≡ true
unfolding digits
digits-all zero n out h = h
digits-all (suc fuel) n out h = ground (arith, digits-all fuel (n / 10) ((b'0' + n % 10) ∷ out))

pub format_uint-all_digits : (n : ℕ) → all is_digit (format_uint n) ≡ true
unfolding format_uint
format_uint-all_digits n = digits-all (suc n) n [] refl

format_largest : parse_uint 64 (format_uint (2 ^ 64 - 1)) ≡ some (2 ^ 64 - 1)
unfolding parse_uint format_uint
format_largest = refl
