-- ===== src/Power/Guid/Digits.antt =====
-- Hexadecimal digits are printed as they were read, in lower case.
use winforge.Prelude.{
  ℕ, suc, ◌+◌, ◌-◌, ◌*◌, ◌/◌, ◌%◌, ◌^◌, ◌≤◌, ◌<◌, ◌≡◌, refl, ap, ◌∙◌, Bool, true, some, [], ◌∷◌,
  ◌++◌, append-nil, length, all, arith,
}
use mathlib.Core.Path.{subst}
use native.Mathlib.Nat.{
  pow-suc, mul_comm, mul_left_comm, mul-le-mul_left, le-mul_of_pos_right, one-le-pow, le_trans,
  add-zero,
}
use winforge.Text.{Text, to_lower, lower_rune, CaseTable}
use winforge.Errors.{ok}
use winforge.Power.{is_hex}
use winforge.Power.Guid.{hex_value, scan_hex, hex_field, hex_char, hex_digits}

-- room for another digit
room : (n v l m : ℕ) → v < 16 → (n + 1) * 16 ^ suc l ≤ m → (n * 16 + v + 1) * 16 ^ l ≤ m
room n v l m low b =
    let p = 16 ^ l in
    let e : (n + 1) * 16 ^ suc l ≡ p * ((n + 1) * 16) =
      ap (λ (x : ℕ). (n + 1) * x) (pow-suc 16 l) ∙ mul_left_comm (n + 1) p 16 in
    let wider : n * 16 + v + 1 ≤ (n + 1) * 16 = omega arith in
    rw (mul_comm (n * 16 + v + 1) p) (le_trans (mul-le-mul_left p wider) (rw e at b))

fits : (n l m : ℕ) → (n + 1) * 16 ^ l ≤ m → n < m
fits n l m b =
    let p = le-mul_of_pos_right {m = 16 ^ l} (n + 1) (one-le-pow l 16 (omega arith)) in
    omega (arith, p, b)

all-cons :
    (p : ℕ → Bool) (d : ℕ) (s : Text) → all p (d ∷ s) ≡ true → (p d ≡ true) × (all p s ≡ true)
all-cons p d s h = ground arith

module _ ⦃c : CaseTable⦄ where
  -- The digit that is printed is the one that was read, in lower case.
  hex_char-hex_value : (d : ℕ) → is_hex d ≡ true → hex_char (hex_value d) ≡ lower_rune d
  unfolding is_hex hex_char hex_value lower_rune
  hex_char-hex_value d h = ground arith

  hex_value-bound : (d : ℕ) → is_hex d ≡ true → hex_value d < 16
  unfolding is_hex hex_value
  hex_value-bound d h = ground arith

  -- a reading of the digits `s` after the number `n`
  record Scanned (max : ℕ) (s : Text) (n : ℕ) : Type 0 where
    pub value : ℕ
    scanned : scan_hex max s n ≡ some value
    pub printed :
        (k : ℕ) (out : Text)
        → hex_digits (k + length s) value out ≡ hex_digits k n (to_lower s ++ out)

  scan_hex-step :
      (max d n m : ℕ) (s : Text)
      → is_hex d ≡ true
      → n * 16 + hex_value d < max + 1
      → scan_hex max s (n * 16 + hex_value d) ≡ some m
      → scan_hex max (d ∷ s) n ≡ some m
  unfolding scan_hex
  scan_hex-step max d n m s h b e = ground arith

  hex_digits-step :
      (d n k : ℕ) (out : Text)
      → is_hex d ≡ true
      → hex_digits (suc k) (n * 16 + hex_value d) out ≡ hex_digits k n (lower_rune d ∷ out)
  unfolding hex_digits
  hex_digits-step d n k out h =
      let low = hex_value-bound d h in
      let e : (n * 16 + hex_value d) / 16 ≡ n = omega arith in
      let f : (n * 16 + hex_value d) % 16 ≡ hex_value d = omega arith in
      rw (e, f, hex_char-hex_value d h) refl

  scan_hex-Scanned :
      (max : ℕ) (s : Text) (n : ℕ)
      → all is_hex s ≡ true
      → (n + 1) * 16 ^ length s ≤ max + 1
      → Scanned max s n
  unfolding to_lower
  scan_hex-Scanned max [] n h b = record {
    value = n;
    scanned = unfold scan_hex in refl;
    printed = λ k out. rw (add-zero k) refl;
  }
  scan_hex-Scanned max (d ∷ s) n h b =
      let (first, others) = all-cons is_hex d s h in
      let inside = room n (hex_value d) (length s) (max + 1) (hex_value-bound d first) b in
      let more = scan_hex-Scanned max s (n * 16 + hex_value d) others inside in
      record {
        value = more.value;
        scanned =
            scan_hex-step max d n more.value s first
              (fits (n * 16 + hex_value d) (length s) (max + 1) inside) more.scanned;
        printed = λ k out.
            ap (λ (j : ℕ). hex_digits j more.value out) (omega arith)
            ∙ more.printed (suc k) out
            ∙ hex_digits-step d n k (to_lower s ++ out) first;
      }

  -- a field of `w` digits, which `bits` bits hold
  pub record HasField (bits w : ℕ) (s : Text) : Type 0 where
    pub value : ℕ
    pub read : hex_field bits s ≡ ok value
    pub printed : hex_digits w value [] ≡ to_lower s

  hex_field-HasField :
      (bits : ℕ) (d : ℕ) (s : Text)
      → all is_hex (d ∷ s) ≡ true
      → 16 ^ length (d ∷ s) ≤ 2 ^ bits
      → HasField bits (length (d ∷ s)) (d ∷ s)
  unfolding hex_field hex_digits
  hex_field-HasField bits d s h b =
      let r =
        scan_hex-Scanned (2 ^ bits - 1) (d ∷ s) 0 h
          (omega (arith, one-le-pow bits 2 (omega arith))) in
      record {
        value = r.value;
        read = rw r.scanned refl;
        printed =
            ap (λ (j : ℕ). hex_digits j r.value []) {x = length (d ∷ s)} {y = 0 + length (d ∷ s)}
              (omega arith)
            ∙ r.printed 0 []
            ∙ append-nil (to_lower (d ∷ s));
      }

  pub text-HasField :
      (bits w : ℕ) (s : Text)
      → length s ≡ suc w
      → all is_hex s ≡ true
      → 16 ^ suc w ≤ 2 ^ bits
      → HasField bits (suc w) s
  text-HasField bits w [] e h b = absurd (omega (arith, e))
  text-HasField bits w (d ∷ s) e h b =
      subst (λ (n : ℕ). HasField bits n (d ∷ s)) e (hex_field-HasField bits d s h (rw e b))
