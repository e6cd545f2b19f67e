-- ===== src/Power/Guid/Fields.antt =====
-- The fields of a text that has the form of a GUID.
use winforge.Prelude.{
  ℕ, zero, suc, ◌+◌, ◌-◌, ◌≤◌, ◌≡◌, refl, sym, ap, ◌∙◌, Bool, true, false, not, ◌&&◌, List, [], ◌∷◌,
  ◌++◌, append-nil, take, drop, take-append-drop, length, all, arith, ==_iff, ◌==◌,
}
use mathlib.Core.Path.{subst}
use winforge.Text.{Text, codes}
use winforge.Power.{is_hex, is_hyphen_place, guid_from, is_guid}

drop-nil : {A : Type 0} (n : ℕ) → drop {A = A} n [] ≡ []
drop-nil zero = refl
drop-nil (suc n) = refl

drop-drop : {A : Type 0} (n m : ℕ) (xs : List A) → drop m (drop n xs) ≡ drop (n + m) xs
drop-drop zero m xs = ap (λ (k : ℕ). drop k xs) (omega arith)
drop-drop (suc n) zero [] = sym (drop-nil (suc n + zero))
drop-drop (suc n) (suc m) [] = sym (drop-nil (suc n + suc m))
drop-drop (suc n) m (x ∷ xs) =
    drop-drop n m xs
    ∙ ap (λ (k : ℕ). drop k (x ∷ xs)) {x = suc (n + m)} {y = suc n + m} (omega arith)

pub length-drop : {A : Type 0} (n : ℕ) (xs : List A) → length (drop n xs) ≡ length xs - n
length-drop zero xs = omega arith
length-drop (suc n) [] = omega arith
length-drop (suc n) (x ∷ xs) = omega (arith, length-drop n xs)

-- no hyphen belongs at the places from i on
abbrev plain_run : ℕ → ℕ → Bool
plain_run i zero = true
plain_run i (suc w) = not (is_hyphen_place i) && plain_run (i + 1) w

hex-step :
    (i d : ℕ) (s : Text)
    → is_hyphen_place i ≡ false
    → guid_from i (d ∷ s) ≡ true
    → (is_hex d ≡ true) × (guid_from (i + 1) s ≡ true)
unfolding guid_from
hex-step i d s p h = ground arith

-- the digits of a field, and what follows it
hex-run :
    (w i : ℕ) (s : Text)
    → plain_run i w ≡ true
    → w ≤ length s
    → guid_from i s ≡ true
    → (all is_hex (take w s) ≡ true) × (guid_from (i + w) (drop w s) ≡ true)
hex-run zero i s p b h =
    (refl, subst (λ (j : ℕ). guid_from j s ≡ true) {x = i} {y = i + 0} (omega arith) h)
hex-run (suc w) i [] p b h = absurd (omega (arith, b))
hex-run (suc w) i (d ∷ s) p b h =
    let (here, later) = hex-step i d s (ground arith) h in
    let (digits, rest) = hex-run w (i + 1) s (ground arith) (omega (arith, b)) later in
    (
      ground arith,
      subst (λ (j : ℕ). guid_from j (drop w s) ≡ true) {x = i + 1 + w} {y = i + suc w} (omega arith)
          rest,
    )

hyphen-here :
    (i d : ℕ) (s : Text)
    → is_hyphen_place i ≡ true
    → guid_from i (d ∷ s) ≡ true
    → ((d == b'-') ≡ true) × (guid_from (i + 1) s ≡ true)
unfolding guid_from
hyphen-here i d s p h = ground arith

hyphen-step :
    (i : ℕ) (s : Text)
    → is_hyphen_place i ≡ true
    → 1 ≤ length s
    → guid_from i s ≡ true
    → (take 1 s ≡ codes "-") × (guid_from (i + 1) (drop 1 s) ≡ true)
hyphen-step i [] p b h = absurd (omega (arith, b))
hyphen-step i (d ∷ s) p b h =
    let (e, rest) = hyphen-here i d s p h in (rw ((==_iff d b'-').0 e) refl, rest)

-- `s` from its place n on, where the checks go on
record From (n : ℕ) (s : Text) : Type 0 where
  size : length s ≡ 36
  checked : guid_from n (drop n s) ≡ true

field :
    (n w : ℕ) (s : Text)
    → plain_run n w ≡ true
    → n + w ≤ 36
    → From n s
    → (all is_hex (take w (drop n s)) ≡ true) × From (n + w) s
field n w s p b f =
    let (digits, rest) =
      hex-run w n (drop n s) p (omega (arith, b, f.size, length-drop n s)) f.checked in
    (
      digits,
      record {
        size = f.size;
        checked = subst (λ (t : Text). guid_from (n + w) t ≡ true) (drop-drop n w s) rest;
      },
    )

dash :
    (n : ℕ) (s : Text)
    → is_hyphen_place n ≡ true
    → n + 1 ≤ 36
    → From n s
    → (take 1 (drop n s) ≡ codes "-") × From (n + 1) s
dash n s p b f =
    let (e, rest) =
      hyphen-step n (drop n s) p (omega (arith, b, f.size, length-drop n s)) f.checked in
    (
      e,
      record {
        size = f.size;
        checked = subst (λ (t : Text). guid_from (n + 1) t ≡ true) (drop-drop n 1 s) rest;
      },
    )

-- the five fields of a GUID
pub record Fields (s : Text) : Type 0 where
  pub size : length s ≡ 36
  pub first : all is_hex (take 8 s) ≡ true
  pub second : all is_hex (take 4 (drop 9 s)) ≡ true
  pub third : all is_hex (take 4 (drop 14 s)) ≡ true
  pub fourth : all is_hex (take 4 (drop 19 s)) ≡ true
  pub fifth : all is_hex (take 12 (drop 24 s)) ≡ true
  pub dash8 : take 1 (drop 8 s) ≡ codes "-"
  pub dash13 : take 1 (drop 13 s) ≡ codes "-"
  pub dash18 : take 1 (drop 18 s) ≡ codes "-"
  pub dash23 : take 1 (drop 23 s) ≡ codes "-"

From-Fields : (s : Text) → From 0 s → Fields s
From-Fields s f0 =
    let (h1, f8) = field 0 8 s refl (omega arith) f0 in
    let (d8, f9) = dash 8 s refl (omega arith) f8 in
    let (h2, f13) = field 9 4 s refl (omega arith) f9 in
    let (d13, f14) = dash 13 s refl (omega arith) f13 in
    let (h3, f18) = field 14 4 s refl (omega arith) f14 in
    let (d18, f19) = dash 18 s refl (omega arith) f18 in
    let (h4, f23) = field 19 4 s refl (omega arith) f19 in
    let (d23, f24) = dash 23 s refl (omega arith) f23 in
    let (h5, f36) = field 24 12 s refl (omega arith) f24 in
    record {
      size = f0.size;
      first = h1;
      second = h2;
      third = h3;
      fourth = h4;
      fifth = h5;
      dash8 = d8;
      dash13 = d13;
      dash18 = d18;
      dash23 = d23;
    }

is_guid-From : (s : Text) → is_guid s ≡ true → From 0 s
unfolding is_guid
is_guid-From s h = record { size = ground arith; checked = ground arith }

cut : (n w : ℕ) (s : Text) → drop n s ≡ take w (drop n s) ++ drop (n + w) s
cut n w s =
    sym (take-append-drop w (drop n s))
    ∙ ap (λ (t : Text). take w (drop n s) ++ t) (drop-drop n w s)

after_field :
    (n w : ℕ) (s : Text) {rest : Text}
    → drop (n + w) s ≡ rest
    → drop n s ≡ take w (drop n s) ++ rest
after_field n w s e = cut n w s ∙ ap (λ (t : Text). take w (drop n s) ++ t) e

after_dash :
    (n : ℕ) (s : Text) {rest : Text}
    → take 1 (drop n s) ≡ codes "-"
    → drop (n + 1) s ≡ rest
    → drop n s ≡ codes "-" ++ rest
after_dash n s {rest} d e = after_field n 1 s e ∙ ap (λ (t : Text). t ++ rest) d

drop-all : (n : ℕ) (s : Text) → length s ≤ n → drop n s ≡ []
drop-all n [] h = drop-nil n
drop-all zero (d ∷ s) h = absurd (omega (arith, h))
drop-all (suc n) (d ∷ s) h = drop-all n s (omega (arith, h))

-- The text is its fields with the hyphens between them.
pub Fields-whole :
    (s : Text)
    → Fields s
    → s
      ≡ take 8 s
        ++ (codes "-"
            ++ (take 4 (drop 9 s)
                ++ (codes "-"
                    ++ (take 4 (drop 14 s)
                        ++ (codes "-"
                            ++ (take 4 (drop 19 s) ++ (codes "-" ++ take 12 (drop 24 s))))))))
Fields-whole s f =
    let last =
      after_field 24 12 s (drop-all 36 s (omega (arith, f.size)))
      ∙ append-nil (take 12 (drop 24 s)) in
    let tail = after_field 19 4 s (after_dash 23 s f.dash23 last) in
    let middle = after_field 14 4 s (after_dash 18 s f.dash18 tail) in
    let front = after_field 9 4 s (after_dash 13 s f.dash13 middle) in
    after_field 0 8 s (after_dash 8 s f.dash8 front)

pub is_guid-Fields : (s : Text) → is_guid s ≡ true → Fields s
is_guid-Fields s h = From-Fields s (is_guid-From s h)
