-- ===== src/Power/Guid/RoundTrip.antt =====
-- A GUID comes back from its parts.
use winforge.Prelude.{
  ℕ, ◌+◌, ◌≡◌, refl, sym, ap, ◌∙◌, true, some, [], ◌∷◌, ◌++◌, take, drop, length-take, arith, ◌==◌,
}
use winforge.Text.{Text, codes, to_lower, lower_rune, trim_space, CaseTable}
use winforge.Errors.{ok}
use winforge.Power.{is_hex, guid_from, is_guid, alias, resolve}
use winforge.Power.Laws.{resolve-is_guid}
use winforge.Power.Guid.{Win32Guid, guid_parts, hex_digits, byte_text, from_win32_guid}
use winforge.Power.Guid.Fields.{Fields, Fields-whole, is_guid-Fields, length-drop}
use winforge.Power.Guid.Digits.{text-HasField}
use winforge.Power.Guid.Bytes.{text-HasTail}

module _ ⦃c : CaseTable⦄ where
  to_lower-append : (s t : Text) → to_lower (s ++ t) ≡ to_lower s ++ to_lower t
  unfolding to_lower
  to_lower-append [] t = refl
  to_lower-append (d ∷ s) t = ap (λ (r : Text). lower_rune d ∷ r) (to_lower-append s t)

  lower_rune-twice : (d : ℕ) → is_hex d ≡ true → lower_rune (lower_rune d) ≡ lower_rune d
  unfolding is_hex lower_rune
  lower_rune-twice d h = ground arith

  hyphen-lower_rune : (d : ℕ) → (d == b'-') ≡ true → lower_rune (lower_rune d) ≡ lower_rune d
  unfolding lower_rune
  hyphen-lower_rune d h = ground arith

  to_lower_twice : (i : ℕ) (s : Text) → guid_from i s ≡ true → to_lower (to_lower s) ≡ to_lower s
  unfolding to_lower guid_from
  to_lower_twice i [] h = refl
  to_lower_twice i (d ∷ s) h =
      ground (arith, lower_rune-twice d, hyphen-lower_rune d, to_lower_twice (i + 1) s)

  -- the parts of a text that is printed back
  record HasParts (s : Text) : Type 0 where
    parts : Win32Guid
    split : guid_parts s ≡ ok parts
    printed : from_win32_guid parts ≡ to_lower (to_lower s)

  to_lower-dashed :
      (f r : Text) → to_lower (f ++ (codes "-" ++ r)) ≡ to_lower f ++ (codes "-" ++ to_lower r)
  unfolding to_lower lower_rune
  to_lower-dashed f r = to_lower-append f (codes "-" ++ r)

  joined :
      (f1 f2 f3 f4 f5 : Text)
      → to_lower (
          f1
          ++ (codes "-" ++ (f2 ++ (codes "-" ++ (f3 ++ (codes "-" ++ (f4 ++ (codes "-" ++ f5))))))))
        ≡ to_lower f1
          ++ (codes "-"
              ++ (to_lower f2
                  ++ (codes "-"
                      ++ (to_lower f3
                          ++ (codes "-" ++ (to_lower f4 ++ (codes "-" ++ to_lower f5)))))))
  joined f1 f2 f3 f4 f5 = simp to_lower-dashed

  print :
      (g : Win32Guid) (f1 f2 f3 f4 f5 : Text)
      → hex_digits 8 g.data1 [] ≡ to_lower f1
      → hex_digits 4 g.data2 [] ≡ to_lower f2
      → hex_digits 4 g.data3 [] ≡ to_lower f3
      → byte_text (take 2 g.data4) ≡ to_lower f4
      → byte_text (drop 2 g.data4) ≡ to_lower f5
      → from_win32_guid g
        ≡ to_lower (
            to_lower (
              f1
              ++ (codes "-"
                  ++ (f2 ++ (codes "-" ++ (f3 ++ (codes "-" ++ (f4 ++ (codes "-" ++ f5)))))))))
  unfolding from_win32_guid
  print g f1 f2 f3 f4 f5 e1 e2 e3 e4 e5 =
      rw (e1, e2, e3, e4, e5) (ap to_lower (sym (joined f1 f2 f3 f4 f5)))

  Fields-HasParts : (s : Text) → is_guid s ≡ true → Fields s → HasParts s
  unfolding guid_parts
  Fields-HasParts s g f =
      let p1 =
        text-HasField 32 7 (take 8 s) (omega (arith, f.size, length-take 8 s)) f.first
          (omega arith) in
      let p2 =
        text-HasField 16 3 (take 4 (drop 9 s))
          (omega (arith, f.size, length-take 4 (drop 9 s), length-drop 9 s)) f.second
          (omega arith) in
      let p3 =
        text-HasField 16 3 (take 4 (drop 14 s))
          (omega (arith, f.size, length-take 4 (drop 14 s), length-drop 14 s)) f.third
          (omega arith) in
      let t =
        text-HasTail (take 4 (drop 19 s)) (take 12 (drop 24 s))
          (omega (arith, f.size, length-take 4 (drop 19 s), length-drop 19 s)) f.fourth
          (omega (arith, f.size, length-take 12 (drop 24 s), length-drop 24 s)) f.fifth in
      let parts : Win32Guid = record {
        data1 = p1.value;
        data2 = p2.value;
        data3 = p3.value;
        data4 = t.bytes;
      } in
      record {
        parts = parts;
        split = rw (g, p1.read, p2.read, p3.read, t.read) refl;
        printed =
            print parts (take 8 s) (take 4 (drop 9 s)) (take 4 (drop 14 s)) (take 4 (drop 19 s))
              (take 12 (drop 24 s)) p1.printed p2.printed p3.printed t.head_printed t.rest_printed
            ∙ ap (λ (r : Text). to_lower (to_lower r)) (sym (Fields-whole s f));
      }

  is_guid-to_lower_twice : (s : Text) → is_guid s ≡ true → to_lower (to_lower s) ≡ to_lower s
  unfolding is_guid
  is_guid-to_lower_twice s h = to_lower_twice 0 s (ground arith)

  alias-lower : (s : Text) {g : Text} → alias s ≡ some g → to_lower g ≡ g
  unfolding alias to_lower lower_rune
  alias-lower s h = ground arith

  pub resolve-lower : (s : Text) {g : Text} → resolve s ≡ ok g → to_lower g ≡ g
  unfolding resolve
  resolve-lower s {g} h =
      ground (
        arith,
        alias-lower (to_lower (trim_space s)) {g = g},
        is_guid-to_lower_twice (trim_space s),
      )

  -- Whatever name or GUID Resolve accepts, guidParts splits its result into the fields of a Win32 GUID,
  -- and fromWin32GUID prints these fields as the same text.
  pub resolve-guid_parts :
      (s : Text) {t : Text}
      → resolve s ≡ ok t
      → (g : Win32Guid) × (guid_parts t ≡ ok g) × (from_win32_guid g ≡ t)
  resolve-guid_parts s {t} h =
      let g = resolve-is_guid s h in
      let p = Fields-HasParts t g (is_guid-Fields t g) in
      let low = resolve-lower s h in (p.parts, p.split, p.printed ∙ ap to_lower low ∙ low)
