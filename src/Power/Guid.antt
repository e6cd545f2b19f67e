-- ===== src/Power/Guid.antt =====
-- internal/power/power.go: guidParts; power_windows.go: win32GUID, toWin32GUID, fromWin32GUID.
pub mod Digits
pub mod Bytes
pub mod Fields
pub mod RoundTrip
use winforge.Prelude.{
  ℕ, zero, suc, ◌+◌, ◌-◌, ◌*◌, ◌/◌, ◌%◌, ◌^◌, Bool, true, false, not, ◌&&◌, Option, none, some,
  List, [], ◌∷◌, ◌++◌, ltb, leb, take, drop, if◌then◌else◌,
}
use winforge.Text.{Text, codes, to_lower, CaseTable}
use winforge.Errors.{Err, Result, ok, err, ◌>>=◌, invalid_guid}
use winforge.Power.{is_hex, is_guid}

-- Data1 has 32 bits, Data2 and Data3 have 16, and Data4 is eight bytes.
pub record Win32Guid : Type 0 where
  pub data1 : ℕ
  pub data2 : ℕ
  pub data3 : ℕ
  pub data4 : List ℕ

-- the value of a hexadecimal digit
unfoldable pub hex_value : ℕ → ℕ
hex_value c = if leb c b'9' then c - b'0' else if leb c b'F' then c - b'A' + 10 else c - b'a' + 10

unfoldable pub scan_hex : (max : ℕ) → Text → ℕ → Option ℕ
scan_hex max [] n = some n
scan_hex max (c ∷ s) n =
    let next = n * 16 + hex_value c in
    let rest = scan_hex max s next in if is_hex c && leb next max then rest else none

abbrev field_of : Option ℕ → Result ℕ
field_of none = err invalid_guid
field_of (some n) = ok n

-- strconv.ParseUint(s, 16, bits)
unfoldable pub hex_field : ℕ → Text → Result ℕ
hex_field bits [] = err invalid_guid
hex_field bits (c ∷ s) = field_of (scan_hex (2 ^ bits - 1) (c ∷ s) 0)

-- s[i:j]; a GUID is ASCII, so that a byte is a character
abbrev pub slice : ℕ → ℕ → Text → Text
slice i j s = take (j - i) (drop i s)

-- the loop over `tail`, for the bytes that are left
unfoldable pub byte_fields : ℕ → Text → Result (List ℕ)
byte_fields zero tail = ok []
byte_fields (suc k) tail = do
  b ← hex_field 8 (take 2 tail)
  rest ← byte_fields k (drop 2 tail)
  ok (b ∷ rest)

unfoldable pub guid_parts : Text → Result Win32Guid
guid_parts s = if not (is_guid s) then err invalid_guid else do
  p1 ← hex_field 32 (slice 0 8 s)
  p2 ← hex_field 16 (slice 9 13 s)
  p3 ← hex_field 16 (slice 14 18 s)
  data4 ← byte_fields 8 (slice 19 23 s ++ slice 24 36 s)
  ok (record { data1 = p1; data2 = p2; data3 = p3; data4 = data4 })

-- the digits of %x
unfoldable pub hex_char : ℕ → ℕ
hex_char d = if ltb d 10 then b'0' + d else b'a' + (d - 10)

-- `%0wx` for a number of at most w digits, which the field's type bounds; the last digit first
unfoldable pub hex_digits : ℕ → ℕ → Text → Text
hex_digits zero n out = out
hex_digits (suc w) n out = hex_digits w (n / 16) (hex_char (n % 16) ∷ out)

unfoldable pub byte_text : List ℕ → Text
byte_text [] = []
byte_text (b ∷ bs) = hex_digits 2 b [] ++ byte_text bs

-- fromWin32GUID
unfoldable pub from_win32_guid : ⦃c : CaseTable⦄ → Win32Guid → Text
from_win32_guid g = to_lower (
    hex_digits 8 g.data1 []
    ++ (codes "-"
        ++ (hex_digits 4 g.data2 []
            ++ (codes "-"
                ++ (hex_digits 4 g.data3 []
                    ++ (codes "-"
                        ++ (byte_text (take 2 g.data4)
                            ++ (codes "-" ++ byte_text (drop 2 g.data4)))))))))
