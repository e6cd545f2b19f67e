-- ===== src/Config/Json.antt =====
-- json.RawMessage and what encoding/json makes of it. A raw value is kept with its length in bytes
-- and its parse; `none` is an absent value or a text that is not JSON.
use winforge.Prelude.{
  ℕ, zero, suc, ◌^◌, Bool, true, false, Option, none, some, ltb, leb, if◌then◌else◌,
}
use winforge.Text.{Text, codes}
use winforge.Errors.{Result, ok, err, ◌>>=◌, bad_json}

-- `integer minus n` is a number literal with no fraction and no exponent, `fraction` one with
-- either. Nothing in the program looks into an array.
mutual
  pub data Json : Type 0 where
    null : Json
    bool : Bool → Json
    integer : Bool → ℕ → Json
    fraction : Json
    text : Text → Json
    array : Json
    object : Fields → Json

  pub data Fields : Type 0 where
    end : Fields
    field : Text → Json → Fields → Fields

pub record RawMessage : Type 0 where
  pub size : ℕ
  pub json : Option Json

pub data ℤ : Type 0 where
  pos : ℕ → ℤ
  negsuc : ℕ → ℤ

abbrev signed : Bool → ℕ → ℤ
signed true (suc n) = negsuc n
signed true zero = pos 0
signed false n = pos n

-- json.Unmarshal into an int64. A null leaves the variable at its zero value.
unfoldable pub unmarshal_int64 : Option Json → Result ℤ
unmarshal_int64 (some null) = ok (pos 0)
unmarshal_int64 (some (integer minus n)) =
    if (if minus then leb n (2 ^ 63) else ltb n (2 ^ 63)) then ok (signed minus n) else err bad_json
unmarshal_int64 _ = err bad_json

-- json.Unmarshal into an unsigned integer of `bits` bits: a minus sign is refused, also in -0.
unfoldable pub unmarshal_uint : ℕ → Option Json → Result ℕ
unmarshal_uint bits (some null) = ok 0
unmarshal_uint bits (some (integer false n)) = if ltb n (2 ^ bits) then ok n else err bad_json
unmarshal_uint bits _ = err bad_json

unfoldable pub unmarshal_text : Option Json → Result Text
unmarshal_text (some null) = ok (codes "")
unmarshal_text (some (text s)) = ok s
unmarshal_text _ = err bad_json

unfoldable pub unmarshal_bool : Option Json → Result Bool
unmarshal_bool (some null) = ok false
unmarshal_bool (some (bool b)) = ok b
unmarshal_bool _ = err bad_json

-- A *uint32 field: null makes the pointer nil.
unfoldable pub unmarshal_pointer : Json → Result (Option ℕ)
unfolding unmarshal_uint
unmarshal_pointer null = ok none
unmarshal_pointer j = do n ← unmarshal_uint 32 (some j); ok (some n)
