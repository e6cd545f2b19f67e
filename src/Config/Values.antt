-- ===== src/Config/Values.antt =====
-- internal/config/models.go: the methods that decode an operation's raw value.
use winforge.Prelude.{ℕ, ◌^◌, ◌-◌, Bool, true, false, Option, none, some, ltb, if◌then◌else◌}
use winforge.Text.{Text, codes, CaseTable, equal_fold}
use winforge.Errors.{
  Result, ok, err, ◌>>=◌, ◌>>◌, refuse, bad_json, negative_value, dword_range, netbios_range,
  processor_empty, processor_range, processor_order,
}
use winforge.Config.{Operation}
use winforge.Config.Json.{
  Json, null, object, Fields, end, field, ℤ, pos, negsuc, unmarshal_int64, unmarshal_uint,
  unmarshal_text, unmarshal_bool, unmarshal_pointer,
}

-- the range checks of DwordValue
unfoldable pub dword_of : ℤ → Result ℕ
dword_of (negsuc n) = err negative_value
dword_of (pos n) = if ltb (2 ^ 32 - 1) n then err dword_range else ok n

unfoldable pub dword_value : Operation → Result ℕ
unfolding dword_of unmarshal_int64
dword_value o = do n ← unmarshal_int64 o.value.json; dword_of n

unfoldable pub string_value : Operation → Result Text
unfolding unmarshal_text
string_value o = unmarshal_text o.value.json

unfoldable pub qword_value : Operation → Result ℕ
unfolding unmarshal_uint
qword_value o = unmarshal_uint 64 o.value.json

unfoldable pub bool_value : Operation → Result Bool
unfolding unmarshal_bool
bool_value o = unmarshal_bool o.value.json

-- A missing bound means "leave the current value unchanged".
pub record ProcessorState : Type 0 where
  pub min : Option ℕ
  pub max : Option ℕ

abbrev pub exceeds_100 : Option ℕ → Bool
exceeds_100 none = false
exceeds_100 (some v) = ltb 100 v

abbrev pub out_of_order : Option ℕ → Option ℕ → Bool
out_of_order (some lo) (some hi) = ltb hi lo
out_of_order _ _ = false

abbrev pub no_bound : Option ℕ → Option ℕ → Bool
no_bound none none = true
no_bound _ _ = false

-- the checks of ProcessorStateValue, after the decoding
unfoldable pub check_processor_state : ProcessorState → Result ProcessorState
check_processor_state ps = do
  refuse (no_bound ps.min ps.max) processor_empty
  refuse (exceeds_100 ps.min) processor_range
  refuse (exceeds_100 ps.max) processor_range
  refuse (out_of_order ps.min ps.max) processor_order
  ok ps

-- The strict decoder takes a field's name in any case; a name given twice is decoded twice, and
-- any other name is an error.
module _ ⦃t : CaseTable⦄ where
  unfoldable pub decode_field : Text → Json → ProcessorState → Result ProcessorState
  unfolding unmarshal_pointer
  decode_field key j ps =
      if equal_fold key (codes "min")
      then (do v ← unmarshal_pointer j; ok (record ps { min = v }))
      else if equal_fold key (codes "max")
      then (do v ← unmarshal_pointer j; ok (record ps { max = v }))
      else err bad_json

  unfoldable pub decode_fields : Fields → ProcessorState → Result ProcessorState
  unfolding decode_field
  decode_fields end ps = ok ps
  decode_fields (field key j rest) ps = do next ← decode_field key j ps; decode_fields rest next

  unfoldable pub decode_processor_state : Option Json → Result ProcessorState
  unfolding decode_fields
  decode_processor_state (some null) = ok (record { min = none; max = none })
  decode_processor_state (some (object fields)) =
      decode_fields fields (record { min = none; max = none })
  decode_processor_state _ = err bad_json

  unfoldable pub processor_state_value : Operation → Result ProcessorState
  unfolding decode_processor_state check_processor_state
  processor_state_value o = do ps ← decode_processor_state o.value.json; check_processor_state ps

unfoldable pub netbios_value : Operation → Result ℕ
unfolding dword_value
netbios_value o = do n ← dword_value o; if ltb 2 n then err netbios_range else ok n
