-- ===== src/Config/Validate/Accepted.antt =====
-- What an accepted operation has.
use winforge.Prelude.{ℕ, ◌^◌, ◌<◌, ◌≤◌, ◌≡◌, refl, arith, Bool, true, false, Option, none, some}
use winforge.Text.{Text, CaseTable}
use winforge.Errors.{
  Result, ok, err, ◌>>=◌, ◌>>◌, refuse, processor_empty, processor_range, processor_order,
}
use winforge.Config.Json.{Json, ℤ, pos, negsuc, unmarshal_int64, unmarshal_uint}
use winforge.Config.{
  OpType, Operation, registry_set_dword, registry_set_string, registry_set_qword, registry_delete,
  registry_delete_key, service_start_mode, service_start, service_stop, task_disable, task_enable,
  task_delete, appx_remove, command, power_scheme, power_hibernate, power_processor_state, netbios,
  other_op,
}
use winforge.Config.Values.{
  ProcessorState, dword_value, string_value, qword_value, bool_value, processor_state_value,
  netbios_value, dword_of, exceeds_100, no_bound, out_of_order, check_processor_state,
  decode_processor_state,
}
use winforge.Config.Validate.{
  check_operation_limits, require_registry_target, check_name, validate_as, validate_operation,
}
use winforge.Service.{StartMode, parse_start_mode}
use winforge.Power.{resolve, is_guid}
use winforge.Power.Laws.{resolve-is_guid}
use winforge.Tweak.Orchestrator.{is_registry_op}
use winforge.Tweak.EntryCheck.{is_hive}
use winforge.Tweak.UndoEntry.RoundTrip.{IsTargeted}

-- the result of a step that went through, and the rest
module _ {ℓ κ} {A : Type ℓ} {B : Type κ} {b : B} where
  pub >>=-ok :
      (action : Result A) (next : A → Result B)
      → (action >>= next) ≡ ok b
      → (value : A) × (action ≡ ok value) × (next value ≡ ok b)
  >>=-ok (err cause) next h = cc
  >>=-ok (ok value) next h = (value, refl, h)

-- a percentage, where there is one
abbrev Percent : Option ℕ → Type 0
Percent none = Unit
Percent (some v) = v ≤ 100

-- At least one bound is given, and two bounds are in order.
abbrev InOrder : Option ℕ → Option ℕ → Type 0
InOrder none none = ⊥
InOrder (some min) (some max) = min ≤ max
InOrder _ _ = Unit

-- What applyOp decodes from an operation, by its type, is there.
abbrev pub Decodes : ⦃c : CaseTable⦄ → OpType → Operation → Type 0
Decodes registry_set_dword o = (n : ℕ) × (dword_value o ≡ ok n) × (n < 2 ^ 32)
Decodes registry_set_qword o = (n : ℕ) × (qword_value o ≡ ok n) × (n < 2 ^ 64)
Decodes registry_set_string o = (s : Text) × (string_value o ≡ ok s)
Decodes service_start_mode o =
    (s : Text) × (string_value o ≡ ok s) × (m : StartMode) × (parse_start_mode s ≡ ok m)
Decodes power_scheme o =
    (s : Text) × (string_value o ≡ ok s) × (g : Text) × (resolve s ≡ ok g) × (is_guid g ≡ true)
Decodes power_hibernate o = (b : Bool) × (bool_value o ≡ ok b)
Decodes power_processor_state o =
    (p : ProcessorState) × (processor_state_value o ≡ ok p)
    × Percent p.min
    × Percent p.max
    × InOrder p.min p.max
Decodes netbios o = (n : ℕ) × (netbios_value o ≡ ok n) × (n ≤ 2)
Decodes command o = (s : Text) × (string_value o ≡ ok s)
Decodes (other_op name) o = ⊥
Decodes _ o = Unit

module _ ⦃c : CaseTable⦄ where
  only_value : {A : Type 0} (m : Result A) → (m >>= λ a. ok tt) ≡ ok (tt {0}) → (a : A) × (m ≡ ok a)
  only_value m h = let (a, e, rest) = >>=-ok m _ h in (a, e)

  dword_of-lt : (z : ℤ) {n : ℕ} → dword_of z ≡ ok n → n < 2 ^ 32
  unfolding dword_of
  dword_of-lt (negsuc k) h = cc
  dword_of-lt (pos k) h = ground arith

  dword_value-lt : (o : Operation) {n : ℕ} → dword_value o ≡ ok n → n < 2 ^ 32
  unfolding dword_value
  dword_value-lt o h =
      let (z, e, rest) = >>=-ok (unmarshal_int64 o.value.json) _ h in dword_of-lt z rest

  unmarshal_uint-lt : (j : Option Json) {n : ℕ} → unmarshal_uint 64 j ≡ ok n → n < 2 ^ 64
  unfolding unmarshal_uint
  unmarshal_uint-lt j h = ground arith

  qword_value-lt : (o : Operation) {n : ℕ} → qword_value o ≡ ok n → n < 2 ^ 64
  unfolding qword_value
  qword_value-lt o h = unmarshal_uint-lt o.value.json h

  netbios_value-le : (o : Operation) {n : ℕ} → netbios_value o ≡ ok n → n ≤ 2
  unfolding netbios_value
  netbios_value-le o h = let (z, e, rest) = >>=-ok (dword_value o) _ h in ground arith

  exceeds_100-Percent : (bound : Option ℕ) → exceeds_100 bound ≡ false → Percent bound
  exceeds_100-Percent none h = tt
  exceeds_100-Percent (some v) h = ground arith

  bounds-InOrder :
      (min max : Option ℕ)
      → no_bound min max ≡ false
      → out_of_order min max ≡ false
      → InOrder min max
  bounds-InOrder none none h k = cc
  bounds-InOrder none (some hi) h k = tt
  bounds-InOrder (some lo) none h k = tt
  bounds-InOrder (some lo) (some hi) h k = ground arith

  checked :
      (none_given low_large high_large swapped : Bool) (ps : ProcessorState) {p : ProcessorState}
      → (do
        refuse none_given processor_empty
        refuse low_large processor_range
        refuse high_large processor_range
        refuse swapped processor_order
        ok ps)
        ≡ ok p
      → (none_given ≡ false)
        × (low_large ≡ false)
        × (high_large ≡ false)
        × (swapped ≡ false)
        × (ps ≡ p)
  checked none_given low_large high_large swapped ps h = ground arith

  check_processor_state-Percent :
      (ps : ProcessorState) {p : ProcessorState}
      → check_processor_state ps ≡ ok p
      → Percent p.min × Percent p.max × InOrder p.min p.max
  unfolding check_processor_state
  check_processor_state-Percent ps h =
      let (given, low, high, ordered, same) =
        checked (no_bound ps.min ps.max) (exceeds_100 ps.min) (exceeds_100 ps.max)
          (out_of_order ps.min ps.max) ps h in
      rw (← same) (
        exceeds_100-Percent ps.min low,
        exceeds_100-Percent ps.max high,
        bounds-InOrder ps.min ps.max given ordered,
      )

  processor_state_value-Percent :
      (o : Operation) {p : ProcessorState}
      → processor_state_value o ≡ ok p
      → Percent p.min × Percent p.max × InOrder p.min p.max
  unfolding processor_state_value
  processor_state_value-Percent o h =
      let (ps, e, rest) = >>=-ok (decode_processor_state o.value.json) _ h in
      check_processor_state-Percent ps rest

  validate_as-Decodes :
      (type : OpType) (o : Operation) → validate_as type o ≡ ok tt → Decodes type o
  unfolding validate_as
  validate_as-Decodes registry_set_dword o h =
      let (u, e, rest) = >>=-ok (require_registry_target o) _ h in
      let (n, k) = only_value (dword_value o) rest in (n, k, dword_value-lt o k)
  validate_as-Decodes registry_set_qword o h =
      let (u, e, rest) = >>=-ok (require_registry_target o) _ h in
      let (n, k) = only_value (qword_value o) rest in (n, k, qword_value-lt o k)
  validate_as-Decodes registry_set_string o h =
      let (u, e, rest) = >>=-ok (require_registry_target o) _ h in
      let (s, k, short) = >>=-ok (string_value o) _ rest in (s, k)
  validate_as-Decodes service_start_mode o h =
      let (u, e, rest) = >>=-ok (check_name o.name 256) _ h in
      let (s, k, parsed) = >>=-ok (string_value o) _ rest in
      let (m, known) = only_value (parse_start_mode s) parsed in (s, k, m, known)
  validate_as-Decodes power_scheme o h =
      let (s, k, found) = >>=-ok (string_value o) _ h in
      let (g, known) = only_value (resolve s) found in (s, k, g, known, resolve-is_guid s known)
  validate_as-Decodes power_hibernate o h = only_value (bool_value o) h
  validate_as-Decodes power_processor_state o h =
      let (p, k) = only_value (processor_state_value o) h in
      let (low, high, ordered) = processor_state_value-Percent o k in (p, k, low, high, ordered)
  validate_as-Decodes netbios o h =
      let (n, k) = only_value (netbios_value o) h in (n, k, netbios_value-le o k)
  validate_as-Decodes command o h = let (s, k, rest) = >>=-ok (string_value o) _ h in (s, k)
  validate_as-Decodes (other_op name) o h = cc
  validate_as-Decodes registry_delete o h = tt
  validate_as-Decodes registry_delete_key o h = tt
  validate_as-Decodes service_start o h = tt
  validate_as-Decodes service_stop o h = tt
  validate_as-Decodes task_disable o h = tt
  validate_as-Decodes task_enable o h = tt
  validate_as-Decodes task_delete o h = tt
  validate_as-Decodes appx_remove o h = tt

  -- An operation that validateOperation accepts has a known type, and every value that applyOp
  -- decodes for that type is there: a number that fits its type, a NetBIOS option of at most 2, the
  -- text, a known start mode, a power scheme that resolves to a GUID, or a processor state with a bound,
  -- its bounds percentages and in order.
  pub validate_operation-Decodes :
      (o : Operation) → validate_operation o ≡ ok tt → Decodes o.op_type o
  unfolding validate_operation
  validate_operation-Decodes o h =
      let (u, e, rest) = >>=-ok (check_operation_limits o) _ h in
      validate_as-Decodes o.op_type o rest

  target-IsTargeted :
      (o : Operation)
      → is_registry_op o.op_type ≡ true
      → require_registry_target o ≡ ok tt
      → IsTargeted o
  unfolding require_registry_target is_hive
  target-IsTargeted o h k = record {
    on_value = h;
    known_hive = ground arith;
    has_path = ground arith;
  }

  validate_as-target :
      (type : OpType) (o : Operation)
      → is_registry_op type ≡ true
      → validate_as type o ≡ ok tt
      → require_registry_target o ≡ ok tt
  unfolding validate_as is_registry_op
  validate_as-target registry_set_dword o r h =
      let (u, e, rest) = >>=-ok (require_registry_target o) _ h in e
  validate_as-target registry_set_qword o r h =
      let (u, e, rest) = >>=-ok (require_registry_target o) _ h in e
  validate_as-target registry_set_string o r h =
      let (u, e, rest) = >>=-ok (require_registry_target o) _ h in e
  validate_as-target registry_delete o r h = h
  validate_as-target _ o r h = cc

  -- An operation on a registry value that validateOperation accepts has what its undo asks for: a
  -- known hive and a path that is not blank.
  pub validate_operation-IsTargeted :
      (o : Operation)
      → validate_operation o ≡ ok tt
      → is_registry_op o.op_type ≡ true
      → IsTargeted o
  unfolding validate_operation
  validate_operation-IsTargeted o h r =
      let (u, e, rest) = >>=-ok (check_operation_limits o) _ h in
      target-IsTargeted o r (validate_as-target o.op_type o r rest)
