-- ===== src/Tweak/EntryCheck.antt =====
-- internal/tweak/orchestrator.go: the validation of the snapshot in a log entry.
use winforge.Prelude.{Bool, true, false, ◌||◌, not, [], ◌∷◌, ◌++◌, any, if◌then◌else◌}
use winforge.Text.{Text, codes, text_eq, has_prefix, trim_prefix, trim_space, is_empty, CaseTable}
use winforge.Errors.{
  Result, ok, err, ◌>>◌, refuse, inconsistent_snapshot, unknown_snapshot_type, bad_snapshot_value,
  invalid_hive, path_required,
}
use winforge.Config.{
  OpType, service_start_mode, power_scheme, power_hibernate, power_processor_state,
}
use winforge.Service.{parse_start_mode}
use winforge.Power
use winforge.Audit.Entry.{
  ValueType, no_type, dword, qword, string, expand_string, start_mode, scheme, hibernate,
  processor_state, other_type, Entry,
}
use winforge.Tweak.Snapshot.{parse_processor_state}
use winforge.Tweak.Orchestrator.{is_registry_op}

-- the hives that a registry operation may name
unfoldable pub is_hive : Text → Bool
unfolding text_eq
is_hive h =
    text_eq h (codes "HKLM")
    || text_eq h (codes "HKCU")
    || text_eq h (codes "HKCR")
    || text_eq h (codes "HKU")

abbrev pub value_target : Text → Text → Text → Text
value_target hive path name = hive ++ (codes "\\" ++ (path ++ (codes "\\" ++ name)))

unfoldable pub validate_registry_entry_target : Entry → Result (Unit {0})
validate_registry_entry_target e = do
  refuse (not (is_registry_op e.operation_type)) inconsistent_snapshot
  refuse (not (is_hive e.registry_hive)) (invalid_hive e.registry_hive)
  refuse (is_empty (trim_space e.registry_path)) path_required
  refuse (not (text_eq e.target (value_target e.registry_hive e.registry_path e.registry_name)))
      inconsistent_snapshot
  ok tt

abbrev is_no_type : ValueType → Bool
is_no_type no_type = true
is_no_type _ = false

abbrev names_registry : Entry → Bool
names_registry e =
    not (is_empty e.registry_hive)
    || not (is_empty e.registry_path)
    || not (is_empty e.registry_name)

abbrev is_start_mode_op : OpType → Bool
is_start_mode_op service_start_mode = true
is_start_mode_op _ = false

abbrev is_scheme_op : OpType → Bool
is_scheme_op power_scheme = true
is_scheme_op _ = false

abbrev is_hibernate_op : OpType → Bool
is_hibernate_op power_hibernate = true
is_hibernate_op _ = false

abbrev is_processor_op : OpType → Bool
is_processor_op power_processor_state = true
is_processor_op _ = false

-- strconv.ParseBool
unfoldable pub parse_bool : Text → Result Bool
unfolding text_eq
parse_bool s =
    if any (text_eq s)
      (codes "1" ∷ codes "t" ∷ codes "T" ∷ codes "true" ∷ codes "TRUE" ∷ codes "True" ∷ [])
    then ok true
    else if any (text_eq s)
        (codes "0" ∷ codes "f" ∷ codes "F" ∷ codes "false" ∷ codes "FALSE" ∷ codes "False" ∷ [])
    then ok false
    else err bad_snapshot_value

module _ ⦃t : CaseTable⦄ where
  -- the switch of validateCapturedEntry
  unfoldable pub validate_captured_as : ValueType → Entry → Result (Unit {0})
  validate_captured_as dword e = validate_registry_entry_target e
  validate_captured_as qword e = validate_registry_entry_target e
  validate_captured_as string e = validate_registry_entry_target e
  validate_captured_as expand_string e = validate_registry_entry_target e
  validate_captured_as start_mode e = do
    refuse
        (not (is_start_mode_op e.operation_type)
          || not (has_prefix e.target (codes "service:"))
          || is_empty (trim_space (trim_prefix e.target (codes "service:"))))
        inconsistent_snapshot
    refuse (names_registry e) inconsistent_snapshot
    parse_start_mode e.previous_value
    ok tt
  validate_captured_as scheme e = do
    refuse (not (is_scheme_op e.operation_type) || not (has_prefix e.target (codes "power:")))
        inconsistent_snapshot
    refuse (names_registry e) inconsistent_snapshot
    Power.resolve (trim_prefix e.target (codes "power:"))
    Power.resolve e.previous_value
    ok tt
  validate_captured_as hibernate e = do
    refuse (not (is_hibernate_op e.operation_type)) inconsistent_snapshot
    refuse (names_registry e) inconsistent_snapshot
    parse_bool e.previous_value
    ok tt
  validate_captured_as processor_state e = do
    refuse (not (is_processor_op e.operation_type)) inconsistent_snapshot
    refuse (names_registry e) inconsistent_snapshot
    parse_processor_state e.previous_value
    ok tt
  validate_captured_as no_type e = err unknown_snapshot_type
  validate_captured_as (other_type s) e = err unknown_snapshot_type

  unfoldable pub validate_captured_entry : Entry → Result (Unit {0})
  unfolding validate_captured_as
  validate_captured_entry e =
      if e.previous_value_exists then validate_captured_as e.previous_value_type e else do
        validate_registry_entry_target e
        refuse (not (is_empty e.previous_value) || not (is_no_type e.previous_value_type))
            inconsistent_snapshot
        ok tt
