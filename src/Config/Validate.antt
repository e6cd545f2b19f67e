-- ===== src/Config/Validate.antt =====
-- internal/config/models.go and limits.go: the checks of one operation.
pub mod Accepted
use winforge.Prelude.{
  ℕ, suc, ◌≡◌, Bool, true, false, not, ◌&&◌, ◌||◌, Option, none, some, List, [], ◌∷◌, ◌++◌, length,
  ltb, ◌==◌, if◌then◌else◌,
}
use winforge.Text.{Text, codes, text_eq, trim_space, is_empty, contains_any, CaseTable}
use winforge.Errors.{
  Err, Result, ok, err, ◌>>=◌, ◌>>◌, refuse, too_long, too_many, invalid_hive, path_required,
  name_required, name_not_allowed, path_too_shallow, command_required, shell_syntax,
  command_has_args, unsafe_arg, unknown_operation,
}
use winforge.Config.{
  OpType, Operation, registry_set_dword, registry_set_string, registry_set_qword, registry_delete,
  registry_delete_key, service_start_mode, service_start, service_stop, task_disable, task_enable,
  task_delete, appx_remove, command, power_scheme, power_hibernate, power_processor_state, netbios,
  other_op,
}
use winforge.Config.Values.{
  dword_value, string_value, qword_value, bool_value, processor_state_value, netbios_value,
}
use winforge.Service.{parse_start_mode}
use winforge.Power.{resolve}

-- checkLen; a text is its code points, which are what RuneCountInString counts
unfoldable pub check_len : Text → ℕ → Result (Unit {0})
check_len value max = refuse (ltb max (length value)) (too_long max (length value))

unfoldable pub check_count : ℕ → ℕ → Result (Unit {0})
check_count n max = refuse (ltb max n) (too_many max n)

unfoldable pub check_args : List Text → Result (Unit {0})
unfolding check_len
check_args [] = ok tt
check_args (arg ∷ args) = check_len arg 1024 >> check_args args

unfoldable pub check_operation_limits : Operation → Result (Unit {0})
unfolding check_len check_count check_args
check_operation_limits o = do
  refuse (ltb 65536 o.value.size) (too_long 65536 o.value.size)
  check_len o.path 512
  check_count (length o.args) 64
  check_args o.args

abbrev pub is_root : Text → Bool
is_root h =
    text_eq h (codes "HKLM")
    || text_eq h (codes "HKCU")
    || text_eq h (codes "HKCR")
    || text_eq h (codes "HKU")

unfoldable pub require_registry_target : Operation → Result (Unit {0})
unfolding check_len
require_registry_target o = do
  refuse (not (is_root o.hive)) (invalid_hive o.hive)
  refuse (is_empty (trim_space o.path)) path_required
  check_len o.name 16383

-- strings.Trim(s, "\\") at both ends
abbrev trim_start : Text → Text
trim_start [] = []
trim_start (c ∷ s) = if c == b'\\' then trim_start s else c ∷ s

abbrev keep_slash : ℕ → Text → Text
keep_slash c [] = if c == b'\\' then [] else c ∷ []
keep_slash c (d ∷ s) = c ∷ d ∷ s

abbrev trim_end : Text → Text
trim_end [] = []
trim_end (c ∷ s) = keep_slash c (trim_end s)

-- len(strings.Split(s, "\\"))
abbrev pub components : Text → ℕ
components [] = 1
components (c ∷ s) = if c == b'\\' then suc (components s) else components s

abbrev pub depth : Text → ℕ
depth path = components (trim_end (trim_start path))

unfoldable pub check_key_path : Operation → Result (Unit {0})
check_key_path o = do
  refuse (not (is_empty o.name)) name_not_allowed
  refuse (ltb (depth o.path) 2) path_too_shallow
  ok tt

unfoldable pub check_safe_args : List Text → Result (Unit {0})
check_safe_args [] = ok tt
check_safe_args (arg ∷ args) =
    refuse (contains_any arg (0 ∷ codes "\"")) unsafe_arg >> check_safe_args args

unfoldable pub check_command : Text → List Text → Result (Unit {0})
unfolding check_len check_safe_args
check_command cmd args = do
  refuse (is_empty cmd) command_required
  check_len cmd 512
  refuse (contains_any cmd (0 ∷ codes "<>|&")) shell_syntax
  refuse (contains_any cmd (codes " \t\r\n") && not (contains_any cmd (codes "/\\")))
      command_has_args
  check_safe_args args

unfoldable pub check_name : Text → ℕ → Result (Unit {0})
unfolding check_len
check_name name max = do refuse (is_empty (trim_space name)) name_required; check_len name max

unfoldable pub check_task : Text → Result (Unit {0})
unfolding check_len
check_task path = do refuse (is_empty (trim_space path)) path_required; check_len path 512

module _ ⦃c : CaseTable⦄ where
  -- the switch of validateOperation
  unfoldable pub validate_as : OpType → Operation → Result (Unit {0})
  unfolding require_registry_target check_key_path check_name check_task check_command
  validate_as registry_set_dword o = require_registry_target o >> (dword_value o >> ok tt)
  validate_as registry_set_qword o = require_registry_target o >> (qword_value o >> ok tt)
  validate_as registry_set_string o =
      require_registry_target o >> (string_value o >>= λ value. check_len value 16384)
  validate_as registry_delete o = require_registry_target o
  validate_as registry_delete_key o = require_registry_target o >> check_key_path o
  validate_as service_start_mode o =
      check_name o.name 256 >> (string_value o >>= λ mode. parse_start_mode mode >> ok tt)
  validate_as service_start o = check_name o.name 256
  validate_as service_stop o = check_name o.name 256
  validate_as task_disable o = check_task o.path
  validate_as task_enable o = check_task o.path
  validate_as task_delete o = check_task o.path
  validate_as appx_remove o = check_name o.name 256
  validate_as power_scheme o = string_value o >>= λ value. resolve value >> ok tt
  validate_as power_hibernate o = bool_value o >> ok tt
  validate_as power_processor_state o = processor_state_value o >> ok tt
  validate_as netbios o = netbios_value o >> ok tt
  validate_as command o = string_value o >>= λ cmd. check_command cmd o.args
  validate_as (other_op name) o = err (unknown_operation name)

  unfoldable pub validate_operation : Operation → Result (Unit {0})
  unfolding check_operation_limits validate_as
  validate_operation o = check_operation_limits o >> validate_as o.op_type o
