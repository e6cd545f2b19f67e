-- ===== src/Audit/Entry.antt =====
-- internal/audit/audit.go: the entries of the operation log, and the logger as its clients see it.
use winforge.Prelude.{ℕ, Bool, Option, List}
use winforge.Text.{Text}
use winforge.Errors.{Err}
use winforge.Config.{OpType}

-- The strings that PreviousValueType takes. `no_type` is "", `other_type` any other string.
pub data ValueType : Type 0 where
  no_type dword qword string expand_string : ValueType
  start_mode scheme hibernate processor_state : ValueType
  other_type : Text → ValueType

-- A zero time is `none`, and an empty error message is no error. The type "undo" of an undo record
-- is an `other_op`.
pub record Entry : Type 0 where
  pub id : Text
  pub timestamp : Option ℕ
  pub operation_type : OpType
  pub target : Text
  pub previous_value : Text
  pub previous_value_captured : Bool
  pub previous_value_exists : Bool
  pub previous_value_type : ValueType
  pub new_value : Text
  pub success : Bool
  pub error_message : Option Err
  pub can_undo : Bool
  pub undo_of : Text
  pub tweak_id : Text
  pub registry_hive : Text
  pub registry_path : Text
  pub registry_name : Text

-- Append and ReadAll of a logger with state `L`. A failing ReadAll still returns entries.
pub record Logger (L : Type 0) : Type 0 where
  pub append : Entry → L → Option Err × L
  pub read_all : L → List Entry × Option Err
