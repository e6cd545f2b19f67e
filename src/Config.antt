-- ===== src/Config.antt =====
-- internal/config/models.go: the configuration's data types.
pub mod Json
pub mod Values
pub mod Validate
pub mod Catalogue
pub mod Lists
use winforge.Prelude.{Bool, List}
use winforge.Text.{Text}
use Json.{RawMessage}

-- The operation type constants. `other_op` is any string that is none of them.
pub data OpType : Type 0 where
  registry_set_dword registry_set_string registry_set_qword : OpType
  registry_delete registry_delete_key : OpType
  service_start_mode service_start service_stop : OpType
  task_disable task_enable task_delete : OpType
  appx_remove command : OpType
  power_scheme power_hibernate power_processor_state netbios : OpType
  other_op : Text → OpType

pub record Operation : Type 0 where
  pub op_type : OpType
  pub hive : Text
  pub path : Text
  pub name : Text
  pub value : RawMessage
  pub args : List Text

-- `other_risk` is any string but "low", "medium" and "high".
pub data Risk : Type 0 where
  low medium high : Risk
  other_risk : Text → Risk

pub record Tweak : Type 0 where
  pub id : Text
  pub name : Text
  pub category : Text
  pub description : Text
  pub risk : Risk
  pub reversible : Bool
  pub operations : List Operation
  pub revert : List Operation
