-- ===== src/Tweak/Executor.antt =====
-- internal/tweak/executor.go: the interface through which the orchestrator reads and changes the
-- system, whose state is `S`. A call that reads leaves the state alone; one that changes it returns
-- its error, nil for none, and the state that it leaves, also where it fails.
-- `(value, exists, err)` is a result of an option.
use winforge.Prelude.{ℕ, Bool, Option, List}
use winforge.Text.{Text}
use winforge.Errors.{Err, Result}

abbrev pub Change : Type 0 → Type 0
Change S = S → Option Err × S

pub record Executor (S : Type 0) : Type 0 where
  pub registry_get_dword : Text → Text → Text → S → Result (Option ℕ)
  pub registry_get_string : Text → Text → Text → S → Result (Option Text)
  pub registry_get_expand_string : Text → Text → Text → S → Result (Option Text)
  pub registry_get_qword : Text → Text → Text → S → Result (Option ℕ)
  pub registry_set_dword : Text → Text → Text → ℕ → Change S
  pub registry_set_string : Text → Text → Text → Text → Change S
  pub registry_set_expand_string : Text → Text → Text → Text → Change S
  pub registry_set_qword : Text → Text → Text → ℕ → Change S
  pub registry_delete_value : Text → Text → Text → Change S
  pub registry_key_exists : Text → Text → S → Result Bool
  pub registry_delete_key_tree : Text → Text → Change S
  pub service_set_start_mode : Text → Text → Change S
  pub service_get_start_mode : Text → S → Result Text
  pub service_start : Text → Change S
  pub service_stop : Text → Change S
  pub task_disable : Text → Change S
  pub task_enable : Text → Change S
  pub task_delete : Text → Change S
  pub appx_remove : Text → Change S
  pub run_command : Text → List Text → Change S
  pub power_get_active : S → Result Text
  pub power_set_active : Text → Change S
  pub power_hibernate_enabled : S → Result Bool
  pub power_set_hibernate : Bool → Change S
  pub power_get_processor_state : S → Result (ℕ × ℕ)
  pub power_set_processor_state : ℕ → ℕ → Change S
  -- the value of every NetBT interface, by the interface's name
  pub netbios_get_options : S → Result (List (Text × ℕ))
  pub netbios_set_options : ℕ → Change S
