-- ===== src/Errors.antt =====
-- Go's `error` values and functions that return one. Each place that makes an error has a
-- constructor; the message text is left out. `os n` is an error that the operating system or a
-- library returns.
use winforge.Prelude.{ℕ, Bool, Option, none, some, List, [], ◌∷◌}
use winforge.Text.{Text}

pub data Err : Type 0 where
  not_found unsupported : Err
  os : ℕ → Err
  -- fmt.Errorf("…: %w", err) and errors.Join
  wrapped : Err → Err
  joined : Err → Err → Err
  -- config: decoding and validation of operation values
  bad_json negative_value dword_range netbios_range : Err
  processor_empty processor_range processor_order : Err
  invalid_hive : Text → Err
  path_required name_required name_not_allowed path_too_shallow : Err
  too_long too_many : ℕ → ℕ → Err
  command_required shell_syntax command_has_args unsafe_arg : Err
  unknown_operation : Text → Err
  invalid_guid no_scheme_guid scheme_not_installed : Err
  empty_id duplicate_id no_operations no_revert invalid_risk : Err
  -- service and power
  unknown_start_mode invalid_start_mode unknown_power_scheme : Err
  processor_snapshot_syntax processor_snapshot_range : Err
  -- orchestrator
  unhandled_unary cannot_undo already_undone undo_not_recorded : Err
  inconsistent_snapshot no_restorable_target unknown_snapshot_type : Err
  bad_snapshot_value legacy_empty_string legacy_not_undoable : Err
  not_reversible no_revert_operations failures : Err
  -- engine
  service_name_required service_name_padded service_name_long : Err
  service_name_separator service_name_control service_protected : Err
  not_allowlisted netbios_value_range unsupported_hive processor_percent : Err
  -- service control
  service_timeout service_state service_unsettled : Err
  service_stopped_early : Err
  service_specific_error service_win32_error : ℕ → Err
  -- appmanager
  invalid_package_id invalid_search_query winget_missing report_limit : Err
  -- maintenance and the lists of the configuration
  feature_name_invalid adapter_required adapter_invalid dns_not_address dns_not_ipv4
        dns_not_unicast :
      Err
  incomplete_packages no_success_marker : Err
  profile_required name_padded duplicate_name : Err
  -- plugins
  too_many_plugins too_many_plugin_tweaks not_regular file_changed file_too_large : Err
  plugin_type_unknown plugin_file_is_path : Err
  -- app
  disabled_while_elevated packages_unavailable no_install_result install_unsuccessful : Err
  history_unavailable ambiguous_id : Err
  -- updater
  empty_tag version_too_long url_too_long url_scheme too_many_bytes no_releases nil_release : Err
  tag_too_long release_name_too_long body_too_long asset_name_too_long asset_url_too_long : Err
  http_status : ℕ → Err
  -- audit
  entry_too_large segment_limit read_limits entry_limit byte_limit file_limit : Err

pub data Result {ℓ} (A : Type ℓ) : Type ℓ where
  ok : A → Result A
  err : Err → Result A

-- `if err != nil { return err }` between two calls
module _ {ℓ κ} {A : Type ℓ} {B : Type κ} where
  infixl 5 ◌>>=◌ ◌>>◌
  abbrev pub ◌>>=◌ : Result A → (A → Result B) → Result B
  err cause >>= next = err cause
  ok value >>= next = next value

  abbrev pub ◌>>◌ : Result A → Result B → Result B
  first >> second = first >>= λ value. second

-- `if cond { return err }`
abbrev pub refuse : Bool → Err → Result (Unit {0})
refuse Bool.true e = err e
refuse Bool.false e = ok tt

-- the error of a result, nil if there is none
abbrev pub error_of {ℓ} : {A : Type ℓ} → Result A → Option Err
error_of (ok a) = none
error_of (err e) = some e

-- errors.Join(errs...)
abbrev pub join_from : Err → List Err → Err
join_from e [] = e
join_from e (d ∷ es) = joined e (join_from d es)

abbrev pub join : List Err → Option Err
join [] = none
join (e ∷ es) = some (join_from e es)
