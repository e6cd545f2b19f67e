-- ===== src/Engine/Executor.antt =====
-- internal/engine/executor.go: the executor over the Windows packages, with the checks of
-- internal/registry/registry.go and internal/engine/command_windows.go. Each call of Windows is a
-- parameter.
pub mod Registry
pub mod Settings
pub mod Logged
pub mod Guarded
use winforge.Prelude.{
  ℕ, suc, ◌≡◌, Bool, true, false, not, ◌&&◌, ◌||◌, Option, none, some, List, [], ◌∷◌, ◌++◌, ltb,
  if◌then◌else◌,
}
use winforge.Text.{Text, codes, text_eq, to_lower, CaseTable}
use winforge.Errors.{
  Err, Result, ok, err, ◌>>=◌, ◌>>◌, refuse, not_found, wrapped, joined, join, processor_percent,
  processor_order, not_allowlisted, netbios_value_range, unsupported_hive,
}
use winforge.Power.{resolve}
use winforge.Tweak.Executor.{Executor, Change}
use winforge.Engine.{
  Services, Guard, guarded, service_set_start_mode, service_get_start_mode, service_start,
  service_stop,
}

-- registry_windows.go, scheduler_windows.go, appx_windows.go, maintenance_windows.go, power_windows.go
-- and os/exec, behind the functions of their packages
pub record Windows (S : Type 0) : Type 0 where
  pub services : Services S
  pub dword : Text → Text → Text → S → Result ℕ
  pub str : Text → Text → Text → S → Result Text
  pub expand_string : Text → Text → Text → S → Result Text
  pub qword : Text → Text → Text → S → Result ℕ
  pub set_dword : Text → Text → Text → ℕ → Change S
  pub set_string : Text → Text → Text → Text → Change S
  pub set_expand_string : Text → Text → Text → Text → Change S
  pub set_qword : Text → Text → Text → ℕ → Change S
  pub delete_value : Text → Text → Text → Change S
  pub key_exists : Text → Text → S → Result Bool
  pub delete_key_tree : Text → Text → Change S
  pub enum_subkeys : Text → Text → S → Result (List Text)
  pub task_disable : Text → Change S
  pub task_enable : Text → Change S
  pub task_delete : Text → Change S
  pub remove_appx : Text → Change S
  pub remove_provisioned_appx : Text → Change S
  pub run : Text → List Text → Change S
  pub system_directory : Text
  pub power_active : S → Result Text
  pub power_set_active : Text → Change S
  pub hibernate_enabled : S → Result Bool
  pub set_hibernate : Bool → Change S
  pub processor_state : S → Result (ℕ × ℕ)
  pub set_processor_state : ℕ → ℕ → Change S

-- validateHive
unfoldable pub validate_hive : Text → Result (Unit {0})
validate_hive h =
    refuse
      (not (
        text_eq h (codes "HKLM")
        || (text_eq h (codes "HKCU") || (text_eq h (codes "HKCR") || text_eq h (codes "HKU")))))
      unsupported_hive

-- a read of the registry, with a missing value as a value
abbrev pub found {ℓ} : {A : Type ℓ} → Result A → Result (Option A)
found (ok a) = ok (some a)
found (err not_found) = ok none
found (err e) = err e

-- errors.Is(err, registry.ErrNotFound)
abbrev pub is_not_found : Err → Bool
is_not_found not_found = true
is_not_found (wrapped e) = is_not_found e
is_not_found (joined e d) = is_not_found e || is_not_found d
is_not_found _ = false

abbrev pub netbt_interfaces_path : Text
netbt_interfaces_path = codes "SYSTEM\\CurrentControlSet\\Services\\NetBT\\Parameters\\Interfaces"

abbrev pub interface_path : Text → Text
interface_path name = netbt_interfaces_path ++ (codes "\\" ++ name)

-- the executable of a command, for the names that have one in the system directory
abbrev pub in_directory : Text → Text → Text
in_directory dir file = dir ++ (codes "\\" ++ file)

abbrev is_named : Text → Text → Bool
is_named name tool = text_eq name tool || text_eq name (tool ++ codes ".exe")

abbrev pub system_tools : List Text
system_tools =
    codes "dism"
    ∷ codes "w32tm"
    ∷ codes "lodctr"
    ∷ codes "rundll32"
    ∷ codes "wevtutil"
    ∷ codes "fsutil"
    ∷ codes "setx"
    ∷ codes "bcdedit"
    ∷ codes "netsh"
    ∷ []

abbrev pub tool_path : Text → List Text → Text → Option Text
tool_path dir [] name = none
tool_path dir (tool ∷ tools) name =
    let rest = tool_path dir tools name in
    if is_named name tool then some (in_directory dir (tool ++ codes ".exe")) else rest

-- trustedCommand
unfoldable pub trusted_command : ⦃c : CaseTable⦄ → Text → Text → Option Text
trusted_command dir name =
    if is_named (to_lower name) (codes "winmgmt")
    then some (in_directory dir (codes "wbem\\winmgmt.exe"))
    else tool_path dir system_tools (to_lower name)

module _ {S : Type 0} (w : Windows S) where
  -- a change of the registry, after the check of its hive
  abbrev pub in_hive : Text → Change S → Change S
  in_hive hive change = guarded (validate_hive hive) (λ u. change)

  abbrev read_in {ℓ} : {A : Type ℓ} → Text → Result A → Result (Option A)
  read_in hive r = found (validate_hive hive >>= λ u. r)

  abbrev pub option_of : Text → Result ℕ → Result (List (Text × ℕ)) → Result (List (Text × ℕ))
  option_of name (ok v) rest = rest >>= λ more. ok ((name, v) ∷ more)
  option_of name (err e) rest =
      if is_not_found e then (rest >>= λ more. ok ((name, 0) ∷ more)) else err (wrapped e)

  unfoldable pub options_of : List Text → S → Result (List (Text × ℕ))
  options_of [] s = ok []
  options_of (name ∷ names) s =
      let rest = options_of names s in
      option_of name (w.dword (codes "HKLM") (interface_path name) (codes "NetbiosOptions") s) rest

  unfoldable pub netbios_get_options : S → Result (List (Text × ℕ))
  unfolding options_of
  netbios_get_options s =
      wrap (w.enum_subkeys (codes "HKLM") netbt_interfaces_path s) >>= λ names. options_of names s
    where
      wrap : Result (List Text) → Result (List Text)
      wrap (ok names) = ok names
      wrap (err e) = err (wrapped e)

  abbrev pub noted : Option Err → List Err → List Err
  noted none errs = errs
  noted (some e) errs = errs ++ (wrapped e ∷ [])

  -- the loop over the interfaces: every one is written, and the errors are joined
  unfoldable pub set_options : List Text → ℕ → List Err → Change S
  set_options [] value errs s = (join errs, s)
  set_options (name ∷ names) value errs s =
      let (e, s') =
        w.set_dword (codes "HKLM") (interface_path name) (codes "NetbiosOptions") value s in
      set_options names value (noted e errs) s'

  abbrev pub on_interfaces : Result (List Text) → ℕ → Change S
  on_interfaces (err e) value s = (some (wrapped e), s)
  on_interfaces (ok names) value s = set_options names value [] s

  unfoldable pub netbios_set_options : ℕ → Change S
  unfolding set_options
  netbios_set_options value s =
      if ltb 2 value
      then (some netbios_value_range, s)
      else on_interfaces (w.enum_subkeys (codes "HKLM") netbt_interfaces_path s) value s

  abbrev both_errors : Option Err → Option Err → Option Err
  both_errors none none = none
  both_errors (some a) none = some (wrapped (wrapped a))
  both_errors none (some b) = some (wrapped (wrapped b))
  both_errors (some a) (some b) = some (wrapped (joined (wrapped a) (wrapped b)))

  unfoldable pub appx_remove : Text → Change S
  appx_remove name s =
      let (a, s1) = w.remove_appx name s in
      let (b, s2) = w.remove_provisioned_appx name s1 in (both_errors a b, s2)

  abbrev pub run_as : Bool → Option Text → Text → List Text → Change S
  run_as true none cmdline args s = (some not_allowlisted, s)
  run_as false none cmdline args s = w.run cmdline args s
  run_as elevated (some path) cmdline args s = w.run path args s

  -- power.SetProcessorState
  unfoldable pub power_set_processor_state : ℕ → ℕ → Change S
  power_set_processor_state min_pct max_pct s =
      if ltb 100 min_pct || ltb 100 max_pct
      then (some processor_percent, s)
      else if ltb max_pct min_pct
      then (some processor_order, s)
      else w.set_processor_state min_pct max_pct s

  module _ ⦃c : CaseTable⦄ (g : Guard) (elevated : Bool) where
    unfoldable pub run_command : Text → List Text → Change S
    unfolding trusted_command
    run_command cmdline args s =
        run_as elevated (trusted_command w.system_directory cmdline) cmdline args s

    -- the methods of Executor
    unfoldable pub engine_executor : Executor S
    unfolding validate_hive netbios_get_options netbios_set_options appx_remove run_command
        power_set_processor_state resolve
    engine_executor = record {
      registry_get_dword = λ h p n s. read_in h (w.dword h p n s);
      registry_get_string = λ h p n s. read_in h (w.str h p n s);
      registry_get_expand_string = λ h p n s. read_in h (w.expand_string h p n s);
      registry_get_qword = λ h p n s. read_in h (w.qword h p n s);
      registry_set_dword = λ h p n v. in_hive h (w.set_dword h p n v);
      registry_set_string = λ h p n v. in_hive h (w.set_string h p n v);
      registry_set_expand_string = λ h p n v. in_hive h (w.set_expand_string h p n v);
      registry_set_qword = λ h p n v. in_hive h (w.set_qword h p n v);
      registry_delete_value = λ h p n. in_hive h (w.delete_value h p n);
      registry_key_exists = λ h p s. validate_hive h >>= λ u. w.key_exists h p s;
      registry_delete_key_tree = λ h p. in_hive h (w.delete_key_tree h p);
      service_set_start_mode = service_set_start_mode w.services g;
      service_get_start_mode = service_get_start_mode w.services g;
      service_start = service_start w.services g;
      service_stop = service_stop w.services g;
      task_disable = w.task_disable;
      task_enable = w.task_enable;
      task_delete = w.task_delete;
      appx_remove = appx_remove;
      run_command = run_command;
      power_get_active = w.power_active;
      power_set_active = λ scheme. guarded (resolve scheme) w.power_set_active;
      power_hibernate_enabled = w.hibernate_enabled;
      power_set_hibernate = w.set_hibernate;
      power_get_processor_state = w.processor_state;
      power_set_processor_state = power_set_processor_state;
      netbios_get_options = netbios_get_options;
      netbios_set_options = netbios_set_options;
    }
