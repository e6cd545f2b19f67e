-- ===== src/Engine/Tests.antt =====
-- The guard at a concrete service, and the executor at a concrete tweak.
use winforge.Prelude.{ℕ, ◌+◌, ◌≡◌, refl, Bool, true, false, none, some, [], ◌∷◌}
use winforge.Text.{Text, codes, text_eq, to_lower}
use winforge.Errors.{ok, err, not_found}
use winforge.Service.{StartMode, start_manual}
use winforge.Engine.{Services, new_executor, service_set_start_mode, service_start, service_stop}
use winforge.Engine.Protected.{Refused, is_protected, protected-Refused}
use winforge.Engine.Executor.{Windows, engine_executor}
use winforge.Engine.Executor.Logged.{Spared, logged, untouched}
use winforge.Engine.Executor.Guarded.{apply-undo-Spared}
use winforge.Tweak.Orchestrator.{apply}
use winforge.Tweak.Revert.{undo}
use winforge.Tweak.UndoEntry.{undo_entry}
use winforge.App.{app_entry}
use winforge.Audit.Entry.{Entry, start_mode}
use winforge.Config.{service_start_mode}
use winforge.Tweak.Sample.{ascii, tweak, list_log}

-- services that count the changes made to them
abbrev counter : Services ℕ
counter = record {
  get_start_mode = λ name s. ok start_manual;
  set_start_mode = λ name mode s. (none, s + 1);
  start = λ name s. (none, s + 1);
  stop = λ name s. (none, s + 1);
}

defender_protected : is_protected (codes "WinDefend" ∷ []) (codes "windefend") ≡ true
unfolding text_eq to_lower
defender_protected = refl

protected-Refused_example :
    let g = new_executor (codes "WinDefend" ∷ []) in
    Refused 4 (service_start counter g (codes "windefend") 4)
    × Refused 4 (service_stop counter g (codes "windefend") 4)
    × Refused 4 (service_set_start_mode counter g (codes "windefend") (codes "manual") 4)
protected-Refused_example =
    protected-Refused counter (codes "WinDefend" ∷ []) (codes "windefend") (codes "manual") 4
      defender_protected

-- a Windows that counts every change
abbrev counting : Windows ℕ
counting = record {
  services = counter;
  dword = λ h p n s. ok 0;
  str = λ h p n s. ok [];
  expand_string = λ h p n s. ok [];
  qword = λ h p n s. ok 0;
  set_dword = λ h p n v s. (none, s + 1);
  set_string = λ h p n v s. (none, s + 1);
  set_expand_string = λ h p n v s. (none, s + 1);
  set_qword = λ h p n v s. (none, s + 1);
  delete_value = λ h p n s. (none, s + 1);
  key_exists = λ h p s. ok true;
  delete_key_tree = λ h p s. (none, s + 1);
  enum_subkeys = λ h p s. ok [];
  task_disable = λ p s. (none, s + 1);
  task_enable = λ p s. (none, s + 1);
  task_delete = λ p s. (none, s + 1);
  remove_appx = λ n s. (none, s + 1);
  remove_provisioned_appx = λ n s. (none, s + 1);
  run = λ c args s. (none, s + 1);
  system_directory = codes "C:\\Windows\\System32";
  power_active = λ s. ok [];
  power_set_active = λ g s. (none, s + 1);
  hibernate_enabled = λ s. ok true;
  set_hibernate = λ b s. (none, s + 1);
  processor_state = λ s. ok (5, 100);
  set_processor_state = λ a b s. (none, s + 1);
}

-- what is logged of a change of the start mode of a protected service
abbrev defender_entry : Entry
defender_entry = record (app_entry [] (codes "service:WinDefend") (codes "disabled") none) {
  operation_type = service_start_mode;
  previous_value = codes "automatic";
  previous_value_captured = true;
  previous_value_exists = true;
  previous_value_type = start_mode;
  can_undo = true;
}

apply-undo-Spared_example :
    let names = codes "WinDefend" ∷ [] in
    let E = engine_executor (logged counting) (new_executor names) true in
    Spared names (apply E (some list_log) tweak false (untouched 0 [])).1.sys
    × Spared names (undo E (some list_log) tweak (untouched 0 [])).1.sys
    × Spared names (undo_entry E (some list_log) defender_entry (untouched 0 [])).1.sys
apply-undo-Spared_example =
    apply-undo-Spared (codes "WinDefend" ∷ []) counting true (some list_log) tweak defender_entry
      false 0 []

-- a Windows with one service, one key and one interface, which keeps what is set
record Kept : Type 0 where
  mode : StartMode
  has_key : Bool
  active : Text
  hibernate : Bool
  bounds : ℕ × ℕ
  option : ℕ

abbrev keeping : Windows Kept
keeping = record {
  services = record {
    get_start_mode = λ name s. ok s.mode;
    set_start_mode = λ name m s. (none, record s { mode = m });
    start = λ name s. (none, s);
    stop = λ name s. (none, s);
  };
  dword = λ h p n s. ok s.option;
  str = λ h p n s. err not_found;
  expand_string = λ h p n s. err not_found;
  qword = λ h p n s. err not_found;
  set_dword = λ h p n v s. (none, record s { option = v });
  set_string = λ h p n v s. (none, s);
  set_expand_string = λ h p n v s. (none, s);
  set_qword = λ h p n v s. (none, s);
  delete_value = λ h p n s. (none, s);
  key_exists = λ h p s. ok s.has_key;
  delete_key_tree = λ h p s. (none, record s { has_key = false });
  enum_subkeys = λ h p s. ok (codes "if1" ∷ []);
  task_disable = λ p s. (none, s);
  task_enable = λ p s. (none, s);
  task_delete = λ p s. (none, s);
  remove_appx = λ n s. (none, s);
  remove_provisioned_appx = λ n s. (none, s);
  run = λ c args s. (none, s);
  system_directory = codes "C:\\Windows\\System32";
  power_active = λ s. ok s.active;
  power_set_active = λ g s. (none, record s { active = g });
  hibernate_enabled = λ s. ok s.hibernate;
  set_hibernate = λ b s. (none, record s { hibernate = b });
  processor_state = λ s. ok s.bounds;
  set_processor_state = λ a b s. (none, record s { bounds = (a, b) });
}
