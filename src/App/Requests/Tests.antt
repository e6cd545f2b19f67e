-- ===== src/App/Requests/Tests.antt =====
-- App over a system with a clock, in which every change takes half an hour.
use winforge.Prelude.{
  ℕ, ◌+◌, ◌≡◌, ◌≢◌, refl, true, false, none, some, List, [], ◌∷◌, In, inl, inr, length,
}
use winforge.Text.{Text, codes, text_eq, trim_space, has_prefix, contains_any, is_control}
use winforge.AppManager.{validate_package_id, segment_rune}
use winforge.Tweak.Apply.{apply_op, run_unary, exec_unary, set_value}
use winforge.Tweak.Snapshot.{registry_snapshot}
use winforge.Config.{low, medium, high}
use winforge.Config.Values.{dword_value}
use winforge.Errors.{ok}
use winforge.Audit.Entry.{Entry}
use winforge.Tweak.Executor.{Executor, Change}
use winforge.Tweak.Orchestrator.{World, apply, apply_one}
use winforge.Tweak.Sample.{ascii, list_log, tweak, memory, fresh}
use winforge.App.{RestorePoints, AppState, app_entry}
use winforge.App.History.{undone_ids, history, app_undo_entry}
use winforge.App.History.Refused.{history-app_undo_entry}
use winforge.Tweak.Verify.{is_applied, can_verify}
use winforge.Tweak.Health.Score.{counted}
use winforge.App.Health.{app_health}
use winforge.App.Health.Counted.{count_if, is_unapplied, app_health-counted}
use winforge.App.Requests.{
  Application, Request, apply_request, install_request, maintenance_request, schedule_request,
  unschedule_request, respond_all,
}

record Timed : Type 0 where
  clock : ℕ
  made : List ℕ

abbrev later : Timed → Timed
later s = record s { clock = s.clock + 1800 }

abbrev tick : Change Timed
tick s = (none, later s)

abbrev ticking : Executor Timed
ticking = record {
  registry_get_dword = λ h p n s. ok none;
  registry_get_string = λ h p n s. ok none;
  registry_get_expand_string = λ h p n s. ok none;
  registry_get_qword = λ h p n s. ok none;
  registry_set_dword = λ h p n v. tick;
  registry_set_string = λ h p n v. tick;
  registry_set_expand_string = λ h p n v. tick;
  registry_set_qword = λ h p n v. tick;
  registry_delete_value = λ h p n. tick;
  registry_key_exists = λ h p s. ok true;
  registry_delete_key_tree = λ h p. tick;
  service_set_start_mode = λ n m. tick;
  service_get_start_mode = λ n s. ok (codes "manual");
  service_start = λ n. tick;
  service_stop = λ n. tick;
  task_disable = λ p. tick;
  task_enable = λ p. tick;
  task_delete = λ p. tick;
  appx_remove = λ n. tick;
  run_command = λ c args. tick;
  power_get_active = λ s. ok [];
  power_set_active = λ g. tick;
  power_hibernate_enabled = λ s. ok true;
  power_set_hibernate = λ b. tick;
  power_get_processor_state = λ s. ok (5, 100);
  power_set_processor_state = λ lo hi. tick;
  netbios_get_options = λ s. ok [];
  netbios_set_options = λ v. tick;
}

abbrev TimedWorld : Type 0
TimedWorld = World Timed (List Entry)

abbrev change_world : (Timed → Timed) → TimedWorld → TimedWorld
change_world f w = record w { sys = f w.sys }

abbrev timed_points : RestorePoints TimedWorld
timed_points = record {
  enabled = λ w. true;
  now = λ w. w.sys.clock;
  creator = λ d w. (
    (record { sequence_number = length w.sys.made; description = d; created_at = none }, none),
    change_world (λ s. record s { made = s.clock ∷ s.made }) w,
  );
}

abbrev timed_app : Application Timed (List Entry)
timed_app = record {
  executor = ticking;
  logger = some list_log;
  tweaks = tweak ∷ [];
  elevated = false;
  auto_restore_point = true;
  points = timed_points;
  upgrade = some (λ w. (record { success = true; lines = []; error = none }, change_world later w));
  installer = some (λ id w.
      ((some (record { success = true; lines = []; error = none }), none), change_world later w));
  scheduler = record {
    executable = λ w. ok (codes "C:\\winforge.exe");
    register = λ name exe w. (none, change_world later w);
    delete = λ name w. (none, change_world later w);
  };
  is_error = λ e target. false;
}

abbrev at_start : AppState TimedWorld
at_start = record {
  world = record { sys = record { clock = 7200; made = [] }; log = [] };
  last_restore_point = none;
}

abbrev day : List Request
day =
    schedule_request
    ∷ apply_request (codes "t1") false
    ∷ install_request (codes "Git.Git")
    ∷ maintenance_request
    ∷ unschedule_request
    ∷ []

-- the log of two entries of which the second undid the first, which is also shown as such
abbrev set_entry : Entry
set_entry = record (app_entry (codes "set") (codes "HKLM") [] none) {
  id = codes "a";
  can_undo = true;
}

abbrev undone_state : AppState TimedWorld
undone_state = record at_start {
  world = record {
    sys = record { clock = 7200; made = [] };
    log =
        set_entry ∷ record set_entry { id = codes "b"; undo_of = codes "a"; can_undo = false } ∷ [];
  };
}

abbrev set_row : Entry
set_row = record set_entry { can_undo = false }

set_row-In : In set_row (history (some list_log) undone_state.world.log).0
unfolding history text_eq undone_ids app_entry
set_row-In = inr (inl refl)

history-app_undo_entry_example :
    ((app_undo_entry ticking (some list_log) timed_points true false (codes "a") undone_state).0
      ≢ none)
    × ((app_undo_entry ticking (some list_log) timed_points true false (codes "a") undone_state).1
        ≡ undone_state)
history-app_undo_entry_example =
    history-app_undo_entry ticking timed_points true (some list_log) false set_row undone_state
      set_row-In refl

app_health-counted_example :
    let a = app_health memory (tweak ∷ []) 2 fresh in
    (a.health.applied_tweaks ≡ count_if (λ t. is_applied memory t fresh) (tweak ∷ []))
    × (a.health.unapplied_low ≡ count_if (is_unapplied memory fresh low) (tweak ∷ []))
    × (a.health.unapplied_medium ≡ count_if (is_unapplied memory fresh medium) (tweak ∷ []))
    × (a.health.unapplied_high ≡ count_if (is_unapplied memory fresh high) (tweak ∷ []))
    × (counted a.health + a.unverifiable_tweaks ≡ 1)
app_health-counted_example = app_health-counted memory fresh (tweak ∷ []) 2 (refl, tt) (tt, tt)

-- the scheduling, the installation and the last call make one
day_made : (respond_all timed_app day at_start).world.sys.made ≡ 16200 ∷ 12600 ∷ 7200 ∷ []
unfolding respond_all validate_package_id text_eq trim_space has_prefix contains_any segment_rune
    is_control apply apply_one apply_op run_unary exec_unary dword_value set_value registry_snapshot
    can_verify
day_made = refl
