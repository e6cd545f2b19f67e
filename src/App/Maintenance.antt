-- ===== src/App/Maintenance.antt =====
-- internal/app/app.go: RunMaintenance, and the scheduled task. The progress lines are left out.
use winforge.Prelude.{
  Bool, true, false, ◌&&◌, Option, none, some, List, [], ◌∷◌, ◌++◌, length, if◌then◌else◌,
}
use winforge.Text.{Text, codes, CaseTable}
use winforge.Decimal.{format_uint}
use winforge.Errors.{Err, Result, ok, err, winget_missing}
use winforge.Config.{Tweak}
use winforge.Audit.Entry.{Entry, Logger}
use winforge.AppManager.Report.{Outcome}
use winforge.Tweak.Executor.{Executor}
use winforge.Tweak.Orchestrator.{World}
use winforge.Tweak.UndoEntry.{is_nil}
use winforge.Tweak.Verify.{ensure_applied}
use winforge.App.{RestorePoints, AppState, app_entry, record_entry, ensure_restore_point}
use winforge.App.Operations.{on_world, ensured}

-- MaintenanceSummary, less the time
pub record MaintenanceSummary : Type 0 where
  pub tweaks_applied : List Text
  pub tweak_errors : List Err
  pub apps_upgraded : Bool
  pub apps_skipped : Bool
  pub app_error : Option Err
  pub audit_failed : Option Err

-- what the pass has of the update of the applications
pub record AppUpdates : Type 0 where
  pub upgraded : Bool
  pub skipped : Bool
  pub failed : Option Err

abbrev pub skipped_updates : AppUpdates
skipped_updates = record { upgraded = false; skipped = true; failed = none }

abbrev pub no_errors : List Err → Bool
no_errors [] = true
no_errors (e ∷ es) = false

-- strconv.FormatBool
abbrev format_bool : Bool → Text
format_bool true = codes "true"
format_bool false = codes "false"

-- `len(errs) == 0 && sum.AppError == ""`
abbrev pub pass_ok : List Err → AppUpdates → Bool
pass_ok errs updates = no_errors errs && is_nil updates.failed

abbrev pub maintenance_entry : List Text → List Err → AppUpdates → Entry
maintenance_entry applied errs updates =
    record (app_entry (codes "maintenance") (codes "system")
      (format_uint (length applied)
        ++ (codes " tweaks applied; appsUpgraded=" ++ format_bool updates.upgraded))
      none) { success = pass_ok errs updates }

module _ (is_error : Err → Err → Bool) where
  -- the switch over the error of UpgradeAll; `errors.Is` looks for a missing winget
  unfoldable pub updates_of : Outcome → AppUpdates
  updates_of r = elim r.error [
    | none ↦ record { upgraded = r.success; skipped = false; failed = none }
    | some e ↦
        if is_error e winget_missing
        then skipped_updates
        else record { upgraded = false; skipped = false; failed = some e }
  ]

  module _ {W : Type 0} (upgrade : Option (W → Outcome × W)) where
    abbrev pub upgraded_by : Outcome × W → AppUpdates × W
    upgraded_by (r, w) = (updates_of r, w)

    -- An elevated process, and one without a package manager, skips the applications.
    unfoldable pub update_apps : (elevated : Bool) → W → AppUpdates × W
    unfolding updates_of
    update_apps true w = (skipped_updates, w)
    update_apps false w = elim upgrade [
      | none ↦ (skipped_updates, w)
      | some upgrade_all ↦ upgraded_by (upgrade_all w)
    ]

  module _ ⦃c : CaseTable⦄ {S L : Type 0} (E : Executor S) (logger : Option (Logger L))
      (points : RestorePoints (World S L)) (auto : Bool)
      (upgrade : Option (World S L → Outcome × World S L)) where
    -- RunMaintenance
    unfoldable pub run_maintenance :
        (elevated : Bool)
        → List Tweak
        → AppState (World S L)
        → MaintenanceSummary × AppState (World S L)
    unfolding ensure_restore_point ensure_applied update_apps app_entry
    run_maintenance elevated tweaks a =
        let a1 = ensured logger points auto (codes "WinForge: run-maintenance") a in
        let ((applied, errs), w2) = ensure_applied E logger tweaks a1.world in
        let (updates, w3) = update_apps upgrade elevated w2 in
        let (audit_failed, w4) =
          record_entry (on_world logger) (maintenance_entry applied errs updates) w3 in
        (
          record {
            tweaks_applied = applied;
            tweak_errors = errs;
            apps_upgraded = updates.upgraded;
            apps_skipped = updates.skipped;
            app_error = updates.failed;
            audit_failed = audit_failed;
          },
          record a1 { world = w4 },
        )

-- the Task Scheduler, and the path of the executable
pub record Scheduler (W : Type 0) : Type 0 where
  pub executable : W → Result Text
  pub register : Text → Text → W → Option Err × W
  pub delete : Text → W → Option Err × W

abbrev pub maintenance_task_name : Text
maintenance_task_name = codes "WinForge Maintenance"

module _ {W : Type 0} (logger : Option (Logger W)) (points : RestorePoints W) (auto : Bool)
    (scheduler : Scheduler W) where
  abbrev pub in_state : AppState W → Option Err × W → Option Err × AppState W
  in_state a (e, w) = (e, record a { world = w })

  abbrev pub register_as : Result Text → AppState W → Option Err × AppState W
  register_as (err e) a = (some e, a)
  register_as (ok exe) a =
      let a1 = ensure_restore_point logger points auto (codes "WinForge: schedule maintenance") a in
      in_state a1 (scheduler.register maintenance_task_name exe a1.world)

  -- ScheduleMaintenance
  unfoldable pub schedule_maintenance : AppState W → Option Err × AppState W
  unfolding ensure_restore_point
  schedule_maintenance a = register_as (scheduler.executable a.world) a

  -- UnscheduleMaintenance
  unfoldable pub unschedule_maintenance : AppState W → Option Err × AppState W
  unfolding ensure_restore_point
  unschedule_maintenance a =
      let a1 =
        ensure_restore_point logger points auto (codes "WinForge: unschedule maintenance") a in
      in_state a1 (scheduler.delete maintenance_task_name a1.world)
