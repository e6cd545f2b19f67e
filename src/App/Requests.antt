-- ===== src/App/Requests.antt =====
-- internal/app/app.go: the calls of App that change the system, in any sequence. mutationMu makes each
-- of them one step.
pub mod Throttled
pub mod Points
mod Tests
use winforge.Prelude.{ℕ, Bool, true, false, Option, List, [], ◌∷◌}
use winforge.Text.{Text, CaseTable}
use winforge.Errors.{Err}
use winforge.Config.{Tweak}
use winforge.Audit.Entry.{Logger}
use winforge.AppManager.Report.{Outcome}
use winforge.Tweak.Executor.{Executor}
use winforge.Tweak.Orchestrator.{World}
use winforge.App.{RestorePoints, AppState}
use winforge.App.Operations.{on_world, app_apply, app_undo}
use winforge.App.History.{app_undo_entry}
use winforge.App.Packages.{install_package}
use winforge.App.Maintenance.{
  Scheduler, run_maintenance, schedule_maintenance, unschedule_maintenance,
}

-- the fields of App that do not change, and what it calls
pub record Application (S L : Type 0) : Type 0 where
  pub executor : Executor S
  pub logger : Option (Logger L)
  pub tweaks : List Tweak
  pub elevated : Bool
  pub auto_restore_point : Bool
  pub points : RestorePoints (World S L)
  pub upgrade : Option (World S L → Outcome × World S L)
  pub installer : Option (Text → World S L → (Option Outcome × Option Err) × World S L)
  pub scheduler : Scheduler (World S L)
  pub is_error : Err → Err → Bool

-- CreateRestorePoint is left out: it is the call that asks for a restore point in any case.
pub data Request : Type 0 where
  apply_request : Text → Bool → Request
  undo_request undo_entry_request install_request : Text → Request
  maintenance_request schedule_request unschedule_request : Request

module _ ⦃c : CaseTable⦄ {S L : Type 0} (app : Application S L) where
  unfoldable pub respond : Request → AppState (World S L) → AppState (World S L)
  unfolding app_apply app_undo app_undo_entry install_package run_maintenance schedule_maintenance
      unschedule_maintenance
  respond (apply_request id dry_run) a =
      (app_apply app.executor app.logger app.points app.auto_restore_point app.tweaks id dry_run
        a).1
  respond (undo_request id) a =
      (app_undo app.executor app.logger app.points app.auto_restore_point app.tweaks id a).1
  respond (undo_entry_request id) a =
      (app_undo_entry app.executor app.logger app.points app.auto_restore_point app.elevated id a).1
  respond (install_request id) a =
      (install_package app.is_error (on_world app.logger) app.points app.auto_restore_point
        app.installer app.elevated id a).1
  respond maintenance_request a =
      (run_maintenance app.is_error app.executor app.logger app.points app.auto_restore_point
        app.upgrade app.elevated app.tweaks a).1
  respond schedule_request a =
      (schedule_maintenance (on_world app.logger) app.points app.auto_restore_point app.scheduler
        a).1
  respond unschedule_request a =
      (unschedule_maintenance (on_world app.logger) app.points app.auto_restore_point app.scheduler
        a).1

  unfoldable pub respond_all : List Request → AppState (World S L) → AppState (World S L)
  unfolding respond
  respond_all [] a = a
  respond_all (r ∷ requests) a = respond_all requests (respond r a)
