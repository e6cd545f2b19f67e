-- ===== src/App/Requests/Throttled.antt =====
-- How often the calls of App create a restore point of their own.
use winforge.Prelude.{ℕ, ◌≡◌, Bool, Option, some, List}
use winforge.Text.{Text, CaseTable}
use winforge.Errors.{Err}
use winforge.Config.{Tweak}
use winforge.Audit.Entry.{Entry}
use winforge.AppManager.Report.{Outcome}
use winforge.Tweak.Orchestrator.{World}
use winforge.Tweak.Preserved.{Keeps}
use winforge.App.Requests.{Application}
use winforge.App.Requests.Points.{MakesPoints}

module _ {S : Type 0} (made : S → List ℕ) {L : Type 0} where
  -- what is relied on of Windows: only restorepoint.Create makes restore points
  pub record MakesOnly (app : Application S L) : Type 0 where
    pub makes : MakesPoints made app.points
    pub keeps : (ts : List ℕ) → Keeps (λ s. made s ≡ ts) app.executor
    pub upgrades :
        (f : World S L → Outcome × World S L) (w : World S L)
        → app.upgrade ≡ some f
        → made (f w).1.sys ≡ made w.sys
    pub installs :
        (f : Text → World S L → (Option Outcome × Option Err) × World S L) (id : Text)
        (w : World S L)
        → app.installer ≡ some f
        → made (f id w).1.sys ≡ made w.sys
    pub registers :
        (name exe : Text) (w : World S L)
        → made (app.scheduler.register name exe w).1.sys ≡ made w.sys
    pub deletes :
        (name : Text) (w : World S L) → made (app.scheduler.delete name w).1.sys ≡ made w.sys

  module _ ⦃c : CaseTable⦄ (app : Application S L) (only : MakesOnly app) where
    abbrev auto : Bool
    auto = app.auto_restore_point
