-- ===== src/App/Operations.antt =====
-- internal/app/app.go: Apply and Undo by the id of a tweak.
use winforge.Prelude.{◌≡◌, refl, Bool, Option, none, some, List, ◌++◌, if◌then◌else◌}
use winforge.Text.{Text, codes, CaseTable}
use winforge.Errors.{Err, Result, ok, err, not_found}
use winforge.Config.{Tweak}
use winforge.Audit.Entry.{Logger, Entry}
use winforge.Tweak.Executor.{Executor}
use winforge.Tweak.Effect.{TweakResult}
use winforge.Tweak.Orchestrator.{World, apply}
use winforge.Tweak.Revert.{undo}
use winforge.App.{RestorePoints, AppState, record_entry, ensure_restore_point, find_tweak}

-- the log of the orchestrator, as a part of the world
module _ {S L : Type 0} where
  abbrev with_log : World S L → Option Err × L → Option Err × World S L
  with_log w (e, l) = (e, record w { log = l })

  abbrev pub logger_of : Logger L → Logger (World S L)
  logger_of logger = record {
    append = λ e w. with_log w (logger.append e w.log);
    read_all = λ w. logger.read_all w.log;
  }

  abbrev pub on_world : Option (Logger L) → Option (Logger (World S L))
  on_world none = none
  on_world (some logger) = some (logger_of logger)

  -- The log is no part of the system.
  pub record_entry-sys :
      (logger : Option (Logger L)) (e : Entry) (w : World S L)
      → (record_entry (on_world logger) e w).1.sys ≡ w.sys
  record_entry-sys none e w = refl
  record_entry-sys (some log) e w = refl

module _ {S L : Type 0} (logger : Option (Logger L)) (points : RestorePoints (World S L))
    (auto : Bool) where
  -- EnsureRestorePoint, over the log in the world
  abbrev pub ensured : Text → AppState (World S L) → AppState (World S L)
  ensured = ensure_restore_point (on_world logger) points auto

module _ ⦃c : CaseTable⦄ {S L : Type 0} (E : Executor S) (logger : Option (Logger L))
    (points : RestorePoints (World S L)) (auto : Bool) where
  abbrev pub over :
      AppState (World S L) → TweakResult × World S L → Result TweakResult × AppState (World S L)
  over a (res, w) = (ok res, record a { world = w })

  abbrev pub apply_found :
      Option Tweak → Text → Bool → AppState (World S L) → Result TweakResult × AppState (World S L)
  apply_found none id dry_run a = (err not_found, a)
  apply_found (some t) id dry_run a =
      let a' =
        if dry_run then a else ensured logger points auto (codes "WinForge: apply " ++ id) a in
      over a' (apply E logger t dry_run a'.world)

  unfoldable pub app_apply :
      List Tweak → Text → Bool → AppState (World S L) → Result TweakResult × AppState (World S L)
  unfolding find_tweak ensure_restore_point
  app_apply tweaks id dry_run a = apply_found (find_tweak id tweaks) id dry_run a

  abbrev pub undo_found :
      Option Tweak → Text → AppState (World S L) → Result TweakResult × AppState (World S L)
  undo_found none id a = (err not_found, a)
  undo_found (some t) id a =
      let a' =
        if t.reversible then ensured logger points auto (codes "WinForge: undo " ++ id) a else a in
      over a' (undo E logger t a'.world)

  unfoldable pub app_undo :
      List Tweak → Text → AppState (World S L) → Result TweakResult × AppState (World S L)
  unfolding find_tweak ensure_restore_point
  app_undo tweaks id a = undo_found (find_tweak id tweaks) id a
