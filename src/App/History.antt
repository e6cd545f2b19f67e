-- ===== src/App/History.antt =====
-- internal/app/app.go: History, and UndoEntry by the id of an entry.
pub mod Refused
use winforge.Prelude.{
  Bool, true, false, not, ◌&&◌, Option, none, some, List, [], ◌∷◌, ◌++◌, map, any, reversed,
  if◌then◌else◌,
}
use winforge.Text.{Text, codes, text_eq, is_empty, CaseTable}
use winforge.Errors.{
  Err, Result, ok, err, ◌>>=◌, disabled_while_elevated, history_unavailable, already_undone,
  ambiguous_id, not_found,
}
use winforge.Audit.Entry.{Entry, Logger}
use winforge.Tweak.Executor.{Executor}
use winforge.Tweak.Orchestrator.{World}
use winforge.Tweak.UndoEntry.{undo_entry}
use winforge.App.{RestorePoints, AppState, ensure_restore_point}
use winforge.App.Operations.{ensured}

-- the keys of the map `undone`
unfoldable pub undone_ids : List Entry → List Text
undone_ids [] = []
undone_ids (e ∷ es) =
    let rest = undone_ids es in
    if e.success && not (is_empty e.undo_of) then e.undo_of ∷ rest else rest

abbrev pub mark : List Text → Entry → Entry
mark undone e = if any (text_eq e.id) undone then record e { can_undo = false } else e

-- History: newest first, with the entries that were undone marked
unfoldable pub history : {L : Type 0} → Option (Logger L) → L → List Entry × Option Err
unfolding undone_ids
history none l = ([], none)
history (some logger) l =
    let (entries, error) = logger.read_all l in
    (reversed (map (mark (undone_ids entries)) entries), error)

-- the second loop of UndoEntry; `target` is what it has found
unfoldable pub find_entry : Text → List Entry → Option Entry → Result Entry
find_entry id [] none = err not_found
find_entry id [] (some target) = ok target
find_entry id (e ∷ es) none =
    let here = find_entry id es (some e) in
    let rest = find_entry id es none in if text_eq e.id id then here else rest
find_entry id (e ∷ es) (some target) =
    let rest = find_entry id es (some target) in if text_eq e.id id then err ambiguous_id else rest

-- the checks of UndoEntry on what ReadAll returned
unfoldable pub entry_to_undo : Text → List Entry × Option Err → Result Entry
unfolding find_entry
entry_to_undo id (entries, some e) = err e
entry_to_undo id (entries, none) =
    if any (λ e. e.success && text_eq e.undo_of id) entries
    then err already_undone
    else find_entry id entries none

module _ ⦃c : CaseTable⦄ {S L : Type 0} (E : Executor S) (logger : Option (Logger L))
    (points : RestorePoints (World S L)) (auto : Bool) where
  abbrev pub over_entry :
      AppState (World S L) → Option Err × World S L → Option Err × AppState (World S L)
  over_entry a (error, w) = (error, record a { world = w })

  abbrev pub undo_target :
      Text → Result Entry → AppState (World S L) → Option Err × AppState (World S L)
  undo_target id (err e) a = (some e, a)
  undo_target id (ok target) a =
      let a' =
        if target.success && target.can_undo
        then ensured logger points auto (codes "WinForge: undo operation " ++ id) a
        else a in
      over_entry a' (undo_entry E logger target a'.world)

  abbrev pub readable : Bool → Result (Logger L)
  readable true = err disabled_while_elevated
  readable false = elim logger [ none ↦ err history_unavailable | some log ↦ ok log ]

  -- UndoEntry
  unfoldable pub app_undo_entry :
      (elevated : Bool) → Text → AppState (World S L) → Option Err × AppState (World S L)
  unfolding entry_to_undo ensure_restore_point
  app_undo_entry elevated id a =
      undo_target id (readable elevated >>= λ log. entry_to_undo id (log.read_all a.world.log)) a
