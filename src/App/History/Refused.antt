-- ===== src/App/History/Refused.antt =====
-- What History shows as not undoable, UndoEntry refuses.
use winforge.Prelude.{
  ◌≡◌, ◌≢◌, ◌∙◌, sym, ap, inl, inr, refl, Bool, true, false, ◌&&◌, Option, none, some, List, [],
  ◌∷◌, any, arith, In, In-map, In-reversed, Bool-cases,
}
use mathlib.Core.Path.{subst}
use winforge.Text.{Text, text_eq, CaseTable}
use winforge.Text.Laws.{text_eq_refl, text_eq_comm}
use winforge.Errors.{Err, Result, ok, err}
use winforge.Audit.Entry.{Entry, Logger}
use winforge.Tweak.Executor.{Executor}
use winforge.Tweak.Orchestrator.{World}
use winforge.Tweak.UndoEntry.{undo_entry}
use winforge.App.{RestorePoints, AppState}
use winforge.App.History.{
  undone_ids, mark, history, find_entry, entry_to_undo, undo_target, app_undo_entry,
}

module _ (id : Text) where
  found_before :
      (e t u : Entry) (es : List Entry)
      → find_entry id (e ∷ es) (some t) ≡ ok u
      → (text_eq e.id id ≡ false) × (find_entry id es (some t) ≡ ok u)
  unfolding find_entry
  found_before e t u es h = ground arith

  -- The loop keeps what it has found, where no other entry has the id.
  find_entry-kept :
      (es : List Entry) (t u : Entry)
      → find_entry id es (some t) ≡ ok u
      → (t ≡ u) × ((e : Entry) → In e es → text_eq e.id id ≡ false)
  unfolding find_entry
  find_entry-kept [] t u h = (cc, λ e k. absurd k)
  find_entry-kept (f ∷ es) t u h =
      let (other, rest) = found_before f t u es h in
      let (same, others) = find_entry-kept es t u rest in
      (same, λ e k. elim k [ inl e' ↦ rw e' other | inr k' ↦ others e k' ])

  found_first :
      (f u : Entry) (es : List Entry)
      → text_eq f.id id ≡ true
      → find_entry id (f ∷ es) none ≡ ok u
      → find_entry id es (some f) ≡ ok u
  unfolding find_entry
  found_first f u es same h = ground arith

  found_later :
      (f u : Entry) (es : List Entry)
      → text_eq f.id id ≡ false
      → find_entry id (f ∷ es) none ≡ ok u
      → find_entry id es none ≡ ok u
  unfolding find_entry
  found_later f u es other h = ground arith

  -- The entry that is found is the only one with its id.
  find_entry-only :
      (es : List Entry) (e u : Entry)
      → In e es
      → text_eq e.id id ≡ true
      → find_entry id es none ≡ ok u
      → e ≡ u
  find_entry-only [] e u k same h = absurd k
  find_entry-only (f ∷ es) e u k same h = elim (Bool-cases (text_eq f.id id)) [
    | inl here ↦
        let (first, others) = find_entry-kept es f u (found_first f u es here h) in
        elim k [ inl e' ↦ e' ∙ first | inr k' ↦ absurd cc (others e k') ]
    | inr there ↦ elim k [
      | inl e' ↦ absurd cc (ap (λ (x : Entry). text_eq x.id id) e')
      | inr k' ↦ find_entry-only es e u k' same (found_later f u es there h)
    ]
  ]

undone_ids-undoes :
    (id : Text) (es : List Entry)
    → any (text_eq id) (undone_ids es) ≡ true
    → any (λ e. e.success && text_eq e.undo_of id) es ≡ true
unfolding undone_ids
undone_ids-undoes id [] h = h
undone_ids-undoes id (e ∷ es) h = ground (arith, text_eq_comm id e.undo_of, undone_ids-undoes id es)

-- an entry that is not found, or cannot be undone
abbrev Refuses : Result Entry → Type 0
Refuses (err e) = Unit
Refuses (ok t) = t.can_undo ≡ false

find_entry-Refuses :
    (id : Text) (es : List Entry) (e : Entry) (r : Result Entry)
    → In e es
    → text_eq e.id id ≡ true
    → e.can_undo ≡ false
    → find_entry id es none ≡ r
    → Refuses r
find_entry-Refuses id es e (err x) k same no' h = tt
find_entry-Refuses id es e (ok t) k same no' h = cc (find_entry-only id es e t k same h)

mark-id : (undone : List Text) (e : Entry) → (mark undone e).id ≡ e.id
mark-id undone e = ground arith

entry_to_undo-Refuses :
    (es : List Entry) (error : Option Err) (e : Entry)
    → In e es
    → (mark (undone_ids es) e).can_undo ≡ false
    → Refuses (entry_to_undo e.id (es, error))
unfolding entry_to_undo
entry_to_undo-Refuses es (some x) e k h = tt
entry_to_undo-Refuses es none e k h =
    elim (Bool-cases (any (λ d. d.success && text_eq d.undo_of e.id) es)) [
      | inl undone ↦ rw undone tt
      | inr not_undone ↦ rw not_undone (
          find_entry-Refuses e.id es e (find_entry e.id es none) k (text_eq_refl e.id)
            (ground (arith, undone_ids-undoes e.id es)) refl)
    ]

module _ {L : Type 0} (log : Logger L) where
  history-Refuses :
      (row : Entry) (l : L)
      → In row (history (some log) l).0
      → row.can_undo ≡ false
      → Refuses (entry_to_undo row.id (log.read_all l))
  unfolding history
  history-Refuses row l k h =
      let (e, same, inside) =
        In-map (mark (undone_ids (log.read_all l).0)) row (log.read_all l).0
          (In-reversed row _ k) in
      subst (λ id. Refuses (entry_to_undo id (log.read_all l)))
        (sym (ap (λ (r : Entry). r.id) same ∙ mark-id _ e))
        (entry_to_undo-Refuses (log.read_all l).0 (log.read_all l).1 e inside
          (sym (ap (λ (r : Entry). r.can_undo) same) ∙ h))

module _ ⦃c : CaseTable⦄ {S L : Type 0} (E : Executor S) (logger : Option (Logger L))
    (points : RestorePoints (World S L)) (auto : Bool) where
  -- an error, and nothing that changed
  abbrev IsRefusal : AppState (World S L) → Option Err × AppState (World S L) → Type 0
  IsRefusal a (error, a') = (error ≢ none) × (a' ≡ a)

  undo_target-Refuses :
      (id : Text) (r : Result Entry) (a : AppState (World S L))
      → Refuses r
      → IsRefusal a (undo_target E logger points auto id r a)
  unfolding undo_entry
  undo_target-Refuses id (err e) a h = (λ k. cc, refl)
  undo_target-Refuses id (ok t) a h = ground arith

module _ ⦃c : CaseTable⦄ {S L : Type 0} (E : Executor S) (points : RestorePoints (World S L))
    (auto : Bool) where
  -- An entry that History shows as one that cannot be undone, UndoEntry refuses by its id: it returns
  -- an error, creates no restore point, and leaves the system and the log as they are.
  pub history-app_undo_entry :
      (logger : Option (Logger L)) (elevated : Bool) (row : Entry) (a : AppState (World S L))
      → In row (history logger a.world.log).0
      → row.can_undo ≡ false
      → ((app_undo_entry E logger points auto elevated row.id a).0 ≢ none)
        × ((app_undo_entry E logger points auto elevated row.id a).1 ≡ a)
  unfolding app_undo_entry history
  history-app_undo_entry logger true row a k h = (λ e. cc, refl)
  history-app_undo_entry none false row a k h = absurd k
  history-app_undo_entry (some log) false row a k h =
      undo_target-Refuses E (some log) points auto row.id
        (entry_to_undo row.id (log.read_all a.world.log)) a
        (history-Refuses log row a.world.log k h)
