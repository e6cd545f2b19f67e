-- ===== src/Tweak/Preserved/Restored.antt =====
-- What every changing call of the executor keeps, UndoEntry and EnsureApplied keep.
use winforge.Prelude.{
  ℕ, Bool, true, false, not, ◌||◌, Option, none, some, List, [], ◌∷◌, if◌then◌else◌,
}
use winforge.Text.{Text, is_empty, CaseTable}
use winforge.Errors.{Err, Result, ok, err, cannot_undo}
use winforge.Config.{OpType, Tweak, registry_set_dword, registry_set_string, registry_set_qword}
use winforge.Audit.Entry.{
  ValueType, no_type, dword, qword, string, expand_string, start_mode, scheme, hibernate,
  processor_state, other_type, Entry, Logger,
}
use winforge.Tweak.Executor.{Executor, Change}
use winforge.Tweak.Snapshot.{registry_snapshot}
use winforge.Tweak.Orchestrator.{World, apply}
use winforge.Tweak.UndoEntry.{
  delete_if_exists, restore_absent, restore_as, restore_legacy_as, restore_captured, restore_entry,
  restore_and_record, undo_refused, undo_entry,
}
use winforge.Tweak.EntryCheck.{validate_captured_entry, validate_registry_entry_target}
use winforge.Tweak.Verify.{can_verify, is_applied, ensure_from, ensure_applied}
use winforge.Tweak.Preserved.{ChangeKeeps, Keeps, write_parsed-kept}
use winforge.Tweak.Preserved.Applied.{apply-kept}

module _ {S : Type 0} (P : S → Type 0) where
  nothing-Keeps : (e : Option Err) → ChangeKeeps P (λ s. (e, s))
  nothing-Keeps e = record { kept = λ s h. h }

  if-Keeps :
      (b : Bool) (f g : Change S)
      → ChangeKeeps P f
      → ChangeKeeps P g
      → ChangeKeeps P (λ s. if b then f s else g s)
  if-Keeps true f g k l = k
  if-Keeps false f g k l = l

  checked-Keeps :
      {A : Type 0} (r : Result A) (f : Err → Change S) (g : A → Change S)
      → ((e : Err) → ChangeKeeps P (f e))
      → ((a : A) → ChangeKeeps P (g a))
      → ChangeKeeps P (λ s. elim r [ ok a ↦ g a s | err e ↦ f e s ])
  checked-Keeps (ok a) f g k l = l a
  checked-Keeps (err e) f g k l = k e

  module _ (E : Executor S) (keeps : Keeps P E) where
    delete_if_exists-Keeps : (e : Entry) (b : Bool) → ChangeKeeps P (delete_if_exists E e b)
    delete_if_exists-Keeps e true = keeps.delete_value _ _ _
    delete_if_exists-Keeps e false = nothing-Keeps none

    restore_absent-Keeps : (e : Entry) → ChangeKeeps P (restore_absent E e)
    unfolding restore_absent
    restore_absent-Keeps e = if-Keeps (is_empty e.registry_hive) _ _ (nothing-Keeps _) (record {
      kept = λ s h.
          write_parsed-kept P
            (registry_snapshot E e.registry_hive e.registry_path e.registry_name s) _ s
            (λ snap. delete_if_exists-Keeps e snap.exists) h;
    })

    restore_as-Keeps : (v : ValueType) (e : Entry) → ChangeKeeps P (restore_as E v e)
    unfolding restore_as
    restore_as-Keeps dword e = record {
      kept = λ s h. write_parsed-kept P _ _ s (λ n. keeps.set_dword _ _ _ n) h;
    }
    restore_as-Keeps qword e = record {
      kept = λ s h. write_parsed-kept P _ _ s (λ n. keeps.set_qword _ _ _ n) h;
    }
    restore_as-Keeps string e = keeps.set_string _ _ _ _
    restore_as-Keeps expand_string e = keeps.set_expand_string _ _ _ _
    restore_as-Keeps start_mode e = keeps.set_start_mode _ _
    restore_as-Keeps scheme e = keeps.set_active _
    restore_as-Keeps hibernate e = record {
      kept = λ s h. write_parsed-kept P _ _ s keeps.set_hibernate h;
    }
    restore_as-Keeps processor_state e = record {
      kept = λ s h. write_parsed-kept P _ _ s (λ (b : ℕ × ℕ). keeps.set_processor_state b.0 b.1) h;
    }
    restore_as-Keeps no_type e = nothing-Keeps _
    restore_as-Keeps (other_type name) e = nothing-Keeps _

    restore_legacy_as-Keeps : (o : OpType) (e : Entry) → ChangeKeeps P (restore_legacy_as E o e)
    unfolding restore_legacy_as
    restore_legacy_as-Keeps registry_set_dword e = record {
      kept = λ s h. write_parsed-kept P _ _ s (λ n. keeps.set_dword _ _ _ n) h;
    }
    restore_legacy_as-Keeps registry_set_qword e = record {
      kept = λ s h. write_parsed-kept P _ _ s (λ n. keeps.set_qword _ _ _ n) h;
    }
    restore_legacy_as-Keeps registry_set_string e =
        if-Keeps (is_empty e.previous_value) _ _ (nothing-Keeps _) (keeps.set_string _ _ _ _)
    restore_legacy_as-Keeps _ e = nothing-Keeps _

    module _ ⦃t : CaseTable⦄ where
      restore_captured-Keeps : (e : Entry) → ChangeKeeps P (restore_captured E e)
      unfolding restore_captured
      restore_captured-Keeps e =
          checked-Keeps (validate_captured_entry e) _ _ (λ cause. nothing-Keeps _)
            (λ u.
              if-Keeps e.previous_value_exists _ _ (restore_as-Keeps e.previous_value_type e)
                (restore_absent-Keeps e))

      restore_entry-Keeps : (e : Entry) → ChangeKeeps P (restore_entry E e)
      unfolding restore_entry
      restore_entry-Keeps e = if-Keeps e.previous_value_captured _ _ (restore_captured-Keeps e) (
          checked-Keeps (validate_registry_entry_target e) _ _ (λ cause. nothing-Keeps _)
            (λ u. restore_legacy_as-Keeps e.operation_type e))

      module _ {L : Type 0} (logger : Option (Logger L)) where
        restore_and_record-kept :
            (e : Entry) (w : World S L) → P w.sys → P (restore_and_record E logger e w).1.sys
        unfolding restore_and_record
        restore_and_record-kept e w h = (restore_entry-Keeps e).kept w.sys h

        pub undo_entry-kept :
            (e : Entry) (w : World S L) → P w.sys → P (undo_entry E logger e w).1.sys
        unfolding undo_entry
        undo_entry-kept e w h =
            in_order (not e.success || not e.can_undo) (undo_refused logger e w.log)
          where
            in_order :
                (b : Bool) (r : Option Err)
                → P
                    (if◌then◌else◌ {A = Option Err × World S L} b
                      (some cannot_undo, w)
                      (elim r [
                        | some cause ↦ (some cause, w)
                        | none ↦ restore_and_record E logger e w
                      ])).1.sys
            in_order true r = h
            in_order false none = restore_and_record-kept e w h
            in_order false (some cause) = h

        either-kept :
            {A : Type 0} (b : Bool) (skip run : A × World S L)
            → P skip.1.sys
            → P run.1.sys
            → P (elim b as (λ x. A × World S L) [ true ↦ skip | false ↦ run ]).1.sys
        either-kept true skip run h k = h
        either-kept false skip run h k = k

        ensure_from-kept :
            (ts : List Tweak) (out : List Text × List Err) (w : World S L)
            → P w.sys
            → P (ensure_from E logger ts out w).1.sys
        unfolding ensure_from
        ensure_from-kept [] out w h = h
        ensure_from-kept (t ∷ ts) out w h =
            either-kept (not (can_verify t) || is_applied E t w.sys) _ _
              (ensure_from-kept ts out w h)
              (ensure_from-kept ts _ (apply E logger t false w).1
                (apply-kept P E keeps logger t false w h))

        pub ensure_applied-kept :
            (ts : List Tweak) (w : World S L) → P w.sys → P (ensure_applied E logger ts w).1.sys
        unfolding ensure_applied
        ensure_applied-kept ts w h = ensure_from-kept ts ([], []) w h
