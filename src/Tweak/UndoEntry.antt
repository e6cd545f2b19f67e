-- ===== src/Tweak/UndoEntry.antt =====
-- internal/tweak/orchestrator.go: UndoEntry and restoreEntry.
pub mod Captured
pub mod RoundTrip
pub mod Restores
use winforge.Prelude.{
  ℕ, Bool, true, false, ◌&&◌, ◌||◌, not, Option, none, some, List, [], ◌∷◌, ◌++◌, any,
  if◌then◌else◌,
}
use winforge.Text.{Text, codes, text_eq, has_prefix, trim_prefix, trim_space, is_empty, CaseTable}
use winforge.Decimal.{parse_uint}
use winforge.Errors.{
  Err, Result, ok, err, ◌>>=◌, ◌>>◌, refuse, error_of, wrapped, cannot_undo, already_undone,
  undo_not_recorded, inconsistent_snapshot, no_restorable_target, unknown_snapshot_type,
  bad_snapshot_value, legacy_empty_string, legacy_not_undoable, invalid_hive, path_required,
}
use winforge.Config.{
  OpType, registry_set_dword, registry_set_string, registry_set_qword, service_start_mode,
  power_scheme, power_hibernate, power_processor_state, other_op,
}
use winforge.Service.{parse_start_mode}
use winforge.Power
use winforge.Audit.Entry.{
  ValueType, no_type, dword, qword, string, expand_string, start_mode, scheme, hibernate,
  processor_state, other_type, Entry, Logger,
}
use winforge.Tweak.Executor.{Executor, Change}
use winforge.Tweak.EntryCheck.{
  is_hive, validate_registry_entry_target, parse_bool, validate_captured_as,
  validate_captured_entry, value_target,
}
use winforge.Tweak.Snapshot.{registry_snapshot, parse_processor_state}
use winforge.Tweak.Orchestrator.{World, is_registry_op}

abbrev pub parsed : ℕ → Text → Result ℕ
parsed bits s = elim (parse_uint bits s) [ none ↦ err bad_snapshot_value | some n ↦ ok n ]

-- the end of a case: a parse error is returned, else the write is made
abbrev pub write_parsed {ℓ} : {S : Type 0} {A : Type ℓ} → Result A → (A → Change S) → Change S
write_parsed (ok a) write s = write a s
write_parsed (err e) write s = (some e, s)

module _ {S : Type 0} (E : Executor S) where
  abbrev pub delete_if_exists : Entry → Bool → Change S
  delete_if_exists e true s =
      E.registry_delete_value e.registry_hive e.registry_path e.registry_name s
  delete_if_exists e false s = (none, s)

  -- the value did not exist before, so it is deleted, unless it is gone already
  unfoldable pub restore_absent : Entry → Change S
  restore_absent e s =
      if is_empty e.registry_hive
      then (some no_restorable_target, s)
      else write_parsed (registry_snapshot E e.registry_hive e.registry_path e.registry_name s)
          (λ snap. delete_if_exists e snap.exists) s

  -- the switch of restoreEntry over the type of a value that existed
  unfoldable pub restore_as : ValueType → Entry → Change S
  restore_as dword e s =
      write_parsed (parsed 32 e.previous_value)
        (E.registry_set_dword e.registry_hive e.registry_path e.registry_name) s
  restore_as qword e s =
      write_parsed (parsed 64 e.previous_value)
        (E.registry_set_qword e.registry_hive e.registry_path e.registry_name) s
  restore_as string e s =
      E.registry_set_string e.registry_hive e.registry_path e.registry_name e.previous_value s
  restore_as expand_string e s =
      E.registry_set_expand_string e.registry_hive e.registry_path e.registry_name e.previous_value
        s
  restore_as start_mode e s =
      E.service_set_start_mode (trim_prefix e.target (codes "service:")) e.previous_value s
  restore_as scheme e s = E.power_set_active e.previous_value s
  restore_as hibernate e s = write_parsed (parse_bool e.previous_value) E.power_set_hibernate s
  restore_as processor_state e s =
      write_parsed (parse_processor_state e.previous_value)
        (λ bounds. E.power_set_processor_state bounds.0 bounds.1) s
  restore_as no_type e s = (some unknown_snapshot_type, s)
  restore_as (other_type name) e s = (some unknown_snapshot_type, s)

  -- an entry of the format that had no existence and no type
  unfoldable pub restore_legacy_as : OpType → Entry → Change S
  restore_legacy_as registry_set_dword e s =
      write_parsed (parsed 32 e.previous_value)
        (E.registry_set_dword e.registry_hive e.registry_path e.registry_name) s
  restore_legacy_as registry_set_qword e s =
      write_parsed (parsed 64 e.previous_value)
        (E.registry_set_qword e.registry_hive e.registry_path e.registry_name) s
  restore_legacy_as registry_set_string e s =
      if is_empty e.previous_value
      then (some legacy_empty_string, s)
      else E.registry_set_string e.registry_hive e.registry_path e.registry_name e.previous_value s
  restore_legacy_as _ e s = (some legacy_not_undoable, s)

  module _ ⦃t : CaseTable⦄ where
    unfoldable pub restore_captured : Entry → Change S
    unfolding validate_captured_entry restore_absent restore_as
    restore_captured e s = elim (validate_captured_entry e) [
      | err cause ↦ (some (wrapped cause), s)
      | ok _ ↦
          if e.previous_value_exists
          then restore_as e.previous_value_type e s
          else restore_absent e s
    ]

    unfoldable pub restore_entry : Entry → Change S
    unfolding restore_captured restore_legacy_as
    restore_entry e s =
        if e.previous_value_captured
        then restore_captured e s
        else elim (validate_registry_entry_target e) [
          | err cause ↦ (some (wrapped cause), s)
          | ok _ ↦ restore_legacy_as e.operation_type e s
        ]

abbrev pub is_nil {ℓ} : {A : Type ℓ} → Option A → Bool
is_nil none = true
is_nil (some a) = false

-- the record of the undo of `e`
unfoldable pub undo_record : Entry → Option Err → Entry
undo_record e error = record {
  id = [];
  timestamp = none;
  operation_type = other_op (codes "undo");
  target = e.target;
  previous_value = [];
  previous_value_captured = false;
  previous_value_exists = false;
  previous_value_type = no_type;
  new_value = [];
  success = is_nil error;
  error_message = error;
  can_undo = false;
  undo_of = e.id;
  tweak_id = e.tweak_id;
  registry_hive = [];
  registry_path = [];
  registry_name = [];
}

-- `candidate.Success && candidate.UndoOf == e.ID`
abbrev pub undoes : Entry → Entry → Bool
undoes e candidate = candidate.success && text_eq candidate.undo_of e.id

-- the error of the whole call, from that of the restoring and that of the logging
abbrev pub undo_error : Option Err → Option Err → Option Err
undo_error none (some e) = some (wrapped undo_not_recorded)
undo_error error _ = error

abbrev refused_by : Entry → List Entry × Option Err → Option Err
refused_by e (entries, some cause) = some cause
refused_by e (entries, none) = if any (undoes e) entries then some already_undone else none

module _ {L : Type 0} where
  -- nil where the entry may be undone: the log can be read and holds no successful undo of it
  unfoldable pub undo_refused : Option (Logger L) → Entry → L → Option Err
  undo_refused none e l = none
  undo_refused (some logger) e l = refused_by e (logger.read_all l)

  unfoldable pub record_undo : Option (Logger L) → Entry → Option Err → L → Option Err × L
  unfolding undo_record
  record_undo none e error l = (none, l)
  record_undo (some logger) e error l = logger.append (undo_record e error) l

module _ ⦃t : CaseTable⦄ {S L : Type 0} (E : Executor S) (logger : Option (Logger L)) where
  -- from the restoring on
  unfoldable pub restore_and_record : Entry → World S L → Option Err × World S L
  restore_and_record e w =
      let (error, s) = restore_entry E e w.sys in
      let (log_error, l) = record_undo logger e error w.log in
      (undo_error error log_error, record { sys = s; log = l })

  unfoldable pub undo_entry : Entry → World S L → Option Err × World S L
  unfolding undo_refused
  undo_entry e w =
      if not e.success || not e.can_undo
      then (some cannot_undo, w)
      else elim (undo_refused logger e w.log) [
        | some cause ↦ (some cause, w)
        | none ↦ restore_and_record e w
      ]
