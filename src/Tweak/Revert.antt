-- ===== src/Tweak/Revert.antt =====
-- internal/tweak/orchestrator.go: Undo, the revert of a whole tweak.
use winforge.Prelude.{ℕ, true, false, Option, some, List, [], ◌∷◌, ltb, if◌then◌else◌}
use winforge.Text.{CaseTable}
use winforge.Errors.{
  Err, Result, ok, err, ◌>>=◌, processor_order, not_reversible, no_revert_operations,
}
use winforge.Config.{
  OpType, Operation, Tweak, registry_set_dword, registry_set_string, registry_set_qword,
  registry_delete, registry_delete_key, service_start_mode, power_scheme, power_hibernate,
  power_processor_state, netbios, other_op,
}
use winforge.Config.Values.{
  ProcessorState, dword_value, string_value, qword_value, bool_value, processor_state_value,
  netbios_value,
}
use winforge.Power
use winforge.Audit.Entry.{Logger}
use winforge.Tweak.Executor.{Executor, Change}
use winforge.Tweak.Effect.{TweakResult, new_effect, settle, tally}
use winforge.Tweak.Apply.{exec_unary}
use winforge.Tweak.Capture.{normalized_service_start_mode, or_current}
use winforge.Tweak.Orchestrator.{World, record_op, new_result, warn}
use winforge.Tweak.UndoEntry.{write_parsed}

module _ {S : Type 0} (E : Executor S) where
  -- the bounds that the revert asks for, put over the current ones
  abbrev pub set_bounds : ℕ → ℕ → Change S
  set_bounds min max s =
      if ltb max min then (some processor_order, s) else E.power_set_processor_state min max s

  abbrev pub over_current : ProcessorState → Result (ℕ × ℕ) → Change S
  over_current ps (err e) s = (some e, s)
  over_current ps (ok current) s =
      set_bounds (or_current ps.min current.0) (or_current ps.max current.1) s

  unfoldable pub revert_processor_state : ProcessorState → Change S
  revert_processor_state ps s = over_current ps (E.power_get_processor_state s) s

  -- the switch of Undo
  unfoldable pub revert_as : ⦃c : CaseTable⦄ → OpType → Operation → Change S
  unfolding revert_processor_state
  revert_as registry_set_dword op s =
      write_parsed (dword_value op) (E.registry_set_dword op.hive op.path op.name) s
  revert_as registry_set_string op s =
      write_parsed (string_value op) (E.registry_set_string op.hive op.path op.name) s
  revert_as registry_set_qword op s =
      write_parsed (qword_value op) (E.registry_set_qword op.hive op.path op.name) s
  revert_as registry_delete op s = E.registry_delete_value op.hive op.path op.name s
  revert_as registry_delete_key op s = E.registry_delete_key_tree op.hive op.path s
  revert_as service_start_mode op s =
      write_parsed (normalized_service_start_mode op) (E.service_set_start_mode op.name) s
  revert_as power_scheme op s =
      write_parsed (do value ← string_value op; Power.resolve value) E.power_set_active s
  revert_as power_hibernate op s = write_parsed (bool_value op) E.power_set_hibernate s
  revert_as power_processor_state op s =
      write_parsed (processor_state_value op) revert_processor_state s
  revert_as netbios op s = write_parsed (netbios_value op) E.netbios_set_options s
  revert_as _ op s = exec_unary E op s

-- what Undo returns where it refuses the tweak
unfoldable pub refusal : Tweak → Err → TweakResult
refusal t e = record (new_result t false) {
  effects =
      record {
        operation_type = other_op [];
        target = t.id;
        previous_value = [];
        previous_value_captured = false;
        previous_value_exists = false;
        previous_value_type = winforge.Audit.Entry.no_type;
        new_value = [];
        changed = false;
        applied = false;
        error = some e;
        attempted = false;
      }
      ∷ [];
  failed = 1;
}

module _ ⦃c : CaseTable⦄ {S L : Type 0} (E : Executor S) (logger : Option (Logger L)) where
  -- A revert operation is attempted whether or not it would change anything.
  unfoldable pub revert_one : Tweak → Operation → TweakResult → World S L → TweakResult × World S L
  revert_one t op res w =
      let (eff, s) =
        settle (record (new_effect op) { changed = true; attempted = true })
          (revert_as E op.op_type op w.sys) in
      let (e, l) = record_op logger t op eff false w.log in
      (warn (tally res eff) e, record { sys = s; log = l })

  unfoldable pub revert_all :
      Tweak → List Operation → TweakResult → World S L → TweakResult × World S L
  revert_all t [] res w = (res, w)
  revert_all t (op ∷ ops) res w = let (res', w') = revert_one t op res w in revert_all t ops res' w'

  abbrev pub revert_listed : Tweak → List Operation → World S L → TweakResult × World S L
  revert_listed t [] w = (refusal t no_revert_operations, w)
  revert_listed t (op ∷ ops) w = revert_all t (op ∷ ops) (new_result t false) w

  unfoldable pub undo : Tweak → World S L → TweakResult × World S L
  unfolding revert_all refusal
  undo t w = if t.reversible then revert_listed t t.revert w else (refusal t not_reversible, w)
