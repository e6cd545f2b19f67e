-- ===== src/Tweak/Preserved/Undone.antt =====
-- What every changing call of the executor keeps, Undo keeps.
use winforge.Prelude.{ℕ, Bool, true, false, Option, some, List, [], ◌∷◌, ltb, if◌then◌else◌}
use winforge.Text.{CaseTable}
use winforge.Errors.{Err, Result, ok, err, ◌>>=◌, processor_order, not_reversible}
use winforge.Config.{
  OpType, Operation, Tweak, registry_set_dword, registry_set_string, registry_set_qword,
  registry_delete, registry_delete_key, service_start_mode, service_start, service_stop,
  task_disable, task_enable, task_delete, appx_remove, command, power_scheme, power_hibernate,
  power_processor_state, netbios, other_op,
}
use winforge.Config.Values.{
  string_value, dword_value, qword_value, bool_value, processor_state_value, netbios_value,
  ProcessorState,
}
use winforge.Power
use winforge.Audit.Entry.{Logger}
use winforge.Tweak.Executor.{Executor}
use winforge.Tweak.Effect.{TweakResult}
use winforge.Tweak.Capture.{normalized_service_start_mode}
use winforge.Tweak.Orchestrator.{World}
use winforge.Tweak.Revert.{
  set_bounds, over_current, revert_processor_state, revert_as, revert_one, revert_all,
  revert_listed, refusal, undo,
}
use winforge.Tweak.Preserved.{ChangeKeeps, Keeps, settle-kept, write_parsed-kept, exec_unary-kept}

module _ ⦃t : CaseTable⦄ {S : Type 0} (P : S → Type 0) (E : Executor S) (keeps : Keeps P E) where
  module _ {L : Type 0} (logger : Option (Logger L)) where
    bounds-kept : (min max : ℕ) → ChangeKeeps P (set_bounds E min max)
    bounds-kept min max = record {
      kept = λ s h. in_order s h (ltb max min) _ ((keeps.set_processor_state min max).kept s h);
    }
      where
        in_order :
            (s : S)
            → P s
            → (b : Bool) (r : Option Err × S) → P r.1
            → P (if b then (some processor_order, s) else r).1
        in_order s h true r k = h
        in_order s h false r k = k

    over_current-kept :
        (ps : ProcessorState) (r : Result (ℕ × ℕ)) (s : S) → P s → P (over_current E ps r s).1
    over_current-kept ps (err e) s h = h
    over_current-kept ps (ok current) s h = (bounds-kept _ _).kept s h

    revert_processor_state-kept :
        (ps : ProcessorState) → ChangeKeeps P (revert_processor_state E ps)
    unfolding revert_processor_state
    revert_processor_state-kept ps = record {
      kept = λ s h. over_current-kept ps (E.power_get_processor_state s) s h;
    }

    revert_as-kept : (o : OpType) (op : Operation) (s : S) → P s → P (revert_as E o op s).1
    unfolding revert_as
    revert_as-kept registry_set_dword op s h =
        write_parsed-kept P (dword_value op) _ s (keeps.set_dword op.hive op.path op.name) h
    revert_as-kept registry_set_string op s h =
        write_parsed-kept P (string_value op) _ s (keeps.set_string op.hive op.path op.name) h
    revert_as-kept registry_set_qword op s h =
        write_parsed-kept P (qword_value op) _ s (keeps.set_qword op.hive op.path op.name) h
    revert_as-kept registry_delete op s h = (keeps.delete_value op.hive op.path op.name).kept s h
    revert_as-kept registry_delete_key op s h = (keeps.delete_key_tree op.hive op.path).kept s h
    revert_as-kept service_start_mode op s h =
        write_parsed-kept P (normalized_service_start_mode op) _ s (keeps.set_start_mode op.name) h
    revert_as-kept power_scheme op s h =
        write_parsed-kept P (do value ← string_value op; Power.resolve value) _ s keeps.set_active h
    revert_as-kept power_hibernate op s h =
        write_parsed-kept P (bool_value op) _ s keeps.set_hibernate h
    revert_as-kept power_processor_state op s h =
        write_parsed-kept P (processor_state_value op) _ s revert_processor_state-kept h
    revert_as-kept netbios op s h = write_parsed-kept P (netbios_value op) _ s keeps.set_options h
    revert_as-kept service_start op s h = (exec_unary-kept P E keeps op).kept s h
    revert_as-kept service_stop op s h = (exec_unary-kept P E keeps op).kept s h
    revert_as-kept task_disable op s h = (exec_unary-kept P E keeps op).kept s h
    revert_as-kept task_enable op s h = (exec_unary-kept P E keeps op).kept s h
    revert_as-kept task_delete op s h = (exec_unary-kept P E keeps op).kept s h
    revert_as-kept appx_remove op s h = (exec_unary-kept P E keeps op).kept s h
    revert_as-kept command op s h = (exec_unary-kept P E keeps op).kept s h
    revert_as-kept (other_op name) op s h = (exec_unary-kept P E keeps op).kept s h

    revert_all-kept :
        (t : Tweak) (ops : List Operation) (res : TweakResult) (w : World S L)
        → P w.sys
        → P (revert_all E logger t ops res w).1.sys
    unfolding revert_all revert_one
    revert_all-kept t [] res w h = h
    revert_all-kept t (op ∷ ops) res w h =
        revert_all-kept t ops (revert_one E logger t op res w).0 (revert_one E logger t op res w).1
          (settle-kept P _ (revert_as E op.op_type op w.sys) (revert_as-kept op.op_type op w.sys h))

    pub undo-kept : (t : Tweak) (w : World S L) → P w.sys → P (undo E logger t w).1.sys
    unfolding undo
    undo-kept t w h = reverts t.reversible t.revert
      where
        listed : (ops : List Operation) → P (revert_listed E logger t ops w).1.sys
        listed [] = h
        listed (op ∷ ops) = revert_all-kept t (op ∷ ops) _ w h

        reverts :
            (b : Bool) (ops : List Operation)
            → P (if b then revert_listed E logger t ops w else (refusal t not_reversible, w)).1.sys
        reverts true ops = listed ops
        reverts false ops = h
