-- ===== src/Tweak/Preserved/Applied.antt =====
-- What every changing call of the executor keeps, Apply keeps.
use winforge.Prelude.{Bool, Option, List, [], ◌∷◌}
use winforge.Text.{CaseTable}
use winforge.Errors.{◌>>=◌}
use winforge.Config.{
  OpType, Operation, Tweak, registry_set_dword, registry_set_string, registry_set_qword,
  registry_delete, registry_delete_key, service_start_mode, service_start, service_stop,
  task_disable, task_enable, task_delete, appx_remove, command, power_scheme, power_hibernate,
  power_processor_state, netbios, other_op,
}
use winforge.Config.Values.{string_value, dword_value, qword_value, processor_state_value}
use winforge.Power
use winforge.Audit.Entry.{Logger}
use winforge.Tweak.Executor.{Executor}
use winforge.Tweak.Effect.{TweakResult, new_effect}
use winforge.Tweak.Apply.{set_start_mode, set_scheme, set_processor_state, apply_as, apply_op}
use winforge.Tweak.Capture.{normalized_service_start_mode, or_current}
use winforge.Tweak.Orchestrator.{World, apply_one, apply_all, apply}
use winforge.Tweak.Preserved.{
  Keeps, commit-kept, or_effect-kept, run_unary-kept, set_value-kept, delete_value-kept,
  delete_key-kept, set_hibernate-kept, set_target-kept, set_netbios-kept,
}

module _ ⦃t : CaseTable⦄ {S : Type 0} (P : S → Type 0) (E : Executor S) (keeps : Keeps P E) where
  set_start_mode-kept :
      (dry_run : Bool) (op : Operation) (s : S) → P s → P (set_start_mode E dry_run op s).1
  unfolding set_start_mode
  set_start_mode-kept dry_run op s h =
      or_effect-kept P (new_effect op) (normalized_service_start_mode op) _ s
        (λ mode.
          or_effect-kept P (new_effect op) (E.service_get_start_mode op.name s) _ s
            (λ current. commit-kept P dry_run _ _ s (keeps.set_start_mode op.name mode)))
        h

  set_scheme-kept :
      (dry_run : Bool) (op : Operation) (s : S) → P s → P (set_scheme E dry_run op s).1
  unfolding set_scheme
  set_scheme-kept dry_run op s h =
      or_effect-kept P (new_effect op) (do value ← string_value op; Power.resolve value) _ s
        (λ guid.
          or_effect-kept P (new_effect op) (E.power_get_active s) _ s
            (λ current. commit-kept P dry_run _ _ s (keeps.set_active guid)))
        h

  set_processor_state-kept :
      (dry_run : Bool) (op : Operation) (s : S) → P s → P (set_processor_state E dry_run op s).1
  unfolding set_processor_state
  set_processor_state-kept dry_run op s h =
      or_effect-kept P (new_effect op) (processor_state_value op) _ s
        (λ ps. or_effect-kept P (new_effect op) (E.power_get_processor_state s) _ s (λ current.
          set_target-kept P E keeps dry_run op current (or_current ps.min current.0)
            (or_current ps.max current.1) s))
        h

  apply_as-kept :
      (o : OpType) (op : Operation) (dry_run : Bool) (s : S) → P s → P (apply_as E o op dry_run s).1
  unfolding apply_as
  apply_as-kept registry_set_dword op d s h =
      or_effect-kept P (new_effect op) (dword_value op) _ s
        (λ v. set_value-kept P E keeps d op _ _ _ s (keeps.set_dword op.hive op.path op.name v)) h
  apply_as-kept registry_set_qword op d s h =
      or_effect-kept P (new_effect op) (qword_value op) _ s
        (λ v. set_value-kept P E keeps d op _ _ _ s (keeps.set_qword op.hive op.path op.name v)) h
  apply_as-kept registry_set_string op d s h =
      or_effect-kept P (new_effect op) (string_value op) _ s
        (λ v. set_value-kept P E keeps d op _ _ _ s (keeps.set_string op.hive op.path op.name v)) h
  apply_as-kept registry_delete op d s h = delete_value-kept P E keeps d op s h
  apply_as-kept registry_delete_key op d s h = delete_key-kept P E keeps d op s h
  apply_as-kept service_start_mode op d s h = set_start_mode-kept d op s h
  apply_as-kept power_scheme op d s h = set_scheme-kept d op s h
  apply_as-kept power_hibernate op d s h = set_hibernate-kept P E keeps d op s h
  apply_as-kept power_processor_state op d s h = set_processor_state-kept d op s h
  apply_as-kept netbios op d s h = set_netbios-kept P E keeps d op s h
  apply_as-kept service_start op d s h = run_unary-kept P E keeps d op s h
  apply_as-kept service_stop op d s h = run_unary-kept P E keeps d op s h
  apply_as-kept task_disable op d s h = run_unary-kept P E keeps d op s h
  apply_as-kept task_enable op d s h = run_unary-kept P E keeps d op s h
  apply_as-kept task_delete op d s h = run_unary-kept P E keeps d op s h
  apply_as-kept appx_remove op d s h = run_unary-kept P E keeps d op s h
  apply_as-kept command op d s h = run_unary-kept P E keeps d op s h
  apply_as-kept (other_op name) op d s h = h

  apply_op-kept : (op : Operation) (dry_run : Bool) (s : S) → P s → P (apply_op E op dry_run s).1
  unfolding apply_op
  apply_op-kept op d s h = apply_as-kept op.op_type op d s h

  module _ {L : Type 0} (logger : Option (Logger L)) where
    apply_all-kept :
        (t : Tweak) (dry_run : Bool) (ops : List Operation) (res : TweakResult) (w : World S L)
        → P w.sys
        → P (apply_all E logger t dry_run ops res w).1.sys
    unfolding apply_all apply_one
    apply_all-kept t d [] res w h = h
    apply_all-kept t d (op ∷ ops) res w h =
        apply_all-kept t d ops (apply_one E logger t d op res w).0
          (apply_one E logger t d op res w).1 (apply_op-kept op d w.sys h)

    pub apply-kept :
        (t : Tweak) (dry_run : Bool) (w : World S L)
        → P w.sys
        → P (apply E logger t dry_run w).1.sys
    unfolding apply
    apply-kept t d w h = apply_all-kept t d t.operations _ w h
