-- ===== src/Tweak/Apply.antt =====
-- internal/tweak/orchestrator.go: applyOp and execUnary.
use winforge.Prelude.{ℕ, Bool, true, ◌||◌, not, some, any, ltb, ◌==◌, if◌then◌else◌}
use winforge.Text.{Text, equal_fold, CaseTable}
use winforge.Decimal.{format_uint}
use winforge.Tweak.Capture.{
  captured, set_effect, delete_effect, or_current, bool_text, differs,
  normalized_service_start_mode,
}
use winforge.Errors.{Result, ok, err, ◌>>=◌, unknown_operation, unhandled_unary, processor_order}
use winforge.Config.{
  OpType, Operation, registry_set_dword, registry_set_string, registry_set_qword, registry_delete,
  registry_delete_key, service_start_mode, service_start, service_stop, task_disable, task_enable,
  task_delete, appx_remove, command, power_scheme, power_hibernate, power_processor_state, netbios,
  other_op,
}
use winforge.Config.Values.{
  dword_value, string_value, qword_value, bool_value, processor_state_value, netbios_value,
}
use winforge.Power
use winforge.Audit.Entry.{
  ValueType, dword, qword, string, start_mode, scheme, hibernate, processor_state,
}
use winforge.Tweak.Executor.{Executor, Change}
use winforge.Tweak.Snapshot.{registry_snapshot, format_processor_state, format_netbios_options}
use winforge.Tweak.Effect.{Effect, new_effect, effect_error, or_effect, commit}

module _ {S : Type 0} (E : Executor S) where
  abbrev pub run_cmdline : Result Text → Operation → Change S
  run_cmdline (ok cmdline) op s = E.run_command cmdline op.args s
  run_cmdline (err e) op s = (some e, s)

  unfoldable pub exec_unary_as : OpType → Operation → Change S
  exec_unary_as service_start op s = E.service_start op.name s
  exec_unary_as service_stop op s = E.service_stop op.name s
  exec_unary_as task_disable op s = E.task_disable op.path s
  exec_unary_as task_enable op s = E.task_enable op.path s
  exec_unary_as task_delete op s = E.task_delete op.path s
  exec_unary_as appx_remove op s = E.appx_remove op.name s
  exec_unary_as command op s = run_cmdline (string_value op) op s
  exec_unary_as _ op s = (some unhandled_unary, s)

  unfoldable pub exec_unary : Operation → Change S
  unfolding exec_unary_as
  exec_unary op s = exec_unary_as op.op_type op s

  -- the cases registry_set_dword, registry_set_qword and registry_set_string, from the snapshot on
  unfoldable pub set_value : Bool → Operation → ValueType → Text → Change S → S → Effect × S
  unfolding commit
  set_value dry_run op type new write s =
      or_effect (new_effect op) (registry_snapshot E op.hive op.path op.name s)
        (λ snap. commit dry_run (set_effect op type new snap) write) s

  unfoldable pub delete_value : Bool → Operation → S → Effect × S
  unfolding commit
  delete_value dry_run op s =
      or_effect (new_effect op) (registry_snapshot E op.hive op.path op.name s)
        (λ snap.
          commit dry_run (delete_effect op snap) (E.registry_delete_value op.hive op.path op.name))
        s

  unfoldable pub delete_key : Bool → Operation → S → Effect × S
  unfolding commit
  delete_key dry_run op s =
      or_effect (new_effect op) (E.registry_key_exists op.hive op.path s)
        (λ exists.
          commit dry_run (record (new_effect op) { changed = exists })
            (E.registry_delete_key_tree op.hive op.path))
        s

  unfoldable pub set_hibernate : Bool → Operation → S → Effect × S
  unfolding commit
  set_hibernate dry_run op s =
      or_effect (new_effect op) (bool_value op)
        (λ enable. or_effect (new_effect op) (E.power_hibernate_enabled s) λ current.
          commit dry_run
            (record (captured (new_effect op) hibernate (bool_text current)) {
              new_value = bool_text enable;
              changed = differs current enable;
            })
            (E.power_set_hibernate enable))
        s

  -- the processor state that is asked for, where its bounds are in order
  unfoldable pub set_target : Bool → Operation → ℕ × ℕ → ℕ → ℕ → S → Effect × S
  unfolding effect_error commit
  set_target dry_run op (cur_min, cur_max) min max s =
      if ltb max min
      then (effect_error (new_effect op) processor_order, s)
      else commit dry_run
          (record (captured (new_effect op) processor_state
            (format_processor_state cur_min cur_max)) {
              new_value = format_processor_state min max;
              changed = not (min == cur_min) || not (max == cur_max);
            })
          (E.power_set_processor_state min max) s

  unfoldable pub set_netbios : Bool → Operation → S → Effect × S
  unfolding commit
  set_netbios dry_run op s =
      or_effect (new_effect op) (netbios_value op)
        (λ value. or_effect (new_effect op) (E.netbios_get_options s) λ current.
          commit dry_run
            (record (new_effect op) {
              previous_value = format_netbios_options current;
              new_value = format_uint value;
              changed = any (λ entry. not (entry.1 == value)) current;
            })
            (E.netbios_set_options value))
        s

  -- the operations whose effect cannot be read: a dry run reports them as changed
  unfoldable pub run_unary : Bool → Operation → S → Effect × S
  unfolding commit
  run_unary dry_run op = commit dry_run (record (new_effect op) { changed = true }) (exec_unary op)

  module _ ⦃t : CaseTable⦄ where
    unfoldable pub set_start_mode : Bool → Operation → S → Effect × S
    unfolding commit
    set_start_mode dry_run op s =
        or_effect (new_effect op) (normalized_service_start_mode op)
          (λ mode. or_effect (new_effect op) (E.service_get_start_mode op.name s) λ current.
            commit dry_run
              (record (captured (new_effect op) start_mode current) {
                new_value = mode;
                changed = not (equal_fold current mode);
              })
              (E.service_set_start_mode op.name mode))
          s

    unfoldable pub set_scheme : Bool → Operation → S → Effect × S
    unfolding commit
    set_scheme dry_run op s =
        or_effect (new_effect op) (do value ← string_value op; Power.resolve value)
          (λ guid. or_effect (new_effect op) (E.power_get_active s) λ current.
            commit dry_run
              (record (captured (new_effect op) scheme current) {
                new_value = guid;
                changed = not (equal_fold current guid);
              })
              (E.power_set_active guid))
          s

    unfoldable pub set_processor_state : Bool → Operation → S → Effect × S
    unfolding set_target
    set_processor_state dry_run op s =
        or_effect (new_effect op) (processor_state_value op)
          (λ ps. or_effect (new_effect op) (E.power_get_processor_state s) λ current.
            set_target dry_run op current (or_current ps.min current.0)
              (or_current ps.max current.1))
          s

    -- the switch of applyOp
    unfoldable pub apply_as : OpType → Operation → Bool → S → Effect × S
    apply_as registry_set_dword op dry_run s =
        or_effect (new_effect op) (dword_value op)
          (λ v.
            set_value dry_run op dword (format_uint v)
              (E.registry_set_dword op.hive op.path op.name v))
          s
    apply_as registry_set_qword op dry_run s =
        or_effect (new_effect op) (qword_value op)
          (λ v.
            set_value dry_run op qword (format_uint v)
              (E.registry_set_qword op.hive op.path op.name v))
          s
    apply_as registry_set_string op dry_run s =
        or_effect (new_effect op) (string_value op)
          (λ v. set_value dry_run op string v (E.registry_set_string op.hive op.path op.name v)) s
    apply_as registry_delete op dry_run s = delete_value dry_run op s
    apply_as registry_delete_key op dry_run s = delete_key dry_run op s
    apply_as service_start_mode op dry_run s = set_start_mode dry_run op s
    apply_as power_scheme op dry_run s = set_scheme dry_run op s
    apply_as power_hibernate op dry_run s = set_hibernate dry_run op s
    apply_as power_processor_state op dry_run s = set_processor_state dry_run op s
    apply_as netbios op dry_run s = set_netbios dry_run op s
    apply_as service_start op dry_run s = run_unary dry_run op s
    apply_as service_stop op dry_run s = run_unary dry_run op s
    apply_as task_disable op dry_run s = run_unary dry_run op s
    apply_as task_enable op dry_run s = run_unary dry_run op s
    apply_as task_delete op dry_run s = run_unary dry_run op s
    apply_as appx_remove op dry_run s = run_unary dry_run op s
    apply_as command op dry_run s = run_unary dry_run op s
    apply_as (other_op name) op dry_run s =
        (effect_error (new_effect op) (unknown_operation name), s)

    unfoldable pub apply_op : Operation → Bool → S → Effect × S
    unfolding apply_as
    apply_op op dry_run s = apply_as op.op_type op dry_run s
