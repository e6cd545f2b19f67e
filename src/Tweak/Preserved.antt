-- ===== src/Tweak/Preserved.antt =====
-- What every changing call of the executor keeps, the parts of applyOp keep.
pub mod Applied
pub mod Undone
pub mod Restored
use winforge.Prelude.{
  ℕ, Bool, true, false, ◌&&◌, not, Option, none, some, List, [], ◌∷◌, ltb, if◌then◌else◌,
}
use winforge.Text.{Text, CaseTable}
use winforge.Errors.{Err, Result, ok, err, ◌>>=◌, processor_order, not_reversible}
use winforge.Config.{
  OpType, Operation, Tweak, registry_set_dword, registry_set_string, registry_set_qword,
  registry_delete, registry_delete_key, service_start_mode, service_start, service_stop,
  task_disable, task_enable, task_delete, appx_remove, command, power_scheme, power_hibernate,
  power_processor_state, netbios, other_op,
}
use winforge.Config.Values.{
  string_value, dword_value, qword_value, bool_value, processor_state_value, netbios_value,
  ProcessorState,
}
use winforge.Power
use winforge.Audit.Entry.{Logger}
use winforge.Tweak.Executor.{Executor, Change}
use winforge.Tweak.Effect.{Effect, TweakResult, new_effect, effect_error, or_effect, settle, commit}
use winforge.Tweak.Snapshot.{registry_snapshot}
use winforge.Tweak.Apply.{
  run_cmdline, exec_unary_as, exec_unary, set_value, delete_value, delete_key, set_hibernate,
  set_target, set_netbios, run_unary, set_start_mode, set_scheme, set_processor_state, apply_as,
  apply_op,
}
use winforge.Tweak.Capture.{normalized_service_start_mode, or_current}
use winforge.Tweak.Orchestrator.{World, apply_one, apply_all, apply}
use winforge.Tweak.UndoEntry.{write_parsed}
use winforge.Tweak.Revert.{
  set_bounds, over_current, revert_processor_state, revert_as, revert_one, revert_all,
  revert_listed, refusal, undo,
}

module _ {S : Type 0} (P : S → Type 0) where
  -- the change keeps `P`, whether it fails or not
  pub record ChangeKeeps (change : Change S) : Type 0 where
    pub kept : (s : S) → P s → P (change s).1

  pub record Keeps (E : Executor S) : Type 0 where
    pub set_dword : (h p n : Text) (v : ℕ) → ChangeKeeps (E.registry_set_dword h p n v)
    pub set_string : (h p n v : Text) → ChangeKeeps (E.registry_set_string h p n v)
    pub set_expand_string : (h p n v : Text) → ChangeKeeps (E.registry_set_expand_string h p n v)
    pub set_qword : (h p n : Text) (v : ℕ) → ChangeKeeps (E.registry_set_qword h p n v)
    pub delete_value : (h p n : Text) → ChangeKeeps (E.registry_delete_value h p n)
    pub delete_key_tree : (h p : Text) → ChangeKeeps (E.registry_delete_key_tree h p)
    pub set_start_mode : (n m : Text) → ChangeKeeps (E.service_set_start_mode n m)
    pub start : (n : Text) → ChangeKeeps (E.service_start n)
    pub stop : (n : Text) → ChangeKeeps (E.service_stop n)
    pub task_disable : (p : Text) → ChangeKeeps (E.task_disable p)
    pub task_enable : (p : Text) → ChangeKeeps (E.task_enable p)
    pub task_delete : (p : Text) → ChangeKeeps (E.task_delete p)
    pub appx_remove : (n : Text) → ChangeKeeps (E.appx_remove n)
    pub run_command : (c : Text) (args : List Text) → ChangeKeeps (E.run_command c args)
    pub set_active : (g : Text) → ChangeKeeps (E.power_set_active g)
    pub set_hibernate : (b : Bool) → ChangeKeeps (E.power_set_hibernate b)
    pub set_processor_state : (a b : ℕ) → ChangeKeeps (E.power_set_processor_state a b)
    pub set_options : (v : ℕ) → ChangeKeeps (E.netbios_set_options v)

  pub settle-kept : (eff : Effect) (r : Option Err × S) → P r.1 → P (settle eff r).1
  settle-kept eff (none, s) h = h
  settle-kept eff (some e, s) h = h

  pub commit-kept :
      (dry_run : Bool) (eff : Effect) (change : Change S) (s : S)
      → ChangeKeeps change
      → P s
      → P (commit dry_run eff change s).1
  unfolding commit
  commit-kept dry_run eff change s k h = go (not dry_run && eff.changed)
    where
      go :
          (b : Bool)
          → P (if b then settle (record eff { attempted = true }) (change s) else (eff, s)).1
      go true = settle-kept (record eff { attempted = true }) (change s) (k.kept s h)
      go false = h

  pub or_effect-kept :
      {A : Type 0} (eff : Effect) (r : Result A) (rest : A → S → Effect × S) (s : S)
      → ((a : A) → P s → P (rest a s).1)
      → P s
      → P (or_effect eff r rest s).1
  or_effect-kept eff (err e) rest s k h = h
  or_effect-kept eff (ok a) rest s k h = k a h

  pub write_parsed-kept :
      {A : Type 0} (r : Result A) (write : A → Change S) (s : S)
      → ((a : A) → ChangeKeeps (write a))
      → P s
      → P (write_parsed r write s).1
  write_parsed-kept (err e) write s k h = h
  write_parsed-kept (ok a) write s k h = (k a).kept s h

  module _ (E : Executor S) (keeps : Keeps E) where
    command-kept : (r : Result Text) (op : Operation) (s : S) → P s → P (run_cmdline E r op s).1
    command-kept (ok c) op s h = (keeps.run_command c op.args).kept s h
    command-kept (err e) op s h = h

    exec_unary_as-kept : (t : OpType) (op : Operation) (s : S) → P s → P (exec_unary_as E t op s).1
    unfolding exec_unary_as
    exec_unary_as-kept service_start op s h = (keeps.start op.name).kept s h
    exec_unary_as-kept service_stop op s h = (keeps.stop op.name).kept s h
    exec_unary_as-kept task_disable op s h = (keeps.task_disable op.path).kept s h
    exec_unary_as-kept task_enable op s h = (keeps.task_enable op.path).kept s h
    exec_unary_as-kept task_delete op s h = (keeps.task_delete op.path).kept s h
    exec_unary_as-kept appx_remove op s h = (keeps.appx_remove op.name).kept s h
    exec_unary_as-kept command op s h = command-kept (string_value op) op s h
    exec_unary_as-kept registry_set_dword op s h = h
    exec_unary_as-kept registry_set_string op s h = h
    exec_unary_as-kept registry_set_qword op s h = h
    exec_unary_as-kept registry_delete op s h = h
    exec_unary_as-kept registry_delete_key op s h = h
    exec_unary_as-kept service_start_mode op s h = h
    exec_unary_as-kept power_scheme op s h = h
    exec_unary_as-kept power_hibernate op s h = h
    exec_unary_as-kept power_processor_state op s h = h
    exec_unary_as-kept netbios op s h = h
    exec_unary_as-kept (other_op name) op s h = h

    pub exec_unary-kept : (op : Operation) → ChangeKeeps (exec_unary E op)
    unfolding exec_unary
    exec_unary-kept op = record { kept = exec_unary_as-kept op.op_type op }

    pub run_unary-kept :
        (dry_run : Bool) (op : Operation) (s : S) → P s → P (run_unary E dry_run op s).1
    unfolding run_unary
    run_unary-kept dry_run op s h = commit-kept dry_run _ (exec_unary E op) s (exec_unary-kept op) h

    pub set_value-kept :
        (dry_run : Bool) (op : Operation) (type : _) (new : Text) (write : Change S) (s : S)
        → ChangeKeeps write
        → P s
        → P (set_value E dry_run op type new write s).1
    unfolding set_value
    set_value-kept dry_run op type new write s k h =
        or_effect-kept (new_effect op) (registry_snapshot E op.hive op.path op.name s) _ s
          (λ snap. commit-kept dry_run _ write s k) h

    pub delete_value-kept :
        (dry_run : Bool) (op : Operation) (s : S) → P s → P (delete_value E dry_run op s).1
    unfolding delete_value
    delete_value-kept dry_run op s h =
        or_effect-kept (new_effect op) (registry_snapshot E op.hive op.path op.name s) _ s
          (λ snap. commit-kept dry_run _ _ s (keeps.delete_value op.hive op.path op.name)) h

    pub delete_key-kept :
        (dry_run : Bool) (op : Operation) (s : S) → P s → P (delete_key E dry_run op s).1
    unfolding delete_key
    delete_key-kept dry_run op s h =
        or_effect-kept (new_effect op) (E.registry_key_exists op.hive op.path s) _ s
          (λ exists. commit-kept dry_run _ _ s (keeps.delete_key_tree op.hive op.path)) h

    pub set_hibernate-kept :
        (dry_run : Bool) (op : Operation) (s : S) → P s → P (set_hibernate E dry_run op s).1
    unfolding set_hibernate
    set_hibernate-kept dry_run op s h =
        or_effect-kept (new_effect op) (bool_value op) _ s
          (λ enable.
            or_effect-kept (new_effect op) (E.power_hibernate_enabled s) _ s
              (λ current. commit-kept dry_run _ _ s (keeps.set_hibernate enable)))
          h

    pub set_target-kept :
        (dry_run : Bool) (op : Operation) (current : ℕ × ℕ) (min max : ℕ) (s : S)
        → P s
        → P (set_target E dry_run op current min max s).1
    unfolding set_target
    set_target-kept dry_run op (cur_min, cur_max) min max s h =
        in_order (ltb max min) _ (commit-kept dry_run _ _ s (keeps.set_processor_state min max) h)
      where
        in_order :
            (b : Bool) (r : Effect × S)
            → P r.1
            → P (if b then (effect_error (new_effect op) processor_order, s) else r).1
        in_order true r k = h
        in_order false r k = k

    pub set_netbios-kept :
        (dry_run : Bool) (op : Operation) (s : S) → P s → P (set_netbios E dry_run op s).1
    unfolding set_netbios
    set_netbios-kept dry_run op s h =
        or_effect-kept (new_effect op) (netbios_value op) _ s
          (λ value.
            or_effect-kept (new_effect op) (E.netbios_get_options s) _ s
              (λ current. commit-kept dry_run _ _ s (keeps.set_options value)))
          h
