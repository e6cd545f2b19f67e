-- ===== src/Engine/Executor/Guarded.antt =====
-- Which services Apply, Undo and UndoEntry reach through the executor of the engine.
use winforge.Prelude.{ℕ, Bool, true, false, Option, none, some, List, [], ◌∷◌, ltb, if◌then◌else◌}
use winforge.Text.{Text, codes, CaseTable}
use winforge.Errors.{Err, Result, ok, err}
use winforge.Config.{Tweak}
use winforge.Service.{parse_start_mode}
use winforge.Audit.Entry.{Entry, Logger}
use winforge.Tweak.Executor.{Change}
use winforge.Tweak.Orchestrator.{apply}
use winforge.Tweak.Revert.{undo}
use winforge.Tweak.UndoEntry.{undo_entry}
use winforge.Tweak.Preserved.{Keeps, ChangeKeeps}
use winforge.Tweak.Preserved.Applied.{apply-kept}
use winforge.Tweak.Preserved.Undone.{undo-kept}
use winforge.Tweak.Preserved.Restored.{undo_entry-kept}
use winforge.Power.{resolve}
use winforge.Engine.{Guard, new_executor, service_set_start_mode, service_start, service_stop}
use winforge.Engine.Executor.{
  Windows, netbt_interfaces_path, validate_hive, in_hive, set_options, on_interfaces,
  netbios_set_options, appx_remove, run_as, run_command, power_set_processor_state, engine_executor,
}
use winforge.Engine.Executor.Logged.{
  Logged, logged, untouched, Spared, plain-Keeps, guarded-Keeps, noting-Keeps, mutable-free,
}

module _ ⦃c : CaseTable⦄ {S : Type 0} (protected : List Text) where
  in_hive-Keeps :
      (w : Windows (Logged S)) (hive : Text) (change : Change (Logged S))
      → ChangeKeeps (Spared protected) change
      → ChangeKeeps (Spared protected) (in_hive w hive change)
  in_hive-Keeps w hive change k =
      guarded-Keeps protected (validate_hive hive) (λ u. change) (λ u e. k)

  module _ (w : Windows S) (elevated : Bool) where
    abbrev W : Windows (Logged S)
    W = logged w

    abbrev G : Guard
    G = new_executor protected

    set_options-kept :
        (names : List Text) (value : ℕ) (errs : List Err) (s : Logged S)
        → Spared protected s
        → Spared protected (set_options W names value errs s).1
    unfolding set_options
    set_options-kept [] value errs s h = h
    set_options-kept (name ∷ names) value errs s h = set_options-kept names value _ _ h

    on_interfaces-kept :
        (r : Result (List Text)) (value : ℕ) (s : Logged S)
        → Spared protected s
        → Spared protected (on_interfaces W r value s).1
    on_interfaces-kept (err e) value s h = h
    on_interfaces-kept (ok names) value s h = set_options-kept names value [] s h

    if-kept :
        (b : Bool) (e : Option Err) (s : Logged S) (r : Option Err × Logged S)
        → Spared protected s
        → Spared protected r.1
        → Spared protected (if b then (e, s) else r).1
    if-kept true e s r h k = h
    if-kept false e s r h k = k

    netbios_set_options-Keeps :
        (value : ℕ) → ChangeKeeps (Spared protected) (netbios_set_options W value)
    unfolding netbios_set_options
    netbios_set_options-Keeps value = record {
      kept = λ s h.
          if-kept (ltb 2 value) _ s _ h
            (on_interfaces-kept (W.enum_subkeys (codes "HKLM") netbt_interfaces_path s) value s h);
    }

    run_as-kept :
        (e : Bool) (path : Option Text) (cmdline : Text) (args : List Text) (s : Logged S)
        → Spared protected s
        → Spared protected (run_as W e path cmdline args s).1
    run_as-kept true none cmdline args s h = h
    run_as-kept false none cmdline args s h = h
    run_as-kept true (some path) cmdline args s h = h
    run_as-kept false (some path) cmdline args s h = h

    run_command-Keeps :
        (cmdline : Text) (args : List Text)
        → ChangeKeeps (Spared protected) (run_command W G elevated cmdline args)
    unfolding run_command
    run_command-Keeps cmdline args = record {
      kept = λ s h. run_as-kept elevated _ cmdline args s h;
    }

    appx_remove-Keeps : (name : Text) → ChangeKeeps (Spared protected) (appx_remove W name)
    unfolding appx_remove
    appx_remove-Keeps name = record { kept = λ s h. h }

    power_set_processor_state-Keeps :
        (a b : ℕ) → ChangeKeeps (Spared protected) (power_set_processor_state W a b)
    unfolding power_set_processor_state
    power_set_processor_state-Keeps a b = record {
      kept = λ s h. if-kept _ _ s _ h (if-kept (ltb b a) _ s _ h h);
    }

    service_start-Keeps :
        (name : Text) → ChangeKeeps (Spared protected) (service_start W.services G name)
    unfolding service_start
    service_start-Keeps name = guarded-Keeps protected _ _ (λ u e.
        noting-Keeps protected name (w.services.start name) (mutable-free protected name u e))

    service_stop-Keeps :
        (name : Text) → ChangeKeeps (Spared protected) (service_stop W.services G name)
    unfolding service_stop
    service_stop-Keeps name = guarded-Keeps protected _ _ (λ u e.
        noting-Keeps protected name (w.services.stop name) (mutable-free protected name u e))

    service_set_start_mode-Keeps :
        (name mode : Text)
        → ChangeKeeps (Spared protected) (service_set_start_mode W.services G name mode)
    unfolding service_set_start_mode
    service_set_start_mode-Keeps name mode = guarded-Keeps protected _ _ (λ u e.
        guarded-Keeps protected (parse_start_mode mode) _ (λ m e'.
          noting-Keeps protected name (w.services.set_start_mode name m)
            (mutable-free protected name u e)))

    engine_executor-Keeps : Keeps (Spared protected) (engine_executor W G elevated)
    unfolding engine_executor
    engine_executor-Keeps = record {
      set_dword = λ h p n v. in_hive-Keeps W h _ (plain-Keeps protected (w.set_dword h p n v));
      set_string = λ h p n v. in_hive-Keeps W h _ (plain-Keeps protected (w.set_string h p n v));
      set_expand_string =
          λ h p n v. in_hive-Keeps W h _ (plain-Keeps protected (w.set_expand_string h p n v));
      set_qword = λ h p n v. in_hive-Keeps W h _ (plain-Keeps protected (w.set_qword h p n v));
      delete_value = λ h p n. in_hive-Keeps W h _ (plain-Keeps protected (w.delete_value h p n));
      delete_key_tree = λ h p. in_hive-Keeps W h _ (plain-Keeps protected (w.delete_key_tree h p));
      set_start_mode = service_set_start_mode-Keeps;
      start = service_start-Keeps;
      stop = service_stop-Keeps;
      task_disable = λ p. plain-Keeps protected (w.task_disable p);
      task_enable = λ p. plain-Keeps protected (w.task_enable p);
      task_delete = λ p. plain-Keeps protected (w.task_delete p);
      appx_remove = appx_remove-Keeps;
      run_command = run_command-Keeps;
      set_active = λ g.
          guarded-Keeps protected (resolve g) _
            (λ guid e. plain-Keeps protected (w.power_set_active guid));
      set_hibernate = λ b. plain-Keeps protected (w.set_hibernate b);
      set_processor_state = power_set_processor_state-Keeps;
      set_options = netbios_set_options-Keeps;
    }

    -- Whatever tweak is applied, in a dry run or not, or undone by its revert list, and whatever entry of
    -- the log is undone: every call that starts or stops a service or sets its start mode is for a
    -- service that is not protected, in any spelling of its case, and this holds for every Windows and
    -- every log. Of writes to the registry and of commands it says nothing.
    pub apply-undo-Spared :
        {L : Type 0} (logger : Option (Logger L)) (t : Tweak) (e : Entry) (dry_run : Bool) (s : S)
        (l : L)
        → let E = engine_executor W G elevated in
          Spared protected (apply E logger t dry_run (untouched s l)).1.sys
          × Spared protected (undo E logger t (untouched s l)).1.sys
          × Spared protected (undo_entry E logger e (untouched s l)).1.sys
    apply-undo-Spared logger t e dry_run s l = (
      apply-kept (Spared protected) _ engine_executor-Keeps logger t dry_run _ tt,
      undo-kept (Spared protected) _ engine_executor-Keeps logger t _ tt,
      undo_entry-kept (Spared protected) _ engine_executor-Keeps logger e _ tt,
    )
