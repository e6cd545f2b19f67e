-- ===== src/Tweak/Orchestrator/DryRun.antt =====
-- A dry run changes nothing, and reports what a real run would attempt.
use winforge.Prelude.{true, false, Option, List, [], ◌∷◌, ◌≡◌, refl, arith, ◌∙◌}
use winforge.Text.{CaseTable}
use winforge.Config.{OpType, Operation, Tweak, registry_set_dword, other_op}
use winforge.Audit.Entry.{Logger}
use winforge.Tweak.Executor.{Executor}
use winforge.Tweak.Effect.{TweakResult, new_effect}
use winforge.Tweak.Apply.{
  set_value, delete_value, delete_key, set_hibernate, set_target, set_netbios, run_unary,
  set_start_mode, set_scheme, set_processor_state, apply_as, apply_op,
}
use winforge.Tweak.Orchestrator.{World, audit, apply_one, apply_all, apply}

module _ {S : Type 0} (E : Executor S) where
  apply_as_dry :
      ⦃c : CaseTable⦄ (type : OpType) (op : Operation) (s : S) → (apply_as E type op true s).1 ≡ s
  unfolding apply_as set_value delete_value delete_key set_hibernate set_target set_netbios
      run_unary set_start_mode set_scheme set_processor_state
  apply_as_dry registry_set_dword op s = ground arith
  apply_as_dry (other_op name) op s = refl
  apply_as_dry _ op s = ground arith

  apply_op_dry : ⦃c : CaseTable⦄ (op : Operation) (s : S) → (apply_op E op true s).1 ≡ s
  unfolding apply_op
  apply_op_dry op s = apply_as_dry op.op_type op s

  -- A dry run of an operation and a real run from the same state report the same previous value,
  -- the same new value and the same flag `changed`. The real run attempts a write exactly where
  -- the dry run reports a change; the dry run attempts and applies none.
  pub apply_as_predicted :
      ⦃c : CaseTable⦄ (type : OpType) (op : Operation) (s : S)
      → let plan = (apply_as E type op true s).0 in
        let run = (apply_as E type op false s).0 in
        (run.previous_value ≡ plan.previous_value)
        × (run.new_value ≡ plan.new_value)
        × (run.changed ≡ plan.changed)
        × (run.attempted ≡ plan.changed)
        × (plan.attempted ≡ false)
        × (plan.applied ≡ false)
  unfolding apply_as set_value delete_value delete_key set_hibernate set_target set_netbios
      run_unary set_start_mode set_scheme set_processor_state new_effect
  apply_as_predicted registry_set_dword op s = ground arith
  apply_as_predicted (other_op name) op s = ground arith
  apply_as_predicted _ op s = ground arith

  -- Where the dry run reports no change, the real run has the same report and changes nothing.
  apply_as_unchanged :
      ⦃c : CaseTable⦄ (type : OpType) (op : Operation) (s : S)
      → (apply_as E type op true s).0.changed ≡ false
      → apply_as E type op false s ≡ apply_as E type op true s
  unfolding apply_as set_value delete_value delete_key set_hibernate set_target set_netbios
      run_unary set_start_mode set_scheme set_processor_state new_effect
  apply_as_unchanged registry_set_dword op s h = ground arith
  apply_as_unchanged (other_op name) op s h = ground arith
  apply_as_unchanged _ op s h = ground arith

module _ ⦃c : CaseTable⦄ {S L : Type 0} (E : Executor S) (logger : Option (Logger L)) where
  apply_one_dry :
      (t : Tweak) (op : Operation) (res : TweakResult) (w : World S L)
      → (apply_one E logger t true op res w).1 ≡ w
  unfolding apply_one audit
  apply_one_dry t op res w i = record { sys = apply_op_dry E op w.sys i; log = w.log }

  apply_all_dry :
      (t : Tweak) (ops : List Operation) (res : TweakResult) (w : World S L)
      → (apply_all E logger t true ops res w).1 ≡ w
  unfolding apply_all
  apply_all_dry t [] res w = refl
  apply_all_dry t (op ∷ ops) res w =
      let (res', w') = apply_one E logger t true op res w in
      apply_all_dry t ops res' w' ∙ apply_one_dry t op res w

  -- A dry run leaves the system and the audit log as they are, whatever the tweak and however the
  -- reads turn out.
  pub apply_dry : (t : Tweak) (w : World S L) → (apply E logger t true w).1 ≡ w
  unfolding apply
  apply_dry t w = apply_all_dry t t.operations _ w
