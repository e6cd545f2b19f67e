-- ===== src/Tweak/UndoEntry/Captured.antt =====
-- What the effect of a registry operation keeps of the value that was there.
use winforge.Prelude.{Bool, true, none, ◌≡◌, refl, arith}
use winforge.Text.{Text, CaseTable}
use winforge.Decimal.{format_uint}
use winforge.Errors.{Result, ok, err}
use winforge.Config.{
  OpType, Operation, registry_set_dword, registry_set_string, registry_set_qword, registry_delete,
}
use winforge.Config.Values.{dword_value, string_value, qword_value}
use winforge.Audit.Entry.{ValueType, dword, qword, string}
use winforge.Tweak.Executor.{Executor, Change}
use winforge.Tweak.Snapshot.{Snapshot, registry_snapshot}
use winforge.Tweak.Effect.{Effect, new_effect, effect_error, or_effect, commit}
use winforge.Tweak.Apply.{set_value, delete_value, apply_as}
use winforge.Tweak.Capture.{set_effect, delete_effect}
use winforge.Tweak.Orchestrator.{is_registry_op}

-- The effect carries the snapshot that was taken.
pub record Carries (op : Operation) (eff : Effect) (snap : Snapshot) : Type 0 where
  pub is_captured : eff.previous_value_captured ≡ true
  pub same_exists : eff.previous_value_exists ≡ snap.exists
  pub same_value : eff.previous_value ≡ snap.value
  pub same_type : eff.previous_value_type ≡ snap.value_type
  pub same_target : eff.target ≡ (new_effect op).target

abbrev pub Captures : Operation → Effect → Result Snapshot → Type 0
Captures op eff (ok snap) = Carries op eff snap
Captures op eff (err e) = ⊥

module _ {S : Type 0} where
  commit-Carries :
      (op : Operation) (dry : Bool) (eff : Effect) (change : Change S) (s : S) (snap : Snapshot)
      → Carries op eff snap
      → Carries op (commit dry eff change s).0 snap
  unfolding commit
  commit-Carries op dry eff change s snap h = ground arith

  commit-Captures :
      (op : Operation) (r : Result Snapshot) (dry : Bool) (plan : Snapshot → Effect)
      (change : Change S) (s : S)
      → ((snap : Snapshot) → Carries op (plan snap) snap)
      → (or_effect (new_effect op) r (λ snap. commit dry (plan snap) change) s).0.error ≡ none
      → Captures op (or_effect (new_effect op) r (λ snap. commit dry (plan snap) change) s).0 r
  unfolding effect_error
  commit-Captures op (ok snap) dry plan change s h e =
      commit-Carries op dry (plan snap) change s snap (h snap)
  commit-Captures op (err cause) dry plan change s h e = cc

module _ {S : Type 0} (E : Executor S) where
  set_value-Captures :
      (dry : Bool) (op : Operation) (type : ValueType) (new : Text) (write : Change S) (s : S)
      → (set_value E dry op type new write s).0.error ≡ none
      → Captures op
          (set_value E dry op type new write s).0
          (registry_snapshot E op.hive op.path op.name s)
  unfolding set_value
  set_value-Captures dry op type new write s =
      commit-Captures op (registry_snapshot E op.hive op.path op.name s) dry
        (set_effect op type new) write s
        λ snap. record {
          is_captured = refl;
          same_exists = refl;
          same_value = refl;
          same_type = refl;
          same_target = refl;
        }

  delete_value-Captures :
      (dry : Bool) (op : Operation) (s : S)
      → (delete_value E dry op s).0.error ≡ none
      → Captures op (delete_value E dry op s).0 (registry_snapshot E op.hive op.path op.name s)
  unfolding delete_value
  delete_value-Captures dry op s =
      commit-Captures op (registry_snapshot E op.hive op.path op.name s) dry (delete_effect op)
        (E.registry_delete_value op.hive op.path op.name) s
        λ snap. record {
          is_captured = refl;
          same_exists = refl;
          same_value = refl;
          same_type = refl;
          same_target = refl;
        }

  decoded-Captures {ℓ} :
      {A : Type ℓ} (op : Operation) (r : Result A) (rest : A → S → Effect × S) (s : S)
      (q : Result Snapshot)
      → ((a : A) → (rest a s).0.error ≡ none → Captures op (rest a s).0 q)
      → (or_effect (new_effect op) r rest s).0.error ≡ none
      → Captures op (or_effect (new_effect op) r rest s).0 q
  unfolding effect_error
  decoded-Captures op (ok a) rest s q h e = h a e
  decoded-Captures op (err cause) rest s q h e = cc

  -- A registry operation that succeeds, in a real run or a dry one, carries the snapshot of the
  -- value that it is about.
  pub apply_as-Captures :
      ⦃c : CaseTable⦄ (type : OpType) (op : Operation) (dry : Bool) (s : S)
      → is_registry_op type ≡ true
      → (apply_as E type op dry s).0.error ≡ none
      → Captures op (apply_as E type op dry s).0 (registry_snapshot E op.hive op.path op.name s)
  unfolding apply_as is_registry_op
  apply_as-Captures registry_set_dword op dry s h =
      decoded-Captures op (dword_value op) _ s _
        λ v. set_value-Captures dry op dword (format_uint v) _ s
  apply_as-Captures registry_set_qword op dry s h =
      decoded-Captures op (qword_value op) _ s _
        λ v. set_value-Captures dry op qword (format_uint v) _ s
  apply_as-Captures registry_set_string op dry s h =
      decoded-Captures op (string_value op) _ s _ λ v. set_value-Captures dry op string v _ s
  apply_as-Captures registry_delete op dry s h = delete_value-Captures dry op s
  apply_as-Captures _ op dry s h = cc
