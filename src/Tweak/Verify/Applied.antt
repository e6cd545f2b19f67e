-- ===== src/Tweak/Verify/Applied.antt =====
-- Applying an operation and checking it agree.
use winforge.Prelude.{false, true, none, ◌≡◌, ◌==◌}
use winforge.Text.{CaseTable, text_eq}
use winforge.Config.{
  OpType, Operation, registry_set_dword, registry_set_string, registry_set_qword, registry_delete,
  registry_delete_key, service_start_mode, power_scheme, power_hibernate, power_processor_state,
  netbios,
}
use winforge.Config.Values.{dword_value, string_value, qword_value}
use winforge.Tweak.Executor.{Executor}
use winforge.Tweak.Apply.{apply_as, apply_op}
use winforge.Tweak.Verify.{is_verifiable, holds_of, matches_as}
use winforge.Tweak.Laws.{RegistryView, RegistryLaws, SettingLaws}
use winforge.Tweak.Verify.Reaches.{dword_reached, qword_reached, string_reached, deleted_reached}
use winforge.Tweak.Verify.Settings.{
  decoded_holds, key_reached, start_mode_reached, scheme_reached, hibernate_reached,
  netbios_reached, processor_state_reached,
}

module _ ⦃c : CaseTable⦄ {S : Type 0} (E : Executor S) (V : RegistryView S)
    (laws : RegistryLaws E V) (settings : SettingLaws E) where
  apply_as-matches :
      (type : OpType) (op : Operation) (s : S)
      → is_verifiable type ≡ true
      → (apply_as E type op false s).0.error ≡ none
      → matches_as E type op (apply_as E type op false s).1 ≡ true
  unfolding apply_as matches_as is_verifiable
  apply_as-matches registry_set_dword op s v =
      decoded_holds op (dword_value op)
        (λ n s'. holds_of (E.registry_get_dword op.hive op.path op.name s') λ cur. cur == n) _ s
        λ n. dword_reached E V laws op s n
  apply_as-matches registry_set_qword op s v =
      decoded_holds op (qword_value op)
        (λ n s'. holds_of (E.registry_get_qword op.hive op.path op.name s') λ cur. cur == n) _ s
        λ n. qword_reached E V laws op s n
  apply_as-matches registry_set_string op s v =
      decoded_holds op (string_value op)
        (λ t s'. holds_of (E.registry_get_string op.hive op.path op.name s') λ cur. text_eq cur t) _
        s λ t. string_reached E V laws op s t
  apply_as-matches registry_delete op s v = deleted_reached E V laws op s
  apply_as-matches registry_delete_key op s v = key_reached E settings op s
  apply_as-matches service_start_mode op s v = start_mode_reached E settings op s
  apply_as-matches power_scheme op s v = scheme_reached E settings op s
  apply_as-matches power_hibernate op s v = hibernate_reached E settings op s
  apply_as-matches power_processor_state op s v = processor_state_reached E settings op s
  apply_as-matches netbios op s v = netbios_reached E settings op s
  apply_as-matches _ op s v = λ h. cc

  -- For an executor that obeys the laws of the registry and of the other settings: an operation of
  -- a verifiable type that is applied without an error has reached its target, and the test that
  -- IsApplied makes of it holds in the state that it leaves.
  pub apply_op-matches :
      (op : Operation) (s : S)
      → is_verifiable op.op_type ≡ true
      → (apply_op E op false s).0.error ≡ none
      → matches_as E op.op_type op (apply_op E op false s).1 ≡ true
  unfolding apply_op
  apply_op-matches op s = apply_as-matches op.op_type op s
