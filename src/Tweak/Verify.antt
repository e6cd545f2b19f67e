-- ===== src/Tweak/Verify.antt =====
-- internal/tweak/orchestrator.go: CanVerify, IsApplied and EnsureApplied.
pub mod Idempotent
pub mod Reaches
pub mod Settings
pub mod Applied
use winforge.Prelude.{
  ℕ, zero, suc, Bool, true, false, ◌&&◌, ◌||◌, not, Option, none, some, List, [], ◌∷◌, ◌++◌, all,
  ltb, ◌==◌, if◌then◌else◌,
}
use winforge.Text.{Text, text_eq, equal_fold, CaseTable}
use winforge.Errors.{Err, Result, ok, err, ◌>>=◌, wrapped}
use winforge.Config.{
  OpType, Operation, Tweak, registry_set_dword, registry_set_string, registry_set_qword,
  registry_delete, registry_delete_key, service_start_mode, power_scheme, power_hibernate,
  power_processor_state, netbios,
}
use winforge.Config.Values.{
  dword_value, string_value, qword_value, bool_value, processor_state_value, netbios_value,
}
use winforge.Power
use winforge.Audit.Entry.{Logger}
use winforge.Tweak.Executor.{Executor}
use winforge.Tweak.Snapshot.{value_exists}
use winforge.Tweak.Effect.{TweakResult, failure}
use winforge.Tweak.Capture.{normalized_service_start_mode, differs}
use winforge.Tweak.Orchestrator.{World, apply}

unfoldable pub is_verifiable : OpType → Bool
is_verifiable registry_set_dword = true
is_verifiable registry_set_string = true
is_verifiable registry_set_qword = true
is_verifiable registry_delete = true
is_verifiable registry_delete_key = true
is_verifiable service_start_mode = true
is_verifiable power_scheme = true
is_verifiable power_hibernate = true
is_verifiable power_processor_state = true
is_verifiable netbios = true
is_verifiable _ = false

unfoldable pub can_verify : Tweak → Bool
unfolding is_verifiable
can_verify t = all (λ op. is_verifiable op.op_type) t.operations

-- `if err != nil || !test { return false }`
abbrev pub holds {ℓ} : {A : Type ℓ} → Result A → (A → Bool) → Bool
holds (ok a) test = test a
holds (err e) test = false

-- the same for a value that must exist
abbrev pub holds_of {ℓ} : {A : Type ℓ} → Result (Option A) → (A → Bool) → Bool
holds_of (ok (some a)) test = test a
holds_of (ok none) test = false
holds_of (err e) test = false

-- a bound that is given must be the current one
abbrev pub meets : Option ℕ → ℕ → Bool
meets none current = true
meets (some v) current = current == v

module _ ⦃c : CaseTable⦄ {S : Type 0} (E : Executor S) where
  -- the switch of IsApplied
  unfoldable pub matches_as : OpType → Operation → S → Bool
  matches_as registry_set_dword op s =
      holds (dword_value op)
        λ v. holds_of (E.registry_get_dword op.hive op.path op.name s) λ cur. cur == v
  matches_as registry_set_string op s =
      holds (string_value op)
        λ v. holds_of (E.registry_get_string op.hive op.path op.name s) λ cur. text_eq cur v
  matches_as registry_set_qword op s =
      holds (qword_value op)
        λ v. holds_of (E.registry_get_qword op.hive op.path op.name s) λ cur. cur == v
  matches_as registry_delete op s = holds (value_exists E op.hive op.path op.name s) not
  matches_as registry_delete_key op s = holds (E.registry_key_exists op.hive op.path s) not
  matches_as service_start_mode op s =
      holds (normalized_service_start_mode op)
        λ mode. holds (E.service_get_start_mode op.name s) λ cur. equal_fold cur mode
  matches_as power_scheme op s =
      holds (do value ← string_value op; Power.resolve value)
        λ guid. holds (E.power_get_active s) λ cur. equal_fold cur guid
  matches_as power_hibernate op s =
      holds (bool_value op)
        λ enable. holds (E.power_hibernate_enabled s) λ cur. not (differs cur enable)
  matches_as power_processor_state op s =
      holds (processor_state_value op)
        λ ps. holds (E.power_get_processor_state s) λ cur. meets ps.min cur.0 && meets ps.max cur.1
  matches_as netbios op s =
      holds (netbios_value op)
        λ v. holds (E.netbios_get_options s) λ cur. all (λ entry. entry.1 == v) cur
  matches_as _ op s = true

  unfoldable pub is_applied : Tweak → S → Bool
  unfolding can_verify matches_as
  is_applied t s = can_verify t && all (λ op. matches_as op.op_type op s) t.operations

  module _ {L : Type 0} (logger : Option (Logger L)) where
    abbrev ensured : Text → TweakResult → List Text × List Err → List Text × List Err
    ensured id res (applied, errs) = elim (failure res) [
      | some e ↦ (applied, errs ++ wrapped e ∷ [])
      | none ↦ if ltb 0 res.changed then (applied ++ id ∷ [], errs) else (applied, errs)
    ]

    unfoldable pub ensure_from :
        List Tweak → List Text × List Err → World S L → (List Text × List Err) × World S L
    ensure_from [] out w = (out, w)
    ensure_from (t ∷ ts) out w = elim (not (can_verify t) || is_applied t w.sys) [
      | true ↦ ensure_from ts out w
      | false ↦ let (res, w') = apply E logger t false w in ensure_from ts (ensured t.id res out) w'
    ]

    unfoldable pub ensure_applied : List Tweak → World S L → (List Text × List Err) × World S L
    unfolding ensure_from
    ensure_applied tweaks w = ensure_from tweaks ([], []) w
