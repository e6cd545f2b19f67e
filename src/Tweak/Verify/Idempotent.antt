-- ===== src/Tweak/Verify/Idempotent.antt =====
-- A tweak that is in its target state is left alone.
use winforge.Prelude.{
  ℕ, Bool, true, false, not, Option, none, some, List, [], ◌∷◌, ◌≡◌, refl, sym, arith, all, any,
  ◌==◌,
}
use mathlib.Core.Path.{subst}
use winforge.Text.{Text, CaseTable, text_eq}
use winforge.Text.Laws.{text_eq_refl, text_eq_iff}
use winforge.Decimal.{format_uint}
use winforge.Errors.{Err, Result, ok, err}
use winforge.Config.{
  OpType, Operation, Tweak, registry_set_dword, registry_set_string, registry_set_qword,
  registry_delete, registry_delete_key, service_start_mode, power_scheme, power_hibernate,
  power_processor_state, netbios,
}
use winforge.Config.Values.{dword_value, string_value, qword_value, netbios_value}
use winforge.Audit.Entry.{Logger, dword, qword, string}
use winforge.Tweak.Executor.{Executor}
use winforge.Tweak.Snapshot.{value_exists}
use winforge.Tweak.Snapshot.View.{snapshot_of, registry_snapshot-view}
use winforge.Tweak.Effect.{Effect, TweakResult, new_effect, effect_error, or_effect, commit}
use winforge.Tweak.Apply.{
  set_value, delete_value, delete_key, set_hibernate, set_target, set_netbios, set_start_mode,
  set_scheme, set_processor_state, apply_as, apply_op,
}
use winforge.Tweak.Capture.{set_effect}
use winforge.Tweak.Orchestrator.{World, audit, apply_one, apply_all, new_result, apply}
use winforge.Tweak.Verify.{is_verifiable, can_verify, holds, holds_of, matches_as, is_applied}
use winforge.Tweak.Laws.{
  RegValue, reg_dword, reg_qword, reg_string, reg_expand, reg_other, RegistryView, RegistryLaws,
  read_dword, read_qword, read_string,
}
use winforge.Tweak.UndoEntry.RoundTrip.{place}

-- nothing was attempted, and the state is as it was
abbrev Untouched : {S : Type 0} → S → Effect × S → Type 0
Untouched s (eff, s') = (eff.attempted ≡ false) × (s' ≡ s)

module _ {S : Type 0} (x : Text → Text) (m : RegValue → Err) (op : Operation)
    (write : S → Option Err × S) (s : S) where
  dword-Untouched :
      (v : ℕ) (o : Option RegValue)
      → holds_of (read_dword m o) (λ cur. cur == v) ≡ true
      → Untouched s (
          or_effect
            (new_effect op)
            (snapshot_of x m o)
            (λ snap. commit false (set_effect op dword (format_uint v) snap) write)
            s)
  unfolding commit new_effect
  dword-Untouched v (some (reg_dword cur)) h =
      ground (arith, text_eq_refl (format_uint v), text_eq_iff (format_uint cur) (format_uint v))
  dword-Untouched v none h = cc
  dword-Untouched v (some (reg_qword cur)) h = cc
  dword-Untouched v (some (reg_string cur)) h = cc
  dword-Untouched v (some (reg_expand cur)) h = cc
  dword-Untouched v (some reg_other) h = cc

  qword-Untouched :
      (v : ℕ) (o : Option RegValue)
      → holds_of (read_qword m o) (λ cur. cur == v) ≡ true
      → Untouched s (
          or_effect
            (new_effect op)
            (snapshot_of x m o)
            (λ snap. commit false (set_effect op qword (format_uint v) snap) write)
            s)
  unfolding commit new_effect
  qword-Untouched v (some (reg_qword cur)) h =
      ground (arith, text_eq_refl (format_uint v), text_eq_iff (format_uint cur) (format_uint v))
  qword-Untouched v none h = cc
  qword-Untouched v (some (reg_dword cur)) h = cc
  qword-Untouched v (some (reg_string cur)) h = cc
  qword-Untouched v (some (reg_expand cur)) h = cc
  qword-Untouched v (some reg_other) h = cc

  string-Untouched :
      (v : Text) (o : Option RegValue)
      → holds_of (read_string x m o) (λ cur. text_eq cur v) ≡ true
      → Untouched s (
          or_effect
            (new_effect op)
            (snapshot_of x m o)
            (λ snap. commit false (set_effect op string v snap) write)
            s)
  unfolding commit new_effect
  string-Untouched v (some (reg_string cur)) h = ground arith
  string-Untouched v none h = cc
  string-Untouched v (some (reg_dword cur)) h = cc
  string-Untouched v (some (reg_qword cur)) h = cc
  string-Untouched v (some (reg_expand cur)) h = ground arith
  string-Untouched v (some reg_other) h = cc

any-all :
    (v : ℕ) (m : List (Text × ℕ))
    → all (λ e. e.1 == v) m ≡ true
    → any (λ e. not (e.1 == v)) m ≡ false
any-all v [] h = refl
any-all v (e ∷ m) h = ground (arith, any-all v m)

module _ {S : Type 0} (op : Operation) (s : S) where
  matched-Untouched {ℓ} :
      {A : Type ℓ} (r : Result A) (test : A → Bool) (rest : A → S → Effect × S)
      → ((a : A) → test a ≡ true → Untouched s (rest a s))
      → holds r test ≡ true
      → Untouched s (or_effect (new_effect op) r rest s)
  matched-Untouched (ok a) test rest k h = k a h
  matched-Untouched (err e) test rest k h = cc

module _ ⦃c : CaseTable⦄ {S : Type 0} (E : Executor S) (V : RegistryView S)
    (laws : RegistryLaws E V) where
  set_dword-Untouched :
      (op : Operation) (s : S)
      → matches_as E registry_set_dword op s ≡ true
      → Untouched s (apply_as E registry_set_dword op false s)
  unfolding matches_as apply_as set_value
  set_dword-Untouched op s = matched-Untouched op s (dword_value op) _ _ λ v k.
      rw (registry_snapshot-view E V laws (place op) s) (
        dword-Untouched (V.expand s) (V.mismatch (place op)) op
          (E.registry_set_dword op.hive op.path op.name v) s v (V.view (place op) s)
          (rw (laws.get_dword (place op) s) at k))

  set_qword-Untouched :
      (op : Operation) (s : S)
      → matches_as E registry_set_qword op s ≡ true
      → Untouched s (apply_as E registry_set_qword op false s)
  unfolding matches_as apply_as set_value
  set_qword-Untouched op s = matched-Untouched op s (qword_value op) _ _ λ v k.
      rw (registry_snapshot-view E V laws (place op) s) (
        qword-Untouched (V.expand s) (V.mismatch (place op)) op
          (E.registry_set_qword op.hive op.path op.name v) s v (V.view (place op) s)
          (rw (laws.get_qword (place op) s) at k))

  set_string-Untouched :
      (op : Operation) (s : S)
      → matches_as E registry_set_string op s ≡ true
      → Untouched s (apply_as E registry_set_string op false s)
  unfolding matches_as apply_as set_value
  set_string-Untouched op s = matched-Untouched op s (string_value op) _ _ λ v k.
      rw (registry_snapshot-view E V laws (place op) s) (
        string-Untouched (V.expand s) (V.mismatch (place op)) op
          (E.registry_set_string op.hive op.path op.name v) s v (V.view (place op) s)
          (rw (laws.get_string (place op) s) at k))

  set_netbios-Untouched :
      (op : Operation) (s : S)
      → matches_as E netbios op s ≡ true
      → Untouched s (set_netbios E false op s)
  unfolding matches_as set_netbios commit new_effect
  set_netbios-Untouched op s = matched-Untouched op s (netbios_value op) _ _ λ v.
      matched-Untouched op s (E.netbios_get_options s) _ _ λ cur k. ground (arith, any-all v cur k)

  apply_as-Untouched :
      (type : OpType) (op : Operation) (s : S)
      → is_verifiable type ≡ true
      → matches_as E type op s ≡ true
      → Untouched s (apply_as E type op false s)
  unfolding matches_as apply_as is_verifiable delete_value delete_key set_hibernate set_target
      set_netbios set_start_mode set_scheme set_processor_state commit effect_error new_effect
      value_exists
  apply_as-Untouched registry_set_dword op s v h = set_dword-Untouched op s h
  apply_as-Untouched registry_set_qword op s v h = set_qword-Untouched op s h
  apply_as-Untouched registry_set_string op s v h = set_string-Untouched op s h
  apply_as-Untouched registry_delete op s v h = ground arith
  apply_as-Untouched registry_delete_key op s v h = ground arith
  apply_as-Untouched service_start_mode op s v h = ground arith
  apply_as-Untouched power_scheme op s v h = ground arith
  apply_as-Untouched power_hibernate op s v h = ground arith
  apply_as-Untouched power_processor_state op s v h = ground arith
  apply_as-Untouched netbios op s v h = set_netbios-Untouched op s h
  apply_as-Untouched _ op s v h = cc

  apply_op-Untouched :
      (op : Operation) (s : S)
      → is_verifiable op.op_type ≡ true
      → matches_as E op.op_type op s ≡ true
      → Untouched s (apply_op E op false s)
  unfolding apply_op
  apply_op-Untouched op s = apply_as-Untouched op.op_type op s

  module _ {L : Type 0} (logger : Option (Logger L)) where
    apply_one-matched :
        (t : Tweak) (op : Operation) (res : TweakResult) (w : World S L)
        → is_verifiable op.op_type ≡ true
        → matches_as E op.op_type op w.sys ≡ true
        → (apply_one E logger t false op res w).1 ≡ w
    unfolding apply_one audit
    apply_one-matched t op res w v h =
        let (untried, same) = apply_op-Untouched op w.sys v h in ground arith

    apply_all-matched :
        (t : Tweak) (ops : List Operation) (res : TweakResult) (w : World S L)
        → all (λ op. is_verifiable op.op_type) ops ≡ true
        → all (λ op. matches_as E op.op_type op w.sys) ops ≡ true
        → (apply_all E logger t false ops res w).1 ≡ w
    unfolding apply_all
    apply_all-matched t [] res w v h = refl
    apply_all-matched t (op ∷ ops) res w v h =
        let step = apply_one-matched t op res w (ground arith) (ground arith) in
        let out = apply_one E logger t false op res w in
        subst (λ (u : World S L). (apply_all E logger t false ops out.0 u).1 ≡ w) (sym step)
          (apply_all-matched t ops out.0 w (ground arith) (ground arith))

    -- For an executor that obeys the laws of the registry: applying a tweak that IsApplied reports
    -- as applied leaves the system and the audit log as they are.
    pub apply-is_applied :
        (t : Tweak) (w : World S L) → is_applied E t w.sys ≡ true → (apply E logger t false w).1 ≡ w
    unfolding apply is_applied can_verify
    apply-is_applied t w h =
        apply_all-matched t t.operations (new_result t false) w (ground arith) (ground arith)
