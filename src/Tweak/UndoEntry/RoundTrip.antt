-- ===== src/Tweak/UndoEntry/RoundTrip.antt =====
-- Undoing an audit entry puts back the registry value that the operation found.
use winforge.Prelude.{
  ℕ, true, false, Option, none, some, [], ◌∷◌, ◌≡◌, refl, ap, ◌∙◌, arith, if◌then◌else◌,
}
use mathlib.Core.Path.{subst}
use winforge.Text.{Text, CaseTable, trim_space, is_empty}
use winforge.Text.Laws.{text_eq_refl}
use winforge.Decimal.RoundTrip.{parse_uint-format_uint}
use winforge.Errors.{Err, Result, ok, err}
use winforge.Config.{
  OpType, Operation, Tweak, registry_set_dword, registry_set_string, registry_set_qword,
  registry_delete,
}
use winforge.Audit.Entry.{Entry}
use winforge.Tweak.Executor.{Executor}
use winforge.Tweak.Snapshot.{Snapshot}
use winforge.Tweak.Snapshot.View.{snapshot_of, registry_snapshot-view}
use winforge.Tweak.Effect.{Effect, new_effect, target_of}
use winforge.Tweak.Apply.{apply_op}
use winforge.Tweak.Orchestrator.{is_registry_op, entry_of}
use winforge.Tweak.UndoEntry.{write_parsed, restore_entry}
use winforge.Tweak.EntryCheck.{is_hive, value_target, validate_registry_entry_target}
use winforge.Tweak.UndoEntry.Captured.{Captures, apply_as-Captures}
use winforge.Tweak.Laws.{
  RegValue, reg_dword, reg_qword, reg_string, reg_expand, reg_other, Place, RegistryView,
  RegistryLaws, InRangeOption,
}

-- the entry's fields hold the snapshot
pub record Holds (e : Entry) (snap : Snapshot) : Type 0 where
  pub is_captured : e.previous_value_captured ≡ true
  pub same_exists : e.previous_value_exists ≡ snap.exists
  pub same_value : e.previous_value ≡ snap.value
  pub same_type : e.previous_value_type ≡ snap.value_type

abbrev HoldsResult : Entry → Result Snapshot → Type 0
HoldsResult e (ok snap) = Holds e snap
HoldsResult e (err cause) = ⊥

abbrev pub place_of : Entry → Place
place_of e = record { hive = e.registry_hive; path = e.registry_path; name = e.registry_name }

module _ {S : Type 0} (E : Executor S) (V : RegistryView S) where
  -- The one call that puts a value back, with the variables of a REG_EXPAND_SZ expanded. Nothing puts back a value of a type that is not read.
  abbrev pub put_back : (Text → Text) → Place → Option RegValue → S → Option Err × S
  put_back x p none s =
      write_parsed (snapshot_of (V.expand s) (V.mismatch p) (V.view p s))
        (λ snap s'.
          if snap.exists then E.registry_delete_value p.hive p.path p.name s' else (none, s'))
        s
  put_back x p (some (reg_dword v)) s = E.registry_set_dword p.hive p.path p.name v s
  put_back x p (some (reg_qword v)) s = E.registry_set_qword p.hive p.path p.name v s
  put_back x p (some (reg_string v)) s = E.registry_set_string p.hive p.path p.name v s
  put_back x p (some (reg_expand v)) s = E.registry_set_string p.hive p.path p.name (x v) s
  put_back x p (some reg_other) s = (none, s)

  restore_entry-put_back :
      ⦃c : CaseTable⦄ (laws : RegistryLaws E V) (x : Text → Text) (m : RegValue → Err) (e : Entry)
      (o : Option RegValue) (s : S)
      → validate_registry_entry_target e ≡ ok tt
      → is_empty e.registry_hive ≡ false
      → InRangeOption o
      → HoldsResult e (snapshot_of x m o)
      → restore_entry E e s ≡ put_back x (place_of e) o s
  unfolding restore_entry
  restore_entry-put_back laws x m e none s valid hive fits h =
      ground (arith, registry_snapshot-view E V laws (place_of e) s)
  restore_entry-put_back laws x m e (some (reg_dword v)) s valid hive fits h =
      ground (arith, parse_uint-format_uint 32 v (omega arith))
  restore_entry-put_back laws x m e (some (reg_qword v)) s valid hive fits h =
      ground (arith, parse_uint-format_uint 64 v (omega arith))
  restore_entry-put_back laws x m e (some (reg_string v)) s valid hive fits h = ground arith
  restore_entry-put_back laws x m e (some (reg_expand v)) s valid hive fits h = ground arith
  restore_entry-put_back laws x m e (some reg_other) s valid hive fits h = absurd h

is_hive-ne_empty : (h : Text) → is_hive h ≡ true → is_empty h ≡ false
unfolding is_hive
is_hive-ne_empty [] h = cc
is_hive-ne_empty (c ∷ h) e = refl

abbrev pub place : Operation → Place
place op = record { hive = op.hive; path = op.path; name = op.name }

-- an entry as the log keeps it: with an id and a time
abbrev pub logged : Tweak → Operation → Effect → Text → Option ℕ → Entry
logged t op eff id time = record (entry_of t op eff true) { id = id; timestamp = time }

-- What validateOperation checks of the target of a registry operation.
pub record IsTargeted (op : Operation) : Type 0 where
  pub on_value : is_registry_op op.op_type ≡ true
  pub known_hive : is_hive op.hive ≡ true
  pub has_path : is_empty (trim_space op.path) ≡ false

entry-valid :
    (t : Tweak) (op : Operation) (eff : Effect) (id : Text) (time : Option ℕ)
    → IsTargeted op
    → eff.target ≡ value_target op.hive op.path op.name
    → validate_registry_entry_target (logged t op eff id time) ≡ ok tt
unfolding validate_registry_entry_target entry_of
entry-valid t op eff id time h target =
    ground (arith, text_eq_refl (value_target op.hive op.path op.name))

target_of-value :
    (type : OpType) (op : Operation)
    → is_registry_op type ≡ true
    → target_of type op ≡ value_target op.hive op.path op.name
unfolding is_registry_op
target_of-value registry_set_dword op h = refl
target_of-value registry_set_string op h = refl
target_of-value registry_set_qword op h = refl
target_of-value registry_delete op h = refl
target_of-value _ op h = cc

Holds-logged :
    (t : Tweak) (op : Operation) (eff : Effect) (id : Text) (time : Option ℕ) (r : Result Snapshot)
    → Captures op eff r
    → HoldsResult (logged t op eff id time) r
unfolding entry_of
Holds-logged t op eff id time (ok snap) h = ground arith
Holds-logged t op eff id time (err e) h = h

target-Captures :
    (op : Operation) (eff : Effect) (r : Result Snapshot)
    → IsTargeted op
    → Captures op eff r
    → eff.target ≡ value_target op.hive op.path op.name
unfolding new_effect
target-Captures op eff (ok snap) h k = k.same_target ∙ target_of-value op.op_type op h.on_value
target-Captures op eff (err e) h k = absurd k

place-logged :
    (t : Tweak) (op : Operation) (eff : Effect) (id : Text) (time : Option ℕ)
    → is_registry_op op.op_type ≡ true
    → place_of (logged t op eff id time) ≡ place op
unfolding entry_of
place-logged t op eff id time h = ground arith

hive-logged :
    (t : Tweak) (op : Operation) (eff : Effect) (id : Text) (time : Option ℕ)
    → IsTargeted op
    → is_empty (logged t op eff id time).registry_hive ≡ false
unfolding entry_of
hive-logged t op eff id time h = ground (arith, is_hive-ne_empty op.hive)

module _ ⦃c : CaseTable⦄ {S : Type 0} (E : Executor S) (V : RegistryView S)
    (laws : RegistryLaws E V) where
  pub apply_op-Captures :
      (op : Operation) (s : S)
      → is_registry_op op.op_type ≡ true
      → (apply_op E op false s).0.error ≡ none
      → Captures op
          (apply_op E op false s).0
          (snapshot_of (V.expand s) (V.mismatch (place op)) (V.view (place op) s))
  unfolding apply_op
  apply_op-Captures op s h e =
      subst (Captures op (apply_op E op false s).0) (registry_snapshot-view E V laws (place op) s)
        (apply_as-Captures E op.op_type op false s h e)

  -- For an executor that obeys the laws of the registry: restoring, in any later state, from the
  -- entry of an operation on a registry value that went through makes exactly the call that puts
  -- back the value that the operation found; no check of the entry stands in the way. A REG_EXPAND_SZ
  -- is put back as a REG_SZ, with the variables expanded as they were in the state before the
  -- operation. The operation has a known hive and a path.
  pub restore_entry-apply_op :
      (t : Tweak) (op : Operation) (id : Text) (time : Option ℕ) (s later : S)
      → IsTargeted op
      → (apply_op E op false s).0.error ≡ none
      → restore_entry E (logged t op (apply_op E op false s).0 id time) later
        ≡ put_back E V (V.expand s) (place op) (V.view (place op) s) later
  restore_entry-apply_op t op id time s later h e =
      let eff = (apply_op E op false s).0 in
      let kept = apply_op-Captures op s h.on_value e in
      let e' = logged t op eff id time in
      let o = V.view (place op) s in
      restore_entry-put_back E V laws (V.expand s) (V.mismatch (place op)) e' o later
        (entry-valid t op eff id time h
          (target-Captures op eff (snapshot_of (V.expand s) (V.mismatch (place op)) o) h kept))
        (hive-logged t op eff id time h) (laws.in_range (place op) s)
        (Holds-logged t op eff id time (snapshot_of (V.expand s) (V.mismatch (place op)) o) kept)
      ∙ ap (λ (p : Place). put_back E V (V.expand s) p o later)
          (place-logged t op eff id time h.on_value)
