-- ===== src/Tweak/UndoEntry/Restores.antt =====
-- Undo after apply: the whole registry is as it was.
use winforge.Prelude.{ℕ, true, false, Option, none, some, ◌≡◌, ◌≢◌, refl, sym, ap, ◌∙◌, arith}
use mathlib.Core.Path.{subst}
use winforge.Tweak.UndoEntry.Captured.{Captures}
use winforge.Text.{Text, CaseTable}
use winforge.Decimal.{format_uint}
use winforge.Errors.{Err, Result, ok, err}
use winforge.Config.{
  OpType, Operation, Tweak, registry_set_dword, registry_set_string, registry_set_qword,
  registry_delete,
}
use winforge.Config.Values.{dword_value, string_value, qword_value}
use winforge.Audit.Entry.{Entry, Logger, ValueType, dword, qword, string}
use winforge.Tweak.Executor.{Executor}
use winforge.Tweak.Snapshot.{registry_snapshot}
use winforge.Tweak.Snapshot.View.{snapshot_of}
use winforge.Tweak.Effect.{Effect, or_effect, commit, new_effect}
use winforge.Tweak.Apply.{set_value, delete_value, apply_as, apply_op}
use winforge.Tweak.Capture.{set_effect, delete_effect}
use winforge.Tweak.Orchestrator.{World, is_registry_op}
use winforge.Tweak.UndoEntry.{restore_entry, restore_and_record, undo_entry}
use winforge.Tweak.UndoEntry.RoundTrip.{
  IsTargeted, place, logged, put_back, apply_op-Captures, restore_entry-apply_op,
}
use winforge.Tweak.Laws.{
  RegValue, reg_dword, reg_qword, reg_string, reg_expand, reg_other, Place, RegistryView,
  RegistryLaws, Writes,
}

-- a value that a snapshot keeps as it is: not a REG_EXPAND_SZ
abbrev pub IsKept : Option RegValue → Type 0
IsKept (some (reg_expand v)) = ⊥
IsKept _ = Unit

module _ {S : Type 0} (V : RegistryView S) where
  -- Nothing but the value at `p` has changed.
  abbrev Elsewhere : Place → S → Option Err × S → Type 0
  Elsewhere p s (e, s') = (q : Place) → V.same p q ≡ false → e ≡ none → V.view q s' ≡ V.view q s

  Writes-Elsewhere :
      (p : Place) (value : Option RegValue) (s : S) (r : Option Err × S)
      → Writes V p value s r
      → Elsewhere p s r
  Writes-Elsewhere p value s r w q apart done = ground (arith, w q)

  -- the same for an operation that returns an effect
  abbrev ElsewhereEffect : Place → S → Effect × S → Type 0
  ElsewhereEffect p s (eff, s') = Elsewhere p s (eff.error, s')

  commit-Elsewhere :
      (p : Place) (eff : Effect) (change : S → Option Err × S) (s : S)
      → Elsewhere p s (change s)
      → ElsewhereEffect p s (commit false eff change s)
  unfolding commit
  commit-Elsewhere p eff change s h q apart done = ground (arith, h q apart)

  or_effect-Elsewhere {ℓ} :
      {A : Type ℓ} (p : Place) (eff : Effect) (r : Result A) (rest : A → S → Effect × S) (s : S)
      → ((a : A) → ElsewhereEffect p s (rest a s))
      → ElsewhereEffect p s (or_effect eff r rest s)
  or_effect-Elsewhere p eff (ok a) rest s h = h a
  or_effect-Elsewhere p eff (err e) rest s h = λ q apart done. refl

module _ ⦃c : CaseTable⦄ {S : Type 0} (E : Executor S) (V : RegistryView S)
    (laws : RegistryLaws E V) where
  set_value-Elsewhere :
      (op : Operation) (type : ValueType) (new : Text) (write : S → Option Err × S) (s : S)
      → Elsewhere V (place op) s (write s)
      → ElsewhereEffect V (place op) s (set_value E false op type new write s)
  unfolding set_value
  set_value-Elsewhere op type new write s h =
      or_effect-Elsewhere V (place op) (new_effect op)
        (registry_snapshot E op.hive op.path op.name s)
        (λ snap. commit false (set_effect op type new snap) write) s
        λ snap. commit-Elsewhere V (place op) (set_effect op type new snap) write s h

  delete_value-Elsewhere :
      (op : Operation) (s : S) → ElsewhereEffect V (place op) s (delete_value E false op s)
  unfolding delete_value
  delete_value-Elsewhere op s =
      or_effect-Elsewhere V (place op) (new_effect op)
        (registry_snapshot E op.hive op.path op.name s)
        (λ snap.
          commit false (delete_effect op snap) (E.registry_delete_value op.hive op.path op.name))
        s
        λ snap.
          commit-Elsewhere V (place op) (delete_effect op snap)
            (E.registry_delete_value op.hive op.path op.name) s
            (Writes-Elsewhere V (place op) none s _ (laws.delete_value (place op) s))

  apply_as-Elsewhere :
      (type : OpType) (op : Operation) (s : S)
      → is_registry_op type ≡ true
      → ElsewhereEffect V (place op) s (apply_as E type op false s)
  unfolding apply_as is_registry_op
  apply_as-Elsewhere registry_set_dword op s h =
      or_effect-Elsewhere V (place op) (new_effect op) (dword_value op)
        (λ v.
          set_value E false op dword (format_uint v)
            (E.registry_set_dword op.hive op.path op.name v))
        s
        λ v.
          set_value-Elsewhere op dword (format_uint v)
            (E.registry_set_dword op.hive op.path op.name v) s
            (Writes-Elsewhere V (place op) (some (reg_dword v)) s _ (laws.set_dword (place op) v s))
  apply_as-Elsewhere registry_set_qword op s h =
      or_effect-Elsewhere V (place op) (new_effect op) (qword_value op)
        (λ v.
          set_value E false op qword (format_uint v)
            (E.registry_set_qword op.hive op.path op.name v))
        s
        λ v.
          set_value-Elsewhere op qword (format_uint v)
            (E.registry_set_qword op.hive op.path op.name v) s
            (Writes-Elsewhere V (place op) (some (reg_qword v)) s _ (laws.set_qword (place op) v s))
  apply_as-Elsewhere registry_set_string op s h =
      or_effect-Elsewhere V (place op) (new_effect op) (string_value op)
        (λ v. set_value E false op string v (E.registry_set_string op.hive op.path op.name v)) s
        λ v.
          set_value-Elsewhere op string v (E.registry_set_string op.hive op.path op.name v) s (
            Writes-Elsewhere V (place op) (some (reg_string v)) s _
              (laws.set_string (place op) v s))
  apply_as-Elsewhere registry_delete op s h = delete_value-Elsewhere op s
  apply_as-Elsewhere _ op s h = cc

  apply_op-Elsewhere :
      (op : Operation) (s : S)
      → is_registry_op op.op_type ≡ true
      → ElsewhereEffect V (place op) s (apply_op E op false s)
  unfolding apply_op
  apply_op-Elsewhere op s h = apply_as-Elsewhere op.op_type op s h

  -- Undo keeps the type of every value but a REG_EXPAND_SZ.
  put_back-Writes :
      (x : Text → Text) (p : Place) (o : Option RegValue) (later : S)
      → o ≢ some reg_other
      → IsKept o
      → Writes V p o later (put_back E V x p o later)
  put_back-Writes x p none later h k =
      λ q done. ground (arith, laws.delete_value p later q, laws.same_view p q later)
  put_back-Writes x p (some (reg_dword v)) later h k = laws.set_dword p v later
  put_back-Writes x p (some (reg_qword v)) later h k = laws.set_qword p v later
  put_back-Writes x p (some (reg_string v)) later h k = laws.set_string p v later
  put_back-Writes x p (some (reg_expand v)) later h k = absurd k
  put_back-Writes x p (some reg_other) later h k = absurd (h refl)

module _ ⦃c : CaseTable⦄ {S L : Type 0} (E : Executor S) (logger : Option (Logger L)) where
  undo_entry-none :
      (e : Entry) (w : World S L)
      → (undo_entry E logger e w).0 ≡ none
      → ((restore_entry E e w.sys).0 ≡ none)
        × ((undo_entry E logger e w).1.sys ≡ (restore_entry E e w.sys).1)
  unfolding undo_entry restore_and_record
  undo_entry-none e w h = ground arith

-- the world in which the operation has been applied
abbrev pub applied : ⦃c : CaseTable⦄ {S L : Type 0} → Executor S → Operation → S → L → World S L
applied E op s l = record { sys = (apply_op E op false s).1; log = l }

-- the entry of the operation, as the log keeps it
abbrev pub entry :
    ⦃c : CaseTable⦄ {S : Type 0} → Executor S → Tweak → Operation → S → Text → Option ℕ → Entry
entry E t op s id time = logged t op (apply_op E op false s).0 id time

module _ ⦃c : CaseTable⦄ {S : Type 0} (E : Executor S) (V : RegistryView S)
    (laws : RegistryLaws E V) where
  put_back-view :
      (op : Operation) (s : S) (q : Place)
      → is_registry_op op.op_type ≡ true
      → IsKept (V.view (place op) s)
      → (apply_op E op false s).0.error ≡ none
      → (put_back E V (V.expand s) (place op) (V.view (place op) s) (apply_op E op false s).1).0
        ≡ none
      → V.view q
          (put_back E V (V.expand s) (place op) (V.view (place op) s) (apply_op E op false s).1).1
        ≡ V.view q s
  put_back-view op s q h k e done =
      let p = place op in
      let readable : V.view p s ≢ some reg_other = λ other.
        subst
          (λ o.
            Captures op (apply_op E op false s).0
              (snapshot_of (V.expand s) (V.mismatch (place op)) o))
          other (apply_op-Captures E V laws op s h e) in
      ground (
        arith,
        put_back-Writes E V laws (V.expand s) p (V.view p s) (apply_op E op false s).1 readable k q
            done,
        laws.same_view p q s,
        apply_op-Elsewhere E V laws op s h q,
      )

  -- For an executor that obeys the laws of the registry: after an operation on a registry value,
  -- in a known hive and with a path, that went through and that did not find a REG_EXPAND_SZ,
  -- UndoEntry of its entry puts every registry value back to what it was, where it returns no error.
  pub undo_entry-apply_op :
      {L : Type 0} (logger : Option (Logger L)) (t : Tweak) (op : Operation) (id : Text)
      (time : Option ℕ) (s : S) (l : L)
      → IsTargeted op
      → IsKept (V.view (place op) s)
      → (apply_op E op false s).0.error ≡ none
      → (undo_entry E logger (entry E t op s id time) (applied E op s l)).0 ≡ none
      → (q : Place)
      → V.view q (undo_entry E logger (entry E t op s id time) (applied E op s l)).1.sys
        ≡ V.view q s
  undo_entry-apply_op logger t op id time s l h k e done q =
      let (restored, same_sys) =
        undo_entry-none E logger (entry E t op s id time) (applied E op s l) done in
      let call = restore_entry-apply_op E V laws t op id time s (apply_op E op false s).1 h e in
      ap (V.view q) same_sys
      ∙ ap (λ (r : Option Err × S). V.view q r.1) call
      ∙ put_back-view op s q h.on_value k e (sym (ap (λ (r : Option Err × S). r.0) call) ∙ restored)
