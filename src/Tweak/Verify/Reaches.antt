-- ===== src/Tweak/Verify/Reaches.antt =====
-- A registry operation that succeeds leaves the value as IsApplied looks for.
use mathlib.Core.Path.{subst}
use winforge.Prelude.{
  ℕ, true, false, not, Option, none, some, ◌≡◌, refl, sym, ap, ◌∙◌, arith, ◌==◌, ◌⊎◌, inl, inr,
  ==_refl,
}
use winforge.Text.{Text, CaseTable, text_eq}
use winforge.Text.Laws.{text_eq_refl, text_eq_iff}
use winforge.Decimal.{format_uint}
use winforge.Decimal.RoundTrip.{format_uint_injective}
use winforge.Errors.{Err, Result, ok}
use winforge.Config.{Operation}
use winforge.Audit.Entry.{ValueType, dword, qword, string}
use winforge.Tweak.Executor.{Executor}
use winforge.Tweak.Snapshot.{Snapshot, registry_snapshot, value_exists}
use winforge.Tweak.Snapshot.View.{snapshot_of, registry_snapshot-view}
use winforge.Tweak.Effect.{Effect, new_effect, or_effect, commit}
use winforge.Tweak.Apply.{set_value, delete_value}
use winforge.Tweak.Capture.{set_effect, delete_effect}
use winforge.Tweak.Verify.{holds, holds_of}
use winforge.Tweak.Laws.{
  RegValue, reg_dword, reg_qword, reg_string, reg_expand, reg_other, Place, RegistryView,
  RegistryLaws, Writes, read_string,
}
use winforge.Tweak.UndoEntry.RoundTrip.{place}

module _ {S : Type 0} (write : S → Option Err × S) (s : S) where
  -- The write was made and went through, or it was not needed, as `P` tells.
  abbrev Settled : Type 0 → Effect × S → Type 0
  Settled P (eff, s') = ((s' ≡ s) × P) ⊎ ((s' ≡ (write s).1) × ((write s).0 ≡ none))

  module _ (x : Text → Text) (m : RegValue → Err) (op : Operation) where
    dword-Settled :
        (v : ℕ) (o : Option RegValue)
        → let r =
            or_effect
              (new_effect op)
              (snapshot_of x m o)
              (λ snap. commit false (set_effect op dword (format_uint v) snap) write)
              s in
          r.0.error ≡ none → Settled (o ≡ some (reg_dword v)) r
    unfolding commit new_effect
    dword-Settled v none h = ground arith
    dword-Settled v (some (reg_dword cur)) h =
        ground (arith, text_eq_iff (format_uint cur) (format_uint v), format_uint_injective cur v)
    dword-Settled v (some (reg_qword cur)) h = ground arith
    dword-Settled v (some (reg_string cur)) h = ground arith
    dword-Settled v (some (reg_expand cur)) h = ground arith
    dword-Settled v (some reg_other) h = ground arith

    qword-Settled :
        (v : ℕ) (o : Option RegValue)
        → let r =
            or_effect
              (new_effect op)
              (snapshot_of x m o)
              (λ snap. commit false (set_effect op qword (format_uint v) snap) write)
              s in
          r.0.error ≡ none → Settled (o ≡ some (reg_qword v)) r
    unfolding commit new_effect
    qword-Settled v none h = ground arith
    qword-Settled v (some (reg_qword cur)) h =
        ground (arith, text_eq_iff (format_uint cur) (format_uint v), format_uint_injective cur v)
    qword-Settled v (some (reg_dword cur)) h = ground arith
    qword-Settled v (some (reg_string cur)) h = ground arith
    qword-Settled v (some (reg_expand cur)) h = ground arith
    qword-Settled v (some reg_other) h = ground arith

    string-Settled :
        (v : Text) (o : Option RegValue)
        → let r =
            or_effect
              (new_effect op)
              (snapshot_of x m o)
              (λ snap. commit false (set_effect op string v snap) write)
              s in
          r.0.error ≡ none → Settled (read_string x m o ≡ ok (some v)) r
    unfolding commit new_effect
    string-Settled v none h = ground arith
    string-Settled v (some (reg_string cur)) h = ground (arith, text_eq_iff cur v)
    string-Settled v (some (reg_dword cur)) h = ground arith
    string-Settled v (some (reg_qword cur)) h = ground arith
    string-Settled v (some (reg_expand cur)) h = ground (arith, text_eq_iff (x cur) v)
    string-Settled v (some reg_other) h = ground arith

module _ {S : Type 0} (E : Executor S) (V : RegistryView S) (laws : RegistryLaws E V) where
  Settled-view :
      (p : Place) (x : RegValue) (write : S → Option Err × S) (s : S) (r : Effect × S)
      → Writes V p (some x) s (write s)
      → Settled write s (V.view p s ≡ some x) r
      → V.view p r.1 ≡ some x
  Settled-view p x write s r w (inl h) = ap (V.view p) h.0 ∙ h.1
  Settled-view p x write s r w (inr h) =
      ap (V.view p) h.0 ∙ ground (arith, w p h.1, laws.same_refl p)

module _ ⦃c : CaseTable⦄ {S : Type 0} (E : Executor S) (V : RegistryView S)
    (laws : RegistryLaws E V) where
  -- a value of any type, from what is known at every snapshot
  set_value-Settled :
      (op : Operation) (type : ValueType) (new : Text) (P : Option RegValue → Type 0)
      (write : S → Option Err × S) (s : S)
      → ((o : Option RegValue)
          → let r =
              or_effect
                (new_effect op)
                (snapshot_of (V.expand s) (V.mismatch (place op)) o)
                (λ snap. commit false (set_effect op type new snap) write)
                s in
            r.0.error ≡ none → Settled write s (P o) r)
      → (set_value E false op type new write s).0.error ≡ none
      → Settled write s (P (V.view (place op) s)) (set_value E false op type new write s)
  unfolding set_value
  set_value-Settled op type new P write s k h =
      subst
        (λ (q : Result Snapshot).
          (or_effect (new_effect op) q (λ snap. commit false (set_effect op type new snap) write)
              s).0.error
            ≡ none
          → Settled write s (P (V.view (place op) s)) (
              or_effect (new_effect op) q (λ snap. commit false (set_effect op type new snap) write)
                s))
        (sym (registry_snapshot-view E V laws (place op) s)) (k (V.view (place op) s)) h

  set_value-view :
      (op : Operation) (type : ValueType) (new : Text) (y : RegValue) (write : S → Option Err × S)
      (s : S)
      → Writes V (place op) (some y) s (write s)
      → ((o : Option RegValue)
          → let r =
              or_effect
                (new_effect op)
                (snapshot_of (V.expand s) (V.mismatch (place op)) o)
                (λ snap. commit false (set_effect op type new snap) write)
                s in
            r.0.error ≡ none → Settled write s (o ≡ some y) r)
      → (set_value E false op type new write s).0.error ≡ none
      → V.view (place op) (set_value E false op type new write s).1 ≡ some y
  set_value-view op type new y write s w k h =
      Settled-view E V laws (place op) y write s (set_value E false op type new write s) w
        (set_value-Settled op type new (λ o. o ≡ some y) write s k h)

  -- a string is found in the state that was left: it was written, or it was found before
  string-found :
      (p : Place) (v : Text) (write : S → Option Err × S) (s : S) (r : Effect × S)
      → Writes V p (some (reg_string v)) s (write s)
      → Settled write s (read_string (V.expand s) (V.mismatch p) (V.view p s) ≡ ok (some v)) r
      → E.registry_get_string p.hive p.path p.name r.1 ≡ ok (some v)
  string-found p v write s r w (inl h) =
      ap (E.registry_get_string p.hive p.path p.name) h.0 ∙ laws.get_string p s ∙ h.1
  string-found p v write s r w (inr h) =
      let found = Settled-view E V laws p (reg_string v) write s r w (inr h) in
      laws.get_string p r.1 ∙ ap (read_string (V.expand r.1) (V.mismatch p)) found

  pub dword_reached :
      (op : Operation) (s : S) (v : ℕ)
      → let r =
          set_value E false op dword
            (format_uint v)
            (E.registry_set_dword op.hive op.path op.name v)
            s in
        r.0.error ≡ none
        → holds_of (E.registry_get_dword op.hive op.path op.name r.1) (λ cur. cur == v) ≡ true
  dword_reached op s v h =
      let write = E.registry_set_dword op.hive op.path op.name v in
      let r = set_value E false op dword (format_uint v) write s in
      let found =
        set_value-view op dword (format_uint v) (reg_dword v) write s
          (laws.set_dword (place op) v s)
          (dword-Settled write s (V.expand s) (V.mismatch (place op)) op v) h in
      rw (laws.get_dword (place op) r.1, found) (==_refl v)

  pub qword_reached :
      (op : Operation) (s : S) (v : ℕ)
      → let r =
          set_value E false op qword
            (format_uint v)
            (E.registry_set_qword op.hive op.path op.name v)
            s in
        r.0.error ≡ none
        → holds_of (E.registry_get_qword op.hive op.path op.name r.1) (λ cur. cur == v) ≡ true
  qword_reached op s v h =
      let write = E.registry_set_qword op.hive op.path op.name v in
      let r = set_value E false op qword (format_uint v) write s in
      let found =
        set_value-view op qword (format_uint v) (reg_qword v) write s
          (laws.set_qword (place op) v s)
          (qword-Settled write s (V.expand s) (V.mismatch (place op)) op v) h in
      rw (laws.get_qword (place op) r.1, found) (==_refl v)

  pub string_reached :
      (op : Operation) (s : S) (v : Text)
      → let r = set_value E false op string v (E.registry_set_string op.hive op.path op.name v) s in
        r.0.error ≡ none
        → holds_of (E.registry_get_string op.hive op.path op.name r.1) (λ cur. text_eq cur v) ≡ true
  string_reached op s v h =
      let write = E.registry_set_string op.hive op.path op.name v in
      let r = set_value E false op string v write s in
      let found = string-found (place op) v write s r (laws.set_string (place op) v s) (
        set_value-Settled op string v
          (λ o. read_string (V.expand s) (V.mismatch (place op)) o ≡ ok (some v)) write s
          (string-Settled write s (V.expand s) (V.mismatch (place op)) op v) h) in
      rw found (text_eq_refl v)

  -- the value is gone, or it was not there
  deleted-absent :
      (op : Operation) (s : S) (o : Option RegValue)
      → V.view (place op) s ≡ o
      → let r =
          or_effect
            (new_effect op)
            (snapshot_of (V.expand s) (V.mismatch (place op)) o)
            (λ snap.
              commit false
                (delete_effect op snap)
                (E.registry_delete_value op.hive op.path op.name))
            s in
        r.0.error ≡ none → V.view (place op) r.1 ≡ none
  unfolding commit new_effect
  deleted-absent op s none e h = e
  deleted-absent op s (some (reg_dword v)) e h =
      ground (arith, laws.delete_value (place op) s (place op), laws.same_refl (place op))
  deleted-absent op s (some (reg_qword v)) e h =
      ground (arith, laws.delete_value (place op) s (place op), laws.same_refl (place op))
  deleted-absent op s (some (reg_string v)) e h =
      ground (arith, laws.delete_value (place op) s (place op), laws.same_refl (place op))
  deleted-absent op s (some (reg_expand v)) e h =
      ground (arith, laws.delete_value (place op) s (place op), laws.same_refl (place op))
  deleted-absent op s (some reg_other) e h = ground arith

  pub deleted_reached :
      (op : Operation) (s : S)
      → (delete_value E false op s).0.error ≡ none
      → holds (value_exists E op.hive op.path op.name (delete_value E false op s).1) not ≡ true
  unfolding delete_value value_exists
  deleted_reached op s h =
      let p = place op in
      let run = λ (q : Result Snapshot).
        or_effect (new_effect op) q
          (λ snap.
            commit false (delete_effect op snap) (E.registry_delete_value op.hive op.path op.name))
          s in
      let gone : V.view p (run (registry_snapshot E op.hive op.path op.name s)).1 ≡ none =
        subst (λ (q : Result Snapshot). (run q).0.error ≡ none → V.view p (run q).1 ≡ none)
          (sym (registry_snapshot-view E V laws p s)) (deleted-absent op s (V.view p s) refl) h in
      rw (
        registry_snapshot-view E V laws p (run (registry_snapshot E op.hive op.path op.name s)).1,
        gone,
      )
