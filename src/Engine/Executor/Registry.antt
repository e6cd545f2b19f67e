-- ===== src/Engine/Executor/Registry.antt =====
-- The laws of the registry for the engine's executor, from those of internal/registry/registry_windows.go.
use winforge.Prelude.{◌≡◌, refl, Bool, true, false, Option, none, some, ◌⊎◌, inl, inr, ℕ}
use winforge.Text.{Text, CaseTable}
use winforge.Errors.{Err, Result, ok, err, refuse, unsupported_hive}
use winforge.Engine.{Guard}
use winforge.Engine.Executor.{Windows, validate_hive, found, in_hive, engine_executor}
use winforge.Tweak.Executor.{Change}
use winforge.Tweak.Laws.{
  RegValue, reg_dword, reg_qword, reg_string, reg_expand, reg_other, Place, InRangeOption,
  RegistryView, RegistryLaws, Writes, read_dword, read_qword, read_string, read_expand,
}

-- What the functions of the package do in a hive that is known.
pub record WindowsLaws {S : Type 0} (w : Windows S) (V : RegistryView S) : Type 0 where
  pub same_refl : (p : Place) → V.same p p ≡ true
  pub same_view : (p q : Place) (s : S) → V.same p q ≡ true → V.view q s ≡ V.view p s
  pub in_range : (p : Place) (s : S) → InRangeOption (V.view p s)
  pub str :
      (p : Place) (s : S)
      → found (w.str p.hive p.path p.name s) ≡ read_string (V.expand s) (V.mismatch p) (V.view p s)
  pub expand_string :
      (p : Place) (s : S)
      → found (w.expand_string p.hive p.path p.name s) ≡ read_expand (V.mismatch p) (V.view p s)
  pub dword :
      (p : Place) (s : S)
      → found (w.dword p.hive p.path p.name s) ≡ read_dword (V.mismatch p) (V.view p s)
  pub qword :
      (p : Place) (s : S)
      → found (w.qword p.hive p.path p.name s) ≡ read_qword (V.mismatch p) (V.view p s)
  pub set_dword :
      (p : Place) (v : ℕ) (s : S)
      → Writes V p (some (reg_dword v)) s (w.set_dword p.hive p.path p.name v s)
  pub set_qword :
      (p : Place) (v : ℕ) (s : S)
      → Writes V p (some (reg_qword v)) s (w.set_qword p.hive p.path p.name v s)
  pub set_string :
      (p : Place) (v : Text) (s : S)
      → Writes V p (some (reg_string v)) s (w.set_string p.hive p.path p.name v s)
  pub set_expand_string :
      (p : Place) (v : Text) (s : S)
      → Writes V p (some (reg_expand v)) s (w.set_expand_string p.hive p.path p.name v s)
  pub delete_value : (p : Place) (s : S) → Writes V p none s (w.delete_value p.hive p.path p.name s)

refuse-cases : (b : Bool) (e : Err) → (refuse b e ≡ ok tt) ⊎ (refuse b e ≡ err e)
refuse-cases true e = inr refl
refuse-cases false e = inl refl

pub hive_cases : (h : Text) → (validate_hive h ≡ ok tt) ⊎ (validate_hive h ≡ err unsupported_hive)
unfolding validate_hive
hive_cases h = refuse-cases _ unsupported_hive

-- a value in a hive that is not known cannot be read, with the error of validateHive
abbrev seen : Result (Unit {0}) → Option RegValue → Option RegValue
seen (ok u) o = o
seen (err e) o = some reg_other

abbrev unread : Result (Unit {0}) → (RegValue → Err) → RegValue → Err
unread (ok u) mismatch = mismatch
unread (err refused) mismatch = λ v. refused

abbrev both_known : Result (Unit {0}) → Result (Unit {0}) → Bool → Bool
both_known (ok u) (ok v) b = b
both_known (err e) (err d) b = true
both_known _ _ b = false

abbrev pub checked_view : {S : Type 0} → RegistryView S → RegistryView S
checked_view V = record {
  view = λ p s. seen (validate_hive p.hive) (V.view p s);
  same = λ p q. both_known (validate_hive p.hive) (validate_hive q.hive) (V.same p q);
  mismatch = λ p. unread (validate_hive p.hive) (V.mismatch p);
  expand = V.expand;
}

module _ {S : Type 0} (w : Windows S) (V : RegistryView S) (laws : WindowsLaws w V) where
  in_hive-Writes :
      (p : Place) (value : Option RegValue) (change : Change S) (s : S)
      → Writes V p value s (change s)
      → Writes (checked_view V) p value s (in_hive w p.hive change s)
  in_hive-Writes p value change s h q = elim (hive_cases p.hive) [
    | inl known ↦ rw known λ done. elim (hive_cases q.hive) [
      | inl known_too ↦ rw known_too (h q done)
      | inr unknown ↦ rw unknown refl
    ]
    | inr unknown ↦ rw unknown λ done. cc
  ]

  checked_same_refl : (p : Place) → (checked_view V).same p p ≡ true
  checked_same_refl p = elim (hive_cases p.hive) [
    | inl known ↦ rw known (laws.same_refl p)
    | inr unknown ↦ rw unknown refl
  ]

  checked_same_view :
      (p q : Place) (s : S)
      → (checked_view V).same p q ≡ true
      → (checked_view V).view q s ≡ (checked_view V).view p s
  checked_same_view p q s = elim (hive_cases p.hive) [
    | inl known ↦ elim (hive_cases q.hive) [
      | inl known_too ↦ rw known (rw known_too (laws.same_view p q s))
      | inr unknown ↦ rw known (rw unknown λ h. cc)
    ]
    | inr unknown ↦ elim (hive_cases q.hive) [
      | inl known ↦ rw known (rw unknown λ h. cc)
      | inr unknown_too ↦ rw unknown (rw unknown_too λ h. refl)
    ]
  ]

  checked_in_range : (p : Place) (s : S) → InRangeOption ((checked_view V).view p s)
  checked_in_range p s = elim (hive_cases p.hive) [
    | inl known ↦ rw known (laws.in_range p s)
    | inr unknown ↦ rw unknown tt
  ]

  -- Where the functions of the registry package do what they say, the engine's executor obeys the laws of
  -- the registry.
  pub engine_executor-RegistryLaws :
      ⦃c : CaseTable⦄ (g : Guard) (elevated : Bool)
      → RegistryLaws (engine_executor w g elevated) (checked_view V)
  unfolding engine_executor
  engine_executor-RegistryLaws g elevated = record {
    same_refl = checked_same_refl;
    same_view = checked_same_view;
    in_range = checked_in_range;
    get_string = λ p s. elim (hive_cases p.hive) [
      | inl known ↦ rw known (laws.str p s)
      | inr unknown ↦ rw unknown refl
    ];
    get_expand_string = λ p s. elim (hive_cases p.hive) [
      | inl known ↦ rw known (laws.expand_string p s)
      | inr unknown ↦ rw unknown refl
    ];
    get_dword = λ p s. elim (hive_cases p.hive) [
      | inl known ↦ rw known (laws.dword p s)
      | inr unknown ↦ rw unknown refl
    ];
    get_qword = λ p s. elim (hive_cases p.hive) [
      | inl known ↦ rw known (laws.qword p s)
      | inr unknown ↦ rw unknown refl
    ];
    set_dword = λ p v s. in_hive-Writes p _ _ s (laws.set_dword p v s);
    set_qword = λ p v s. in_hive-Writes p _ _ s (laws.set_qword p v s);
    set_string = λ p v s. in_hive-Writes p _ _ s (laws.set_string p v s);
    set_expand_string = λ p v s. in_hive-Writes p _ _ s (laws.set_expand_string p v s);
    delete_value = λ p s. in_hive-Writes p _ _ s (laws.delete_value p s);
  }
