-- ===== src/Engine/Executor/Logged.antt =====
-- Windows with a note of every service that is changed.
use winforge.Prelude.{◌≡◌, refl, sym, ◌∙◌, Bool, true, false, List, [], ◌∷◌, All}
use winforge.Text.{Text, CaseTable}
use winforge.Errors.{Result, ok, err, ◌>>◌, refuse, service_protected}
use winforge.Tweak.Executor.{Change}
use winforge.Tweak.Orchestrator.{World}
use winforge.Tweak.Preserved.{ChangeKeeps}
use winforge.Engine.{guarded, new_executor, validate_service_name, ensure_service_mutable}
use winforge.Engine.Protected.{is_protected, lowered-protected}
use winforge.Engine.Executor.{Windows}

-- Windows, and the names with which a service was changed, the last one first
abbrev pub Logged : Type 0 → Type 0
Logged S = S × List Text

module _ {S : Type 0} where
  -- a change that is not one of a service
  abbrev pub plain : Change S → Change (Logged S)
  plain change (s, names) = let (e, s') = change s in (e, (s', names))

  abbrev pub noting : Text → Change S → Change (Logged S)
  noting name change (s, names) = let (e, s') = change s in (e, (s', name ∷ names))

  -- the same Windows, with a note of every service that is changed
  abbrev pub logged : Windows S → Windows (Logged S)
  logged w = record {
    services = record {
      get_start_mode = λ n s. w.services.get_start_mode n s.0;
      set_start_mode = λ n m. noting n (w.services.set_start_mode n m);
      start = λ n. noting n (w.services.start n);
      stop = λ n. noting n (w.services.stop n);
    };
    dword = λ h p n s. w.dword h p n s.0;
    str = λ h p n s. w.str h p n s.0;
    expand_string = λ h p n s. w.expand_string h p n s.0;
    qword = λ h p n s. w.qword h p n s.0;
    set_dword = λ h p n v. plain (w.set_dword h p n v);
    set_string = λ h p n v. plain (w.set_string h p n v);
    set_expand_string = λ h p n v. plain (w.set_expand_string h p n v);
    set_qword = λ h p n v. plain (w.set_qword h p n v);
    delete_value = λ h p n. plain (w.delete_value h p n);
    key_exists = λ h p s. w.key_exists h p s.0;
    delete_key_tree = λ h p. plain (w.delete_key_tree h p);
    enum_subkeys = λ h p s. w.enum_subkeys h p s.0;
    task_disable = λ p. plain (w.task_disable p);
    task_enable = λ p. plain (w.task_enable p);
    task_delete = λ p. plain (w.task_delete p);
    remove_appx = λ n. plain (w.remove_appx n);
    remove_provisioned_appx = λ n. plain (w.remove_provisioned_appx n);
    run = λ c args. plain (w.run c args);
    system_directory = w.system_directory;
    power_active = λ s. w.power_active s.0;
    power_set_active = λ g. plain (w.power_set_active g);
    hibernate_enabled = λ s. w.hibernate_enabled s.0;
    set_hibernate = λ b. plain (w.set_hibernate b);
    processor_state = λ s. w.processor_state s.0;
    set_processor_state = λ a b. plain (w.set_processor_state a b);
  }

refuse-free : (b : Bool) (u : Unit {0}) → refuse b service_protected ≡ ok u → b ≡ false
refuse-free true u h = cc
refuse-free false u h = refl

after-free :
    (r : Result (Unit {0})) (b : Bool) (u : Unit {0})
    → (r >> refuse b service_protected) ≡ ok u
    → b ≡ false
after-free (err e) b u h = cc
after-free (ok v) b u h = refuse-free b u h

-- the world in which no service has been changed yet
abbrev pub untouched : {S L : Type 0} → S → L → World (Logged S) L
untouched s l = record { sys = (s, []); log = l }

module _ ⦃c : CaseTable⦄ (protected : List Text) where
  -- a service that may be changed is not protected
  pub mutable-free :
      (name : Text) (u : Unit {0})
      → ensure_service_mutable (new_executor protected) name ≡ ok u
      → is_protected protected name ≡ false
  unfolding ensure_service_mutable new_executor
  mutable-free name u h =
      sym (lowered-protected protected name) ∙ after-free (validate_service_name name) _ u h

module _ ⦃c : CaseTable⦄ {S : Type 0} (protected : List Text) where
  -- none of the services that were changed is protected
  abbrev pub Spared : Logged S → Type 0
  Spared (s, names) = All (λ n. is_protected protected n ≡ false) names

  pub plain-Keeps : (change : Change S) → ChangeKeeps Spared (plain change)
  plain-Keeps change = record { kept = λ s h. h }

  pub guarded-Keeps :
      {A : Type 0} (r : Result A) (change : A → Change (Logged S))
      → ((a : A) → r ≡ ok a → ChangeKeeps Spared (change a))
      → ChangeKeeps Spared (guarded r change)
  guarded-Keeps (err e) change k = record { kept = λ s h. h }
  guarded-Keeps (ok a) change k = k a refl

  pub noting-Keeps :
      (name : Text) (change : Change S)
      → is_protected protected name ≡ false
      → ChangeKeeps Spared (noting name change)
  noting-Keeps name change free = record { kept = λ s h. (free, h) }
