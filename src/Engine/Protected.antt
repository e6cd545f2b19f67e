-- ===== src/Engine/Protected.antt =====
-- A protected service is not changed.
use winforge.Prelude.{
  ◌≡◌, ◌≢◌, refl, Bool, true, false, ◌||◌, Option, none, List, [], ◌∷◌, any, ap, ◌∙◌,
}
use winforge.Text.{Text, text_eq, to_lower, CaseTable}
use winforge.Errors.{Err, Result, ok, err, ◌>>◌, refuse, service_protected}
use winforge.Tweak.Executor.{Change}
use winforge.Engine.{
  Services, validate_service_name, guarded, lowered, new_executor, ensure_service_mutable,
  service_set_start_mode, service_start, service_stop,
}

-- an error, and the state as it was
abbrev pub Refused : {S : Type 0} → S → Option Err × S → Type 0
Refused s (e, s') = (e ≢ none) × (s' ≡ s)

abbrev IsError : Result (Unit {0}) → Type 0
IsError (ok u) = ⊥
IsError (err e) = Unit

module _ ⦃c : CaseTable⦄ where
  -- the service is in the list of protected ones, in whatever case
  abbrev pub is_protected : List Text → Text → Bool
  is_protected names name = any (λ p. text_eq (to_lower name) (to_lower p)) names

  pub lowered-protected :
      (names : List Text) (name : Text)
      → any (text_eq (to_lower name)) (lowered names) ≡ is_protected names name
  lowered-protected [] name = refl
  lowered-protected (p ∷ names) name =
      ap (λ (b : Bool). text_eq (to_lower name) (to_lower p) || b) (lowered-protected names name)

  refused_after :
      (r : Result (Unit {0})) (b : Bool) → b ≡ true → IsError (r >> refuse b service_protected)
  refused_after (err e) b h = tt
  refused_after (ok u) true h = tt
  refused_after (ok u) false h = cc

  guarded-Refused :
      {S : Type 0} (r : Result (Unit {0})) (change : Unit {0} → Change S) (s : S)
      → IsError r
      → Refused s (guarded r change s)
  guarded-Refused (err e) change s h = ((λ k. cc), refl)
  guarded-Refused (ok u) change s h = absurd h

  ensure_service_mutable-IsError :
      (names : List Text) (name : Text)
      → is_protected names name ≡ true
      → IsError (ensure_service_mutable (new_executor names) name)
  unfolding ensure_service_mutable new_executor
  ensure_service_mutable-IsError names name h =
      refused_after (validate_service_name name) (any (text_eq (to_lower name)) (lowered names))
        (lowered-protected names name ∙ h)

  -- Starting, stopping and changing the start mode of a protected service, spelled in any case, are
  -- refused, and leave the services as they are.
  pub protected-Refused :
      {S : Type 0} (services : Services S) (names : List Text) (name mode : Text) (s : S)
      → is_protected names name ≡ true
      → let g = new_executor names in
        Refused s (service_start services g name s)
        × Refused s (service_stop services g name s)
        × Refused s (service_set_start_mode services g name mode s)
  unfolding service_start service_stop service_set_start_mode
  protected-Refused services names name mode s h =
      let r = ensure_service_mutable (new_executor names) name in
      let bad = ensure_service_mutable-IsError names name h in
      (guarded-Refused r _ s bad, guarded-Refused r _ s bad, guarded-Refused r _ s bad)
