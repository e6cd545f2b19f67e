-- ===== src/Config/Catalogue/Accepted.antt =====
-- What an accepted catalogue has.
use winforge.Prelude.{
  ℕ, suc, ◌≡◌, ◌≢◌, refl, ap, arith, Bool, true, false, ◌&&◌, List, [], ◌∷◌, length, any, All,
}
use mathlib.Core.Path.{subst}
use winforge.Text.{Text, text_eq, trim_space, is_empty, to_lower, CaseTable}
use winforge.Errors.{Err, Result, ok, err, refuse, no_operations, no_revert, empty_id, duplicate_id}
use winforge.Config.{Operation, Risk, low, medium, high, other_risk, Tweak}
use winforge.Config.Validate.{check_len, check_count, validate_operation}
use winforge.Config.Validate.Accepted.{>>=-ok}
use winforge.Config.Catalogue.{
  is_nil, risk_of, validate_risk, check_limits, validate_operations, check_tweak, corrected,
  validate_tweak, validate_from, validate,
}
use winforge.Tweak.Health.Score.{IsRisk, HasRisk}

abbrev pub IsAccepted : ⦃c : CaseTable⦄ → Operation → Type 0
IsAccepted o = validate_operation o ≡ ok tt

-- What every part of the program may rely on of a tweak.
pub record IsValid ⦃c : CaseTable⦄ (t : Tweak) : Type 0 where
  pub known_risk : HasRisk t
  pub has_operations : t.operations ≢ []
  pub can_revert : t.reversible ≡ true → t.revert ≢ []
  pub operations_accepted : All IsAccepted t.operations
  pub revert_accepted : All IsAccepted t.revert

-- No id is among `seen`, and none comes twice.
abbrev pub Distinct : List Text → List Tweak → Type 0
Distinct seen [] = Unit
Distinct seen (t ∷ ts) = (any (text_eq t.id) seen ≡ false) × Distinct (t.id ∷ seen) ts

ok_injective {ℓ} : {A : Type ℓ} {a b : A} → ok a ≡ ok b → a ≡ b
ok_injective {a = a} h = ap (λ (r : Result _). elim r [ ok x ↦ x | err e ↦ a ]) h

module _ ⦃c : CaseTable⦄ where
  abbrev Known : Result Risk → Type 0
  Known (ok r) = IsRisk r
  Known (err e) = Unit

  risk_of-Known : (s : Text) → Known (risk_of s)
  unfolding risk_of
  risk_of-Known s = ground arith

  validate_risk-Known : (r : Risk) → Known (validate_risk r)
  unfolding validate_risk
  validate_risk-Known low = tt
  validate_risk-Known medium = tt
  validate_risk-Known high = tt
  validate_risk-Known (other_risk s) = risk_of-Known (to_lower s)

  validate_operations-All :
      (os : List Operation) → validate_operations os ≡ ok tt → All IsAccepted os
  unfolding validate_operations
  validate_operations-All [] h = tt
  validate_operations-All (o ∷ os) h =
      let (u, e, rest) = >>=-ok (validate_operation o) _ h in (e, validate_operations-All os rest)

  filled : (os : List Operation) → refuse (is_nil os) no_operations ≡ ok tt → os ≢ []
  filled [] h = cc
  filled (o ∷ os) h = λ k. cc

  reversible-filled :
      (reversible : Bool) (os : List Operation)
      → refuse (reversible && is_nil os) no_revert ≡ ok tt
      → reversible ≡ true
      → os ≢ []
  reversible-filled true [] h = cc
  reversible-filled true (o ∷ os) h = λ r k. cc
  reversible-filled false os h = λ r. cc

  -- a tweak that was checked: valid, with the id that it was checked with
  record Checked (id : Text) (t : Tweak) : Type 0 where
    same_id : t.id ≡ id
    valid : IsValid t

  check_tweak-Checked : (t t' : Tweak) → check_tweak t ≡ ok t' → Checked t.id t'
  unfolding check_tweak
  check_tweak-Checked t t' h =
      let (u0, limits, h1) = >>=-ok (check_limits t) _ h in
      let (u1, some_op, h2) = >>=-ok (refuse (is_nil t.operations) no_operations) _ h1 in
      let (u2, some_revert, h3) =
        >>=-ok (refuse (t.reversible && is_nil t.revert) no_revert) _ h2 in
      let (risk, is_risk, h4) = >>=-ok (validate_risk t.risk) _ h3 in
      let (u3, ops, h5) = >>=-ok (validate_operations t.operations) _ h4 in
      let (u4, revert, h6) = >>=-ok (validate_operations t.revert) _ h5 in
      subst (Checked t.id) (ok_injective h6) (record {
        same_id = refl;
        valid = record {
          known_risk = subst Known is_risk (validate_risk-Known t.risk);
          has_operations = filled t.operations some_op;
          can_revert = reversible-filled t.reversible t.revert some_revert;
          operations_accepted = validate_operations-All t.operations ops;
          revert_accepted = validate_operations-All t.revert revert;
        };
      })

  module _ (upper : ℕ → ℕ) where
    record CheckedNew (seen : List Text) (t : Tweak) : Type 0 where
      is_new : any (text_eq t.id) seen ≡ false
      valid : IsValid t

    refused_false : (b : Bool) (e : Err) → refuse b e ≡ ok tt → b ≡ false
    refused_false true e h = cc
    refused_false false e h = refl

    validate_tweak-CheckedNew :
        (seen : List Text) (t t' : Tweak) → validate_tweak upper seen t ≡ ok t' → CheckedNew seen t'
    unfolding validate_tweak
    validate_tweak-CheckedNew seen t t' h =
        let id = trim_space t.id in
        let (u0, some_id, h1) = >>=-ok (refuse (is_empty id) empty_id) _ h in
        let (u1, short, h2) = >>=-ok (check_len id 256) _ h1 in
        let (u2, new, h3) = >>=-ok (refuse (any (text_eq id) seen) duplicate_id) _ h2 in
        let checked = check_tweak-Checked (corrected upper id t) t' h3 in
        record {
          is_new = rw checked.same_id (refused_false (any (text_eq id) seen) duplicate_id new);
          valid = checked.valid;
        }

    validate_from-IsValid :
        (seen : List Text) (ts ts' : List Tweak)
        → validate_from upper seen ts ≡ ok ts'
        → Distinct seen ts' × All IsValid ts' × (length ts' ≡ length ts)
    unfolding validate_from
    validate_from-IsValid seen [] ts' h =
        subst (λ (l : List Tweak). Distinct seen l × All IsValid l × (length l ≡ 0))
          (ok_injective h) (tt, tt, refl)
    validate_from-IsValid seen (t ∷ ts) ts' h =
        let (t', one, h1) = >>=-ok (validate_tweak upper seen t) _ h in
        let (rest', rest, h2) = >>=-ok (validate_from upper (t'.id ∷ seen) ts) _ h1 in
        let here = validate_tweak-CheckedNew seen t t' one in
        let (distinct, valid, same) = validate_from-IsValid (t'.id ∷ seen) ts rest' rest in
        subst (λ (l : List Tweak). Distinct seen l × All IsValid l × (length l ≡ suc (length ts)))
          (ok_injective h2) ((here.is_new, distinct), (here.valid, valid), ap suc same)

    -- A catalogue that Validate accepts keeps its number of tweaks. No id comes twice; every tweak has
    -- one of the three risks, has operations, has revert operations if it is reversible, and each of
    -- its operations and revert operations is one that validateOperation accepts.
    pub validate-IsValid :
        (ts ts' : List Tweak)
        → validate upper ts ≡ ok ts'
        → Distinct [] ts' × All IsValid ts' × (length ts' ≡ length ts)
    unfolding validate
    validate-IsValid ts ts' h =
        let (u, few, rest) = >>=-ok (check_count (length ts) 4096) _ h in
        validate_from-IsValid [] ts ts' rest
