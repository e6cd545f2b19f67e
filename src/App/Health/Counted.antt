-- ===== src/App/Health/Counted.antt =====
-- What Health counts.
use winforge.Prelude.{
  ℕ, suc, ◌+◌, ◌≤◌, ◌≡◌, refl, ap, ◌∙◌, inl, inr, not, Bool, true, false, ◌&&◌, ◌||◌, List, [], ◌∷◌,
  length, any, All, arith, In, Bool-cases, if◌then◌else◌,
}
use winforge.Text.{Text, text_eq, CaseTable}
use winforge.Text.Laws.{text_eq_refl, text_eq_comm, eq_of_text_eq}
use winforge.Config.{Risk, Tweak, low, medium, high, other_risk}
use winforge.Config.Catalogue.Accepted.{Distinct}
use winforge.Tweak.Executor.{Executor}
use winforge.Tweak.Health.{Health, count_risk, count_tweak, count_tweaks, compute_health, start}
use winforge.Tweak.Health.Score.{HasRisk, counted, compute_health-counted}
use winforge.Tweak.Verify.{can_verify, is_applied}
use winforge.App.Health.{verifiable, applied_map, app_health}

verifiable-HasRisk : (ts : List Tweak) → All HasRisk ts → All HasRisk (verifiable ts)
unfolding verifiable
verifiable-HasRisk [] h = tt
verifiable-HasRisk (t ∷ ts) (h, hs) = elim (Bool-cases (can_verify t)) [
  | inl yes' ↦ rw yes' (h, verifiable-HasRisk ts hs)
  | inr no' ↦ rw no' (verifiable-HasRisk ts hs)
]

length-verifiable : (ts : List Tweak) → length (verifiable ts) ≤ length ts
unfolding verifiable
length-verifiable [] = omega arith
length-verifiable (t ∷ ts) = ground (arith, length-verifiable ts)

-- how many elements `p` is true of
abbrev pub count_if : {A : Type 0} → (A → Bool) → List A → ℕ
count_if p [] = 0
count_if p (x ∷ xs) = let n = count_if p xs in if p x then suc n else n

count_risk-applied :
    (t : Tweak) (h : Health) → (count_risk t.risk h).applied_tweaks ≡ h.applied_tweaks
count_risk-applied t h = ground arith

-- ComputeHealth counts the tweaks that the map has.
count_tweaks-applied :
    (applied : Text → Bool) (ts : List Tweak) (h : Health)
    → (count_tweaks applied ts h).applied_tweaks
      ≡ h.applied_tweaks + count_if (λ t. applied t.id) ts
unfolding count_tweaks
count_tweaks-applied applied [] h = omega arith
count_tweaks-applied applied (t ∷ ts) h =
    ground
      (arith, count_tweaks-applied applied ts (count_tweak applied t h), count_risk-applied t h)

-- the count of a risk, and the test for it; a risk that is not known has none
abbrev of_risk : Risk → Health → ℕ
of_risk low h = h.unapplied_low
of_risk medium h = h.unapplied_medium
of_risk high h = h.unapplied_high
of_risk (other_risk s) h = 0

abbrev pub same_risk : Risk → Risk → Bool
same_risk low low = true
same_risk medium medium = true
same_risk high high = true
same_risk _ _ = false

count_risk-of_risk :
    (r q : Risk) (h : Health)
    → of_risk r (count_risk q h) ≡ (if same_risk q r then of_risk r h + 1 else of_risk r h)
count_risk-of_risk low low h = refl
count_risk-of_risk low medium h = refl
count_risk-of_risk low high h = refl
count_risk-of_risk low (other_risk s) h = refl
count_risk-of_risk medium low h = refl
count_risk-of_risk medium medium h = refl
count_risk-of_risk medium high h = refl
count_risk-of_risk medium (other_risk s) h = refl
count_risk-of_risk high low h = refl
count_risk-of_risk high medium h = refl
count_risk-of_risk high high h = refl
count_risk-of_risk high (other_risk s) h = refl
count_risk-of_risk (other_risk u) low h = refl
count_risk-of_risk (other_risk u) medium h = refl
count_risk-of_risk (other_risk u) high h = refl
count_risk-of_risk (other_risk u) (other_risk s) h = refl

-- An applied tweak is counted under no risk.
applied-of_risk :
    (r : Risk) (h : Health)
    → of_risk r (record h { applied_tweaks = h.applied_tweaks + 1 }) ≡ of_risk r h
applied-of_risk low h = refl
applied-of_risk medium h = refl
applied-of_risk high h = refl
applied-of_risk (other_risk u) h = refl

count_tweak-of_risk :
    (r : Risk) (applied : Text → Bool) (t : Tweak) (h : Health)
    → of_risk r (count_tweak applied t h)
      ≡ (if not (applied t.id) && same_risk t.risk r then of_risk r h + 1 else of_risk r h)
count_tweak-of_risk r applied t h = elim (Bool-cases (applied t.id)) [
  | inl yes' ↦ rw yes' (applied-of_risk r h)
  | inr no' ↦ rw no' (count_risk-of_risk r t.risk h)
]

-- ComputeHealth counts under a risk the tweaks of that risk that the map does not have.
count_tweaks-of_risk :
    (r : Risk) (applied : Text → Bool) (ts : List Tweak) (h : Health)
    → of_risk r (count_tweaks applied ts h)
      ≡ of_risk r h + count_if (λ t. not (applied t.id) && same_risk t.risk r) ts
unfolding count_tweaks
count_tweaks-of_risk r applied [] h = omega arith
count_tweaks-of_risk r applied (t ∷ ts) h = ground (
  arith,
  count_tweaks-of_risk r applied ts (count_tweak applied t h),
  count_tweak-of_risk r applied t h,
)

module _ ⦃c : CaseTable⦄ {S : Type 0} (E : Executor S) (s : S) where
  -- An id that is among `seen` is none of the ids of a list that is distinct from them.
  Distinct-other :
      (seen : List Text) (id : Text) (ts : List Tweak)
      → any (text_eq id) seen ≡ true
      → Distinct seen ts
      → applied_map E ts s id ≡ false
  unfolding applied_map
  Distinct-other seen id [] h d = refl
  Distinct-other seen id (t ∷ ts) h (fresh, d) = elim (Bool-cases (text_eq t.id id)) [
    | inl same ↦ absurd cc (eq_of_text_eq t.id id same)
    | inr other ↦ rw other (Distinct-other (t.id ∷ seen) id ts (rw h (ground arith)) d)
  ]

  Distinct-unseen :
      (seen : List Text) (ts : List Tweak) (t : Tweak)
      → Distinct seen ts
      → In t ts
      → any (text_eq t.id) seen ≡ false
  Distinct-unseen seen [] t d k = absurd k
  Distinct-unseen seen (u ∷ ts) t (fresh, d) (inl e) = rw e fresh
  Distinct-unseen seen (u ∷ ts) t (fresh, d) (inr k) =
      let later = Distinct-unseen (u.id ∷ seen) ts t d k in ground arith

  applied_map-cons :
      (id : Text) (t : Tweak) (ts : List Tweak)
      → applied_map E (t ∷ ts) s id ≡ (text_eq t.id id && is_applied E t s || applied_map E ts s id)
  unfolding applied_map
  applied_map-cons id t ts = refl

  applied_map-head :
      (seen : List Text) (t : Tweak) (ts : List Tweak)
      → Distinct (t.id ∷ seen) ts
      → applied_map E (t ∷ ts) s t.id ≡ is_applied E t s
  applied_map-head seen t ts d =
      let other = Distinct-other (t.id ∷ seen) t.id ts (rw (text_eq_refl t.id) refl) d in
      rw (applied_map-cons t.id t ts, text_eq_refl t.id, other) (ground arith)

  -- The map of the applied tweaks has the answer of IsApplied for each of them.
  applied_map-In :
      (seen : List Text) (ts : List Tweak) (t : Tweak)
      → Distinct seen ts
      → In t ts
      → applied_map E ts s t.id ≡ is_applied E t s
  applied_map-In seen [] t d k = absurd k
  applied_map-In seen (u ∷ ts) t (fresh, d) (inl e) = rw e (applied_map-head seen u ts d)
  applied_map-In seen (u ∷ ts) t (fresh, d) (inr k) =
      let later = applied_map-In (u.id ∷ seen) ts t d k in
      let unseen = Distinct-unseen (u.id ∷ seen) ts t d k in
      ground (arith, applied_map-cons t.id u ts, text_eq_comm u.id t.id)

In-kept :
    (b : Bool) (t u : Tweak) (ts : List Tweak) → In t (if b then u ∷ ts else ts) → In t (u ∷ ts)
In-kept true t u ts k = k
In-kept false t u ts k = inr k

In-verifiable : (ts : List Tweak) (t : Tweak) → In t (verifiable ts) → In t ts
unfolding verifiable
In-verifiable [] t k = k
In-verifiable (u ∷ ts) t k = elim (In-kept (can_verify u) t u (verifiable ts) k) [
  | inl e ↦ inl e
  | inr later ↦ inr (In-verifiable ts t later)
]

count_if-In :
    {A : Type 0} (p q : A → Bool) (xs : List A)
    → ((x : A) → In x xs → p x ≡ q x)
    → count_if p xs ≡ count_if q xs
count_if-In p q [] h = refl
count_if-In p q (x ∷ xs) h = rw (h x (inl refl), count_if-In p q xs (λ y k. h y (inr k))) refl

module _ ⦃c : CaseTable⦄ {S : Type 0} (E : Executor S) (s : S) where
  count_if-verifiable :
      (ts : List Tweak)
      → count_if (λ t. is_applied E t s) (verifiable ts) ≡ count_if (λ t. is_applied E t s) ts
  unfolding verifiable is_applied
  count_if-verifiable [] = refl
  count_if-verifiable (t ∷ ts) = ground (arith, count_if-verifiable ts)

  count_if-kept :
      (p : Tweak → Bool) (ts : List Tweak)
      → count_if p (verifiable ts) ≡ count_if (λ t. can_verify t && p t) ts
  unfolding verifiable
  count_if-kept p [] = refl
  count_if-kept p (t ∷ ts) = ground (arith, count_if-kept p ts)

  -- a tweak that can be verified, that is not in its target state, and that has the risk `r`
  abbrev pub is_unapplied : Risk → Tweak → Bool
  is_unapplied r t = can_verify t && (not (is_applied E t s) && same_risk t.risk r)

  app_health-of_risk :
      (r : Risk) (ts : List Tweak) (h : Health)
      → Distinct [] ts
      → of_risk r (count_tweaks (applied_map E ts s) (verifiable ts) h)
        ≡ of_risk r h + count_if (is_unapplied r) ts
  app_health-of_risk r ts h d =
      count_tweaks-of_risk r (applied_map E ts s) (verifiable ts) h
      ∙ ap (λ n. of_risk r h + n)
          (count_if-In _ (λ t. not (is_applied E t s) && same_risk t.risk r) (verifiable ts)
              (λ t k. rw (applied_map-In E s [] ts t d (In-verifiable ts t k)) refl)
            ∙ count_if-kept (λ t. not (is_applied E t s) && same_risk t.risk r) ts)

  -- In a catalogue whose ids are distinct and whose risks are known, Health counts as applied exactly
  -- the tweaks that IsApplied finds in their target state, under each risk exactly the tweaks of that
  -- risk that can be verified and are not applied, and every tweak once: as applied, under its risk, or
  -- as one that cannot be verified.
  pub app_health-counted :
      (ts : List Tweak) (bloatware : ℕ)
      → Distinct [] ts
      → All HasRisk ts
      → let a = app_health E ts bloatware s in
        (a.health.applied_tweaks ≡ count_if (λ t. is_applied E t s) ts)
        × (a.health.unapplied_low ≡ count_if (is_unapplied low) ts)
        × (a.health.unapplied_medium ≡ count_if (is_unapplied medium) ts)
        × (a.health.unapplied_high ≡ count_if (is_unapplied high) ts)
        × (counted a.health + a.unverifiable_tweaks ≡ length ts)
  unfolding app_health compute_health
  app_health-counted ts bloatware d r = (
    omega (
      arith,
      count_tweaks-applied (applied_map E ts s) (verifiable ts)
          (start (length (verifiable ts)) bloatware),
      count_if-In (λ t. applied_map E ts s t.id) (λ t. is_applied E t s) (verifiable ts)
          (λ t k. applied_map-In E s [] ts t d (In-verifiable ts t k)),
      count_if-verifiable ts,
    ),
    omega (arith, app_health-of_risk low ts (start (length (verifiable ts)) bloatware) d),
    omega (arith, app_health-of_risk medium ts (start (length (verifiable ts)) bloatware) d),
    omega (arith, app_health-of_risk high ts (start (length (verifiable ts)) bloatware) d),
    omega (
      arith,
      length-verifiable ts,
      compute_health-counted (verifiable ts) (applied_map E ts s) bloatware
          (verifiable-HasRisk ts r),
    ),
  )
