-- ===== src/Tweak/Health/Score.antt =====
-- What the health score depends on.
use winforge.Prelude.{
  ℕ, ◌+◌, ◌*◌, ◌≤◌, ◌≡◌, Bool, true, List, [], ◌∷◌, length, arith, All, Bool-cases, inl, inr,
}
use winforge.Text.{Text}
use winforge.Config.{Risk, Tweak, low, medium, high, other_risk}
use winforge.Tweak.Health.{Health, start, count_risk, count_tweak, count_tweaks, compute_health}

abbrev penalty : Health → ℕ
penalty h = h.unapplied_low * 2 + h.unapplied_medium * 5 + h.unapplied_high * 10

abbrev pub counted : Health → ℕ
counted h = h.applied_tweaks + h.unapplied_low + h.unapplied_medium + h.unapplied_high

-- a risk that ValidateRisk lets through
abbrev pub IsRisk : Risk → Type 0
IsRisk (other_risk s) = ⊥
IsRisk _ = Unit

abbrev pub HasRisk : Tweak → Type 0
HasRisk t = IsRisk t.risk

count_risk-counted : (r : Risk) (h : Health) → IsRisk r → counted (count_risk r h) ≡ counted h + 1
count_risk-counted low h k = omega arith
count_risk-counted medium h k = omega arith
count_risk-counted high h k = omega arith
count_risk-counted (other_risk s) h k = absurd k

count_tweak-counted :
    (applied : Text → Bool) (t : Tweak) (h : Health)
    → HasRisk t
    → counted (count_tweak applied t h) ≡ counted h + 1
count_tweak-counted applied t h k = elim (Bool-cases (applied t.id)) [
  | inl yes' ↦ rw yes' (omega arith)
  | inr no' ↦ rw no' (count_risk-counted t.risk h k)
]

count_tweaks-counted :
    (applied : Text → Bool) (ts : List Tweak) (h : Health)
    → All HasRisk ts
    → counted (count_tweaks applied ts h) ≡ counted h + length ts
unfolding count_tweaks
count_tweaks-counted applied [] h k = omega arith
count_tweaks-counted applied (t ∷ ts) h (k, ks) = omega (
  arith,
  count_tweaks-counted applied ts (count_tweak applied t h) ks,
  count_tweak-counted applied t h k,
)

-- In a validated catalogue every tweak is counted once: as applied, or under its risk.
pub compute_health-counted :
    (ts : List Tweak) (applied : Text → Bool) (bloatware : ℕ)
    → All HasRisk ts
    → counted (compute_health ts applied bloatware) ≡ length ts
unfolding compute_health
compute_health-counted ts applied bloatware k =
    omega (arith, count_tweaks-counted applied ts (start (length ts) bloatware) k)

count_tweak_mono :
    (a b : Text → Bool) (t : Tweak) (g h : Health)
    → (a t.id ≡ true → b t.id ≡ true)
    → penalty g ≤ penalty h
    → penalty (count_tweak b t g) ≤ penalty (count_tweak a t h)
count_tweak_mono a b t g h k p = ground arith

count_tweaks_mono :
    (a b : Text → Bool) (ts : List Tweak) (g h : Health)
    → ((id : Text) → a id ≡ true → b id ≡ true)
    → penalty g ≤ penalty h
    → penalty (count_tweaks b ts g) ≤ penalty (count_tweaks a ts h)
unfolding count_tweaks
count_tweaks_mono a b [] g h k p = p
count_tweaks_mono a b (t ∷ ts) g h k p =
    count_tweaks_mono a b ts (count_tweak b t g) (count_tweak a t h) k
      (count_tweak_mono a b t g h (k t.id) p)

-- Applying more tweaks and finding less bloatware never lowers the score.
pub compute_health_mono :
    (ts : List Tweak) (a b : Text → Bool) (more less : ℕ)
    → ((id : Text) → a id ≡ true → b id ≡ true)
    → less ≤ more
    → (compute_health ts a more).score ≤ (compute_health ts b less).score
unfolding compute_health
compute_health_mono ts a b more less k p = omega (
  arith,
  count_tweaks_mono a b ts (start (length ts) less) (start (length ts) more) k (omega arith),
)
