-- ===== src/App/Health.antt =====
-- internal/app/app.go: AppliedMap and Health.
pub mod Counted
use winforge.Prelude.{ℕ, ◌-◌, Bool, true, ◌&&◌, List, [], ◌∷◌, length, any, if◌then◌else◌}
use winforge.Text.{Text, text_eq, CaseTable}
use winforge.Config.{Tweak}
use winforge.Tweak.Executor.{Executor}
use winforge.Tweak.Health.{Health, compute_health}
use winforge.Tweak.Verify.{can_verify, is_applied}

-- the tweaks whose state can be verified
unfoldable pub verifiable : List Tweak → List Tweak
verifiable [] = []
verifiable (t ∷ ts) = let rest = verifiable ts in if can_verify t then t ∷ rest else rest

-- Health with its field UnverifiableTweaks
pub record AppHealth : Type 0 where
  pub health : Health
  pub unverifiable_tweaks : ℕ

module _ ⦃c : CaseTable⦄ {S : Type 0} (E : Executor S) where
  -- AppliedMap, as the test of an id
  unfoldable pub applied_map : List Tweak → S → Text → Bool
  unfolding is_applied
  applied_map tweaks s id = any (λ t. text_eq t.id id && is_applied E t s) tweaks

  -- App.Health
  unfoldable pub app_health : List Tweak → ℕ → S → AppHealth
  unfolding applied_map verifiable compute_health
  app_health tweaks bloatware s = record {
    health = compute_health (verifiable tweaks) (applied_map tweaks s) bloatware;
    unverifiable_tweaks = length tweaks - length (verifiable tweaks);
  }
