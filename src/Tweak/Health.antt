-- ===== src/Tweak/Health.antt =====
-- internal/tweak/health.go: the health score.
pub mod Score
use winforge.Prelude.{
  ℕ, suc, ◌+◌, ◌-◌, ◌*◌, ◌≤◌, ◌<◌, ◌≡◌, refl, Bool, true, false, List, [], ◌∷◌, length, arith,
  if◌then◌else◌,
}
use winforge.Text.{Text}
use winforge.Config.{Risk, Tweak, low, medium, high, other_risk}

pub record Health : Type 0 where
  pub score : ℕ
  pub total_tweaks : ℕ
  pub applied_tweaks : ℕ
  pub unapplied_low : ℕ
  pub unapplied_medium : ℕ
  pub unapplied_high : ℕ
  pub bloatware_count : ℕ

-- the health before any tweak is looked at
abbrev pub start : ℕ → ℕ → Health
start total bloatware = record {
  score = 100;
  total_tweaks = total;
  applied_tweaks = 0;
  unapplied_low = 0;
  unapplied_medium = 0;
  unapplied_high = 0;
  bloatware_count = bloatware;
}

abbrev pub count_risk : Risk → Health → Health
count_risk low h = record h { unapplied_low = h.unapplied_low + 1 }
count_risk medium h = record h { unapplied_medium = h.unapplied_medium + 1 }
count_risk high h = record h { unapplied_high = h.unapplied_high + 1 }
count_risk (other_risk s) h = h

-- one round of the loop; `applied` is the map of the applied tweaks
abbrev pub count_tweak : (Text → Bool) → Tweak → Health → Health
count_tweak applied t h =
    if applied t.id then record h { applied_tweaks = h.applied_tweaks + 1 } else count_risk t.risk h

unfoldable pub count_tweaks : (Text → Bool) → List Tweak → Health → Health
count_tweaks applied [] h = h
count_tweaks applied (t ∷ ts) h = count_tweaks applied ts (count_tweak applied t h)

-- The score is clamped at 0, which is where the subtraction of natural numbers stops; it starts at
-- 100 and only falls.
unfoldable pub compute_health : List Tweak → (Text → Bool) → ℕ → Health
unfolding count_tweaks
compute_health tweaks applied bloatware =
    let h = count_tweaks applied tweaks (start (length tweaks) bloatware) in
    record h {
      score =
          100
          - (h.unapplied_low * 2 + h.unapplied_medium * 5 + h.unapplied_high * 10 + bloatware * 3);
    }
