-- ===== src/Http/RateLimit/Bounds.antt =====
-- What a bucket takes for a decision, and that an idle bucket is a full one.
use winforge.Prelude.{
  ℕ, ◌+◌, ◌-◌, ◌*◌, ◌≤◌, ◌<◌, ◌≡◌, refl, arith, Bool, true, false, lt→ltb, ap, sym, ◌∙◌,
}
use winforge.Http.RateLimit.{
  second, Bucket, full_bucket, capped, refill, spend, idle_threshold, allow_bucket,
}

-- the units that a decision takes out
abbrev pub spent : Bool → ℕ
spent true = second
spent false = 0

-- A decision takes what it spends out of the tokens and the refill.
pub allow_bucket-spent :
    (rate burst now : ℕ) (b : Bucket)
    → b.last ≤ now
    → let (allowed, b') = allow_bucket rate burst now b in
      (spent allowed + b'.tokens ≤ b.tokens + (now - b.last) * rate) × (b'.last ≡ now)
unfolding allow_bucket refill spend
allow_bucket-spent rate burst now b h = ground arith

pub refilled :
    (rate burst elapsed tokens : ℕ)
    → burst ≤ 60 * rate
    → 60 * second < elapsed
    → burst * second ≤ tokens + elapsed * rate
refilled rate burst elapsed tokens h k = grind arith

pub idle_threshold-min : (rate burst : ℕ) → 60 * second ≤ idle_threshold rate burst
unfolding idle_threshold
idle_threshold-min rate burst = ground arith

capped-full : (cap n : ℕ) → cap ≤ n → capped cap n ≡ cap
capped-full cap n h = ground arith

refill-full :
    (rate burst now : ℕ) (b : Bucket)
    → 0 < now - b.last
    → burst * second ≤ b.tokens + (now - b.last) * rate
    → refill rate burst now b ≡ full_bucket burst now
unfolding refill
refill-full rate burst now b h k =
    rw
      (lt→ltb 0 (now - b.last) h, capped-full (burst * second) (b.tokens + (now - b.last) * rate) k)
      refl

refill-no_time :
    (rate burst now : ℕ) → refill rate burst now (full_bucket burst now) ≡ full_bucket burst now
unfolding refill
refill-no_time rate burst now = ground arith

-- Where a bucket fills up within a minute, a bucket that has been idle for longer than the threshold
-- is as good as a full one.
pub allow_bucket-sweep :
    (rate burst now : ℕ) (b : Bucket)
    → burst ≤ 60 * rate
    → idle_threshold rate burst < now - b.last
    → allow_bucket rate burst now b ≡ allow_bucket rate burst now (full_bucket burst now)
unfolding allow_bucket
allow_bucket-sweep rate burst now b h k =
    let long : 60 * second < now - b.last = omega (arith, k, idle_threshold-min rate burst) in
    ap spend (
      refill-full rate burst now b (omega (arith, long))
        (refilled rate burst (now - b.last) b.tokens h long)
      ∙ sym (refill-no_time rate burst now))
