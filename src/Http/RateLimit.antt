-- ===== src/Http/RateLimit.antt =====
-- internal/httpapi/ratelimit.go: the token bucket. Time is in nanoseconds, and a token is a thousand
-- million units, so that the refill of `elapsed` seconds at `rate` tokens a second is exactly
-- `elapsed * rate` units; the source keeps the tokens in a float64. Sub of two times is not negative here
-- where the clock runs forward.
pub mod Bounds
pub mod Sweep
pub mod Clients
use winforge.Prelude.{
  ℕ, zero, suc, ◌+◌, ◌-◌, ◌*◌, ◌/◌, Bool, true, false, Option, none, some, List, [], ◌∷◌,
  if◌then◌else◌, ltb, leb,
}
use winforge.Text.{Text, text_eq}

-- a second, and a token
abbrev pub second : ℕ
second = 1000000000

-- `last` is the time of the last refill.
pub record Bucket : Type 0 where
  pub tokens : ℕ
  pub last : ℕ

-- The map of buckets by the client's address; `last_tick` is none before the first sweep.
pub record Limiter : Type 0 where
  pub rate : ℕ
  pub burst : ℕ
  pub buckets : List (Text × Bucket)
  pub last_tick : Option ℕ

abbrev pub full_bucket : ℕ → ℕ → Bucket
full_bucket burst now = record { tokens = burst * second; last = now }

abbrev pub capped : ℕ → ℕ → ℕ
capped cap n = if ltb cap n then cap else n

-- the refill at the time `now`
unfoldable pub refill : ℕ → ℕ → ℕ → Bucket → Bucket
refill rate burst now b =
    if ltb 0 (now - b.last)
    then record { tokens = capped (burst * second) (b.tokens + (now - b.last) * rate); last = now }
    else b

-- the decision, after the refill
unfoldable pub spend : Bucket → Bool × Bucket
spend b =
    if ltb b.tokens second then (false, b) else (true, record b { tokens = b.tokens - second })

abbrev pub find_bucket : Text → List (Text × Bucket) → Option Bucket
find_bucket key [] = none
find_bucket key ((k, b) ∷ m) = if text_eq k key then some b else find_bucket key m

abbrev pub put_bucket : Text → Bucket → List (Text × Bucket) → List (Text × Bucket)
put_bucket key b [] = (key, b) ∷ []
put_bucket key b ((k, c) ∷ m) = if text_eq k key then (k, b) ∷ m else (k, c) ∷ put_bucket key b m

-- the time after which an idle bucket is dropped, at least a minute; the conversion to a Duration
-- rounds burst / rate down to whole seconds
unfoldable pub idle_threshold : ℕ → ℕ → ℕ
idle_threshold rate burst = if ltb (burst / rate) 60 then 60 * second else burst / rate * second

unfoldable pub sweep : ℕ → ℕ → List (Text × Bucket) → List (Text × Bucket)
sweep threshold now [] = []
sweep threshold now ((k, b) ∷ m) =
    let rest = sweep threshold now m in if ltb threshold (now - b.last) then rest else (k, b) ∷ rest

abbrev pub is_due : ℕ → Option ℕ → Bool
is_due now none = true
is_due now (some tick) = ltb (60 * second) (now - tick)

unfoldable pub swept : ℕ → Limiter → Limiter
unfolding sweep idle_threshold
swept now l =
    if is_due now l.last_tick
    then record l {
      buckets = sweep (idle_threshold l.rate l.burst) now l.buckets;
      last_tick = some now;
    }
    else l

abbrev pub bucket_or_full : ℕ → ℕ → Option Bucket → Bucket
bucket_or_full burst now none = full_bucket burst now
bucket_or_full burst now (some b) = b

-- what `allow` does with the bucket of its key
unfoldable pub allow_bucket : ℕ → ℕ → ℕ → Bucket → Bool × Bucket
unfolding refill spend
allow_bucket rate burst now b = spend (refill rate burst now b)

unfoldable pub allow : Text → ℕ → Limiter → Bool × Limiter
unfolding swept allow_bucket
allow key now limiter =
    let l = swept now limiter in
    let (allowed, b) =
      allow_bucket l.rate l.burst now (bucket_or_full l.burst now (find_bucket key l.buckets)) in
    (allowed, record l { buckets = put_bucket key b l.buckets })
