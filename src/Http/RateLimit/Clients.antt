-- ===== src/Http/RateLimit/Clients.antt =====
-- What the limiter allows of one client, among the requests of others and the sweeps.
use winforge.Prelude.{
  ℕ, ◌+◌, ◌-◌, ◌*◌, ◌≤◌, ◌≡◌, arith, Bool, true, false, ◌&&◌, Option, none, some, List, [], ◌∷◌,
  inl, inr, Bool-cases, if◌then◌else◌,
}
use winforge.Text.{Text, text_eq}
use winforge.Text.Laws.{text_eq_refl, eq_of_text_eq}
use winforge.Http.RateLimit.{
  second, Bucket, Limiter, full_bucket, find_bucket, put_bucket, bucket_or_full, idle_threshold,
  is_due, sweep, swept, allow_bucket, allow,
}
use winforge.Http.RateLimit.Bounds.{spent, allow_bucket-spent, refilled, idle_threshold-min}
use winforge.Http.RateLimit.Sweep.{
  IsMap, find-put, find-put_other, IsMap-put, IsMap-sweep, Swept, find-sweep,
}

-- what the bucket of a client holds with the refill at `now`; a client without one has a full one
abbrev worth : (rate burst now : ℕ) → Option Bucket → ℕ
worth rate burst now none = burst * second
worth rate burst now (some b) = b.tokens + (now - b.last) * rate

abbrev Before : Option Bucket → ℕ → Type 0
Before none now = Unit
Before (some b) now = b.last ≤ now

module _ (rate burst now : ℕ) where
  Swept-worth :
      (o o' : Option Bucket)
      → burst ≤ 60 * rate
      → Swept (idle_threshold rate burst) now o o'
      → worth rate burst now o' ≤ worth rate burst now o
  Swept-worth o o' h (inl e) = rw e (omega arith)
  Swept-worth o o' h (inr (e, b, k, long)) =
      rw (e, k)
        (refilled rate burst (now - b.last) b.tokens h
          (omega (arith, long, idle_threshold-min rate burst)))

  Swept-Before :
      (threshold : ℕ) (o o' : Option Bucket)
      → Swept threshold now o o'
      → Before o now
      → Before o' now
  Swept-Before threshold o o' (inl e) h = rw e h
  Swept-Before threshold o o' (inr (e, b, k, long)) h = rw e tt

  -- the decision on the bucket of a client
  decision-worth :
      (o : Option Bucket)
      → Before o now
      → let (allowed, b) = allow_bucket rate burst now (bucket_or_full burst now o) in
        (spent allowed + worth rate burst now (some b) ≤ worth rate burst now o) × (b.last ≤ now)
  decision-worth none h =
      let (less, at_now) =
        allow_bucket-spent rate burst now (full_bucket burst now) (omega arith) in
      (rw at_now (ground (arith, less)), omega (arith, at_now))
  decision-worth (some b) h =
      let (less, at_now) = allow_bucket-spent rate burst now b h in
      (rw at_now (ground (arith, less)), omega (arith, at_now))

  put-worth :
      (key k : Text) (m : List (Text × Bucket))
      → Before (find_bucket key m) now
      → let (allowed, b) =
          allow_bucket rate burst now (bucket_or_full burst now (find_bucket k m)) in
        let o = find_bucket key (put_bucket k b m) in
        (spent (text_eq k key && allowed) + worth rate burst now o
          ≤ worth rate burst now (find_bucket key m))
        × Before o now
  put-worth key k m h = elim (Bool-cases (text_eq k key)) [
    | inl same ↦
        let (allowed, b) =
          allow_bucket rate burst now (bucket_or_full burst now (find_bucket key m)) in
        rw (eq_of_text_eq k key same)
          (rw (text_eq_refl key) (rw (find-put key b m) (decision-worth (find_bucket key m) h)))
    | inr other ↦
        let (allowed, b) =
          allow_bucket rate burst now (bucket_or_full burst now (find_bucket k m)) in
        rw other (rw (find-put_other key k b m other) (omega arith, h))
  ]

-- the requests of any clients, in order, each with its time
abbrev pub Requests : Type 0
Requests = List (Text × ℕ)

-- how many requests of the client `key` are allowed
unfoldable pub run_allow : (key : Text) → Requests → Limiter → ℕ
unfolding allow
run_allow key [] l = 0
run_allow key ((k, now) ∷ requests) l =
    let (allowed, l') = allow k now l in
    let n = run_allow key requests l' in if text_eq k key && allowed then n + 1 else n

-- the times do not run backwards, and end by `limit`
abbrev pub Forward : ℕ → Requests → ℕ → Type 0
Forward from [] limit = from ≤ limit
Forward from ((k, t) ∷ requests) limit = (from ≤ t) × Forward t requests limit

Forward-le :
    (from : ℕ) (requests : Requests) (limit : ℕ) → Forward from requests limit → from ≤ limit
Forward-le from [] limit h = h
Forward-le from ((k, t) ∷ requests) limit (h, hs) = omega (arith, Forward-le t requests limit hs)

split_product : (a t b r : ℕ) → a ≤ t → t ≤ b → (t - a) * r + (b - t) * r ≡ (b - a) * r
split_product a t b r h k = grind arith

module _ (rate burst : ℕ) where
  abbrev limiter : List (Text × Bucket) → Option ℕ → Limiter
  limiter m tick = record { rate = rate; burst = burst; buckets = m; last_tick = tick }

  -- newRateLimiter
  abbrev pub new_limiter : Limiter
  new_limiter = limiter [] none

  worth-later :
      (from now : ℕ) (o : Option Bucket)
      → Before o from
      → from ≤ now
      → worth rate burst now o ≤ worth rate burst from o + (now - from) * rate
  worth-later from now none h k = omega arith
  worth-later from now (some b) h k = omega (arith, split_product b.last from now rate h k)

  Before-later : (from now : ℕ) (o : Option Bucket) → Before o from → from ≤ now → Before o now
  Before-later from now none h k = tt
  Before-later from now (some b) h k = omega arith

  module _ (key : Text) (limit : ℕ) where
    -- the tokens of `key` pay for what is allowed
    abbrev IsPaid : ℕ → Requests → Type 0
    IsPaid from requests =
        (m : List (Text × Bucket)) (tick : Option ℕ)
        → IsMap m
        → Before (find_bucket key m) from
        → run_allow key requests (limiter m tick) * second
          ≤ worth rate burst from (find_bucket key m) + (limit - from) * rate

    count_spent :
        (own : Bool) (n : ℕ) → (if own then n + 1 else n) * second ≡ spent own + n * second
    count_spent true n = omega arith
    count_spent false n = omega arith

    after_sweep-IsPaid :
        (k : Text) (now : ℕ) (requests : Requests) (m : List (Text × Bucket)) (tick : Option ℕ)
        → IsPaid now requests
        → IsMap m
        → Before (find_bucket key m) now
        → let (allowed, b) =
            allow_bucket rate burst now (bucket_or_full burst now (find_bucket k m)) in
          let n = run_allow key requests (limiter (put_bucket k b m) tick) in
          (if text_eq k key && allowed then n + 1 else n) * second
          ≤ worth rate burst now (find_bucket key m) + (limit - now) * rate
    after_sweep-IsPaid k now requests m tick rest h before =
        let (allowed, b) =
          allow_bucket rate burst now (bucket_or_full burst now (find_bucket k m)) in
        let m' = put_bucket k b m in
        let (less, before') = put-worth rate burst now key k m before in
        omega (
          arith,
          count_spent (text_eq k key && allowed) (run_allow key requests (limiter m' tick)),
          less,
          rest m' tick (IsMap-put k b m h) before',
        )

    step-IsPaid :
        (k : Text) (now : ℕ) (requests : Requests)
        → burst ≤ 60 * rate
        → IsPaid now requests
        → IsPaid now ((k, now) ∷ requests)
    unfolding run_allow allow swept
    step-IsPaid k now requests fills rest m tick h before = elim (Bool-cases (is_due now tick)) [
      | inl due ↦
          let threshold = idle_threshold rate burst in
          let m1 = sweep threshold now m in
          let dropped = find-sweep threshold now key m h in
          let paid =
            after_sweep-IsPaid k now requests m1 (some now) rest (IsMap-sweep threshold now m h) (
              Swept-Before rate burst now threshold (find_bucket key m) (find_bucket key m1) dropped
                before) in
          rw due (
            omega (
              arith,
              paid,
              Swept-worth rate burst now (find_bucket key m) (find_bucket key m1) fills dropped,
            ))
      | inr early ↦ rw early (after_sweep-IsPaid k now requests m tick rest h before)
    ]

    run_allow-IsPaid :
        (from : ℕ) (requests : Requests)
        → burst ≤ 60 * rate
        → Forward from requests limit
        → IsPaid from requests
    unfolding run_allow
    run_allow-IsPaid from [] fills forward m tick h before = omega arith
    run_allow-IsPaid from ((k, now) ∷ requests) fills (later, forward) m tick h before =
        let o = find_bucket key m in
        omega (
          arith,
          step-IsPaid k now requests fills (run_allow-IsPaid now requests fills forward) m tick h
              (Before-later from now o before later),
          worth-later from now o before later,
          split_product from now limit rate later (Forward-le now requests limit forward),
        )

    -- Of the requests with any one key, in any order among those with other keys, a new limiter allows
    -- at most its burst and the refill of the time that passed, whatever buckets the sweeps drop. A
    -- bucket fills up within a minute, and the clock runs forward.
    pub run_allow-burst :
        (start : ℕ) (requests : Requests)
        → burst ≤ 60 * rate
        → Forward start requests limit
        → run_allow key requests new_limiter * second ≤ burst * second + (limit - start) * rate
    run_allow-burst start requests fills forward =
        run_allow-IsPaid start requests fills forward [] none tt tt
