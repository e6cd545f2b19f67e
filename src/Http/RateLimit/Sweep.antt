-- ===== src/Http/RateLimit/Sweep.antt =====
-- The sweep is not seen by the clients.
use winforge.Prelude.{
  ℕ, ◌-◌, ◌*◌, ◌≤◌, ◌<◌, ◌≡◌, refl, sym, ap, ◌∙◌, arith, false, Option, none, some, List, [], ◌∷◌,
  ◌⊎◌, inl, inr, Bool-cases, ltb, if◌then◌else◌,
}
use mathlib.Core.Path.{subst}
use winforge.Text.{Text, text_eq}
use winforge.Text.Laws.{text_eq_refl, text_eq_comm, eq_of_text_eq}
use winforge.Http.RateLimit.{
  Bucket, Limiter, find_bucket, put_bucket, bucket_or_full, idle_threshold, is_due, sweep, swept,
  allow_bucket, allow,
}
use winforge.Http.RateLimit.Bounds.{allow_bucket-sweep}

-- No key comes twice.
abbrev pub IsMap : List (Text × Bucket) → Type 0
IsMap [] = Unit
IsMap ((k, b) ∷ m) = (find_bucket k m ≡ none) × IsMap m

pub find-put :
    (key : Text) (b : Bucket) (m : List (Text × Bucket))
    → find_bucket key (put_bucket key b m) ≡ some b
find-put key b [] = rw (text_eq_refl key) refl
find-put key b ((k, c) ∷ m) = elim (Bool-cases (text_eq k key)) [
  | inl same ↦ rw same (rw same refl)
  | inr other ↦ rw other (rw other (find-put key b m))
]

pub find-put_other :
    (key k : Text) (b : Bucket) (m : List (Text × Bucket))
    → text_eq k key ≡ false
    → find_bucket key (put_bucket k b m) ≡ find_bucket key m
find-put_other key k b [] h = rw h refl
find-put_other key k b ((j, c) ∷ m) h = elim (Bool-cases (text_eq j k)) [
  | inl same ↦
      let other : text_eq j key ≡ false = rw (eq_of_text_eq j k same) h in rw same (rw other refl)
  | inr other ↦
      rw other (ap (λ o. if text_eq j key then some c else o) (find-put_other key k b m h))
]

pub IsMap-put :
    (k : Text) (b : Bucket) (m : List (Text × Bucket)) → IsMap m → IsMap (put_bucket k b m)
IsMap-put k b [] h = (refl, tt)
IsMap-put k b ((j, c) ∷ m) (new, h) = elim (Bool-cases (text_eq j k)) [
  | inl same ↦ rw same (new, h)
  | inr other ↦
      rw other (find-put_other j k b m (text_eq_comm k j ∙ other) ∙ new, IsMap-put k b m h)
]

module _ (threshold now : ℕ) where
  find-sweep-none :
      (key : Text) (m : List (Text × Bucket))
      → find_bucket key m ≡ none
      → find_bucket key (sweep threshold now m) ≡ none
  unfolding sweep
  find-sweep-none key [] h = refl
  find-sweep-none key ((k, b) ∷ m) h = ground (arith, find-sweep-none key m)

  pub IsMap-sweep : (m : List (Text × Bucket)) → IsMap m → IsMap (sweep threshold now m)
  unfolding sweep
  IsMap-sweep [] h = tt
  IsMap-sweep ((k, b) ∷ m) (new, h) = ground (arith, find-sweep-none k m new, IsMap-sweep m h)

  -- The sweep keeps the bucket of a key, or drops one that has been idle.
  abbrev pub Swept : Option Bucket → Option Bucket → Type 0
  Swept o o' = (o' ≡ o) ⊎ ((o' ≡ none) × (b : Bucket) × (o ≡ some b) × (threshold < now - b.last))

  pub find-sweep :
      (key : Text) (m : List (Text × Bucket))
      → IsMap m
      → Swept (find_bucket key m) (find_bucket key (sweep threshold now m))
  unfolding sweep
  find-sweep key [] h = inl refl
  find-sweep key ((k, b) ∷ m) (new, h) = elim (Bool-cases (ltb threshold (now - b.last))) [
    | inl idle ↦ elim (Bool-cases (text_eq k key)) [
      | inl same ↦
          let gone : find_bucket key m ≡ none =
            subst (λ (j : Text). find_bucket j m ≡ none) (eq_of_text_eq k key same) new in
          rw idle (rw same (inr (find-sweep-none key m gone, b, refl, ground arith)))
      | inr other ↦ rw idle (rw other (find-sweep key m h))
    ]
    | inr young ↦ elim (Bool-cases (text_eq k key)) [
      | inl same ↦ rw young (rw same (inl refl))
      | inr other ↦ rw young (rw other (find-sweep key m h))
    ]
  ]

-- a dropped bucket is decided as a full one
Swept-allow_bucket :
    (rate burst now : ℕ) (o o' : Option Bucket)
    → burst ≤ 60 * rate
    → Swept (idle_threshold rate burst) now o o'
    → allow_bucket rate burst now (bucket_or_full burst now o')
      ≡ allow_bucket rate burst now (bucket_or_full burst now o)
Swept-allow_bucket rate burst now o o' h (inl e) = rw e refl
Swept-allow_bucket rate burst now o o' h (inr (e, b, k, long)) =
    rw (e, k) (sym (allow_bucket-sweep rate burst now b h long))

swept-Swept :
    (key : Text) (now : ℕ) (l : Limiter)
    → IsMap l.buckets
    → Swept
        (idle_threshold l.rate l.burst)
        now
        (find_bucket key l.buckets)
        (find_bucket key (swept now l).buckets)
unfolding swept
swept-Swept key now l h = elim (Bool-cases (is_due now l.last_tick)) [
  | inl due ↦ rw due (find-sweep (idle_threshold l.rate l.burst) now key l.buckets h)
  | inr early ↦ rw early (inl refl)
]

swept-rate :
    (now : ℕ) (l : Limiter) → ((swept now l).rate ≡ l.rate) × ((swept now l).burst ≡ l.burst)
unfolding swept
swept-rate now l = elim (Bool-cases (is_due now l.last_tick)) [
  | inl due ↦ rw due (refl, refl)
  | inr early ↦ rw early (refl, refl)
]

-- The sweep is not seen: where a bucket fills up within a minute and no key comes twice, allow decides on
-- a request as the bucket of its key, or a full one where there is none, decides without a sweep, and
-- leaves the key with the same bucket.
pub allow-sweep :
    (key : Text) (now : ℕ) (l : Limiter)
    → l.burst ≤ 60 * l.rate
    → IsMap l.buckets
    → let (allowed, b) =
        allow_bucket l.rate l.burst now (bucket_or_full l.burst now (find_bucket key l.buckets)) in
      ((allow key now l).0 ≡ allowed) × (find_bucket key (allow key now l).1.buckets ≡ some b)
unfolding allow
allow-sweep key now l h m =
    let (same_rate, same_burst) = swept-rate now l in
    let same =
      Swept-allow_bucket l.rate l.burst now (find_bucket key l.buckets)
        (find_bucket key (swept now l).buckets) h (swept-Swept key now l m) in
    rw (same_rate, same_burst, same)
      (
        refl,
        find-put key
            (allow_bucket l.rate l.burst now
              (bucket_or_full l.burst now (find_bucket key l.buckets))).1
            (swept now l).buckets,
      )
