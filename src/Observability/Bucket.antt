-- ===== src/Observability/Bucket.antt =====
-- `RateLimiter`: a token bucket for each key.
pub mod Allowance
use production_rag.Base.{
  ℕ, ◌+◌, ◌-◌, ◌*◌, min, Option, none, some, Text, Dict, lookup, insert, nat_eq, list_eq, leb, eqb,
  if◌then◌else◌,
}

-- `rate` parts are added with each tick, and a request takes `token` parts.
pub record Limits : Type 0 where
  pub rate : ℕ
  pub capacity : ℕ
  pub token : ℕ

pub record Bucket : Type 0 where
  pub tokens : ℕ
  pub updated : ℕ

pub record Limiter : Type 0 where
  pub limits : Limits
  pub buckets : Dict Text Bucket

-- What `acquire` returns: 0, or the seconds to wait, as the missing parts over the rate.
pub data Answer : Type 0 where
  go_on : Answer
  wait : ℕ → ℕ → Answer

abbrev pub bucket_or_full : Limits → ℕ → Option Bucket → Bucket
bucket_or_full l now none = record { tokens = l.capacity; updated = now }
bucket_or_full l now (some b) = b

-- The clock is monotonic: `now` is at least `updated`.
abbrev pub refill : Limits → ℕ → Bucket → ℕ
refill l now b = min l.capacity (b.tokens + (now - b.updated) * l.rate)

unfoldable pub take_token : Limits → ℕ → Bucket → Answer × Bucket
take_token l now b =
    let tokens = refill l now b in
    if leb l.token tokens
    then (go_on, record { tokens = tokens - l.token; updated = now })
    else (wait (l.token - tokens) l.rate, record { tokens = tokens; updated = now })

unfoldable pub acquire : Text → ℕ → Limiter → Answer × Limiter
unfolding take_token
acquire key now r =
    if eqb r.limits.rate 0
    then (go_on, r)
    else let taken = take_token r.limits now (bucket_or_full r.limits now (lookup key r.buckets)) in
      (taken.0, record r { buckets = insert key taken.1 r.buckets })
