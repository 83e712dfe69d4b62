-- ===== src/Observability/Bucket/Allowance.antt =====
-- What the limiter lets through: never more than the burst and the refill since.
use production_rag.Base.{
  ◌∙◌, sym, false, eqb, ap, ℕ, ◌+◌, ◌-◌, ◌*◌, ◌≤◌, ◌≡◌, Option, none, some, List, [], ◌∷◌, arith,
  Text, lookup, lookup-insert, eq_iff, eq_refl, nat_eq, list_eq, ◌==◌, if◌then◌else◌, Bool-cases,
  inl, inr,
}
use production_rag.Observability.Bucket.{
  Limits, Bucket, Limiter, Answer, go_on, wait, bucket_or_full, take_token, acquire,
}

-- Requests of any keys, one after the other.
abbrev pub Requests : Type 0
Requests = List (Text × ℕ)

-- The clock does not run back.
abbrev pub Ordered : ℕ → Requests → Type 0
Ordered t [] = Unit
Ordered t ((key, now) ∷ rest) = (t ≤ now) × Ordered now rest

abbrev pub last_time : ℕ → Requests → ℕ
last_time t [] = t
last_time t ((key, now) ∷ rest) = last_time now rest

abbrev pub granted : Answer → ℕ
granted go_on = 1
granted (wait missing rate) = 0

-- How many requests of one key are let through.
unfoldable pub granted_to : Text → Limiter → Requests → ℕ
granted_to key r [] = 0
granted_to key r ((j, now) ∷ rest) =
    let more = granted_to key (acquire j now r).1 rest in
    if j == key then granted (acquire j now r).0 + more else more

updated-take_token : (l : Limits) (now : ℕ) (b : Bucket) → (take_token l now b).1.updated ≡ now
unfolding take_token
updated-take_token l now b = ground arith

le-last_time : (t : ℕ) (requests : Requests) → Ordered t requests → t ≤ last_time t requests
le-last_time t [] o = omega arith
le-last_time t ((key, now) ∷ rest) o = omega (arith, le-last_time now rest o.1)

-- Refilling in two steps adds as much as in one.
refill_split : (a b c r : ℕ) → a ≤ b → b ≤ c → (b - a) * r + (c - b) * r ≡ (c - a) * r
refill_split a b c r h k =
    let split : (b - a) + (c - b) ≡ c - a = omega arith in
    omega (arith, ap (λ (t : ℕ). t * r) split)

-- What a key can still spend at a time: its bucket and the refill, or a full bucket.
abbrev potential : Limits → ℕ → Option Bucket → ℕ
potential l t none = l.capacity
potential l t (some b) = b.tokens + (t - b.updated) * l.rate

abbrev Past : ℕ → Option Bucket → Type 0
Past t none = Unit
Past t (some b) = b.updated ≤ t

potential_later :
    (l : Limits) (t now : ℕ) (o : Option Bucket)
    → Past t o
    → t ≤ now
    → potential l now o ≤ potential l t o + (now - t) * l.rate
potential_later l t now none p h = omega arith
potential_later l t now (some b) p h = omega (arith, refill_split b.updated t now l.rate p h)

Past-later : (t now : ℕ) (o : Option Bucket) → Past t o → t ≤ now → Past now o
Past-later t now none p h = tt
Past-later t now (some b) p h = omega arith

-- One request is paid by what its key can spend.
take_potential :
    (l : Limits) (now : ℕ) (o : Option Bucket)
    → granted (take_token l now (bucket_or_full l now o)).0 * l.token
        + potential l now (some (take_token l now (bucket_or_full l now o)).1)
      ≤ potential l now o
unfolding take_token
take_potential l now none = ground arith
take_potential l now (some b) = ground arith

module _ (key j : Text) (now : ℕ) (r : Limiter) (on : eqb r.limits.rate 0 ≡ false) where
  abbrev bucket_after : Bucket
  bucket_after = (take_token r.limits now (bucket_or_full r.limits now (lookup j r.buckets))).1

  lookup-acquire :
      lookup key (acquire j now r).1.buckets
      ≡ (if j == key then some bucket_after else lookup key r.buckets)
  unfolding acquire
  lookup-acquire = rw (on, acquire) (lookup-insert j key bucket_after r.buckets)

  limits-acquire : (acquire j now r).1.limits ≡ r.limits
  unfolding acquire
  limits-acquire = ground arith

  answer-acquire :
      (acquire j now r).0
      ≡ (take_token r.limits now (bucket_or_full r.limits now (lookup j r.buckets))).0
  unfolding acquire
  answer-acquire = rw on

module _ (j : Text) (now : ℕ) (r : Limiter) (on : eqb r.limits.rate 0 ≡ false) where
  -- A request is paid by its own key.
  acquire_paid :
      granted (acquire j now r).0 * r.limits.token
        + potential r.limits now (lookup j (acquire j now r).1.buckets)
      ≤ potential r.limits now (lookup j r.buckets)
  acquire_paid =
      rw (answer-acquire j j now r on, lookup-acquire j j now r on, eq_refl j)
        (take_potential r.limits now (lookup j r.buckets))

  acquire_elsewhere :
      (key : Text)
      → (j == key) ≡ false
      → lookup key (acquire j now r).1.buckets ≡ lookup key r.buckets
  acquire_elsewhere key other = rw (lookup-acquire key j now r on, other)

  Past-acquire :
      (key : Text)
      → Past now (lookup key r.buckets)
      → Past now (lookup key (acquire j now r).1.buckets)
  Past-acquire key p = elim (Bool-cases (j == key)) [
    | inl same ↦
        rw (lookup-acquire key j now r on, same)
          (omega (
            arith,
            updated-take_token r.limits now (bucket_or_full r.limits now (lookup j r.buckets)),
          ))
    | inr other ↦ rw (acquire_elsewhere key other) p
  ]

granted_to-potential :
    (key : Text) (requests : Requests) (r : Limiter) (t : ℕ)
    → eqb r.limits.rate 0 ≡ false
    → Ordered t requests
    → Past t (lookup key r.buckets)
    → granted_to key r requests * r.limits.token
      ≤ potential r.limits t (lookup key r.buckets) + (last_time t requests - t) * r.limits.rate
unfolding granted_to
granted_to-potential key [] r t on o p = omega arith
granted_to-potential key ((j, now) ∷ rest) r t on o p =
    let r' = (acquire j now r).1 in
    let past_now = Past-later t now (lookup key r.buckets) p o.0 in
    let fixed : r'.limits ≡ r.limits = limits-acquire key j now r on in
    let ih =
      granted_to-potential key rest r' now (rw fixed on) o.1
        (Past-acquire j now r on key past_now) in
    let ih' = rw fixed at ih in
    let later = potential_later r.limits t now (lookup key r.buckets) p o.0 in
    let split =
      refill_split t now (last_time now rest) r.limits.rate o.0 (le-last_time now rest o.1) in
    elim (Bool-cases (j == key)) [
      | inl same ↦
          let here : j ≡ key = (eq_iff j key).0 same in
          let paid = acquire_paid j now r on in
          rw same (
            omega (
              arith,
              ih',
              later,
              split,
              rw (ap (λ k. lookup k r'.buckets) here, ap (λ k. lookup k r.buckets) here) at paid,
            ))
      | inr other ↦
          let same_bucket = acquire_elsewhere j now r on key other in
          rw other (omega (arith, rw same_bucket at ih', later, split))
    ]

-- Under a positive rate, from a new limiter on, over any requests of any keys at times that do not
-- run back: the requests of one key that are let through cost at most the burst and the refill
-- over the time since.
pub granted_to_bound :
    (key : Text) (requests : Requests) (l : Limits) (start : ℕ)
    → eqb l.rate 0 ≡ false
    → Ordered start requests
    → granted_to key (record { limits = l; buckets = [] }) requests * l.token
      ≤ l.capacity + (last_time start requests - start) * l.rate
unfolding lookup
granted_to_bound key requests l start on o =
    granted_to-potential key requests (record { limits = l; buckets = [] }) start on o tt

take_token_wait :
    (l : Limits) (now d missing rate : ℕ) (b : Bucket)
    → l.token ≤ l.capacity
    → (take_token l now b).0 ≡ wait missing rate
    → missing ≤ d * rate
    → (take_token l (now + d) (take_token l now b).1).0 ≡ go_on
unfolding take_token
take_token_wait l now d missing rate b room told enough =
    let gap : now + d - now ≡ d = omega arith in ground (arith, ap (λ (t : ℕ). t * l.rate) gap)

-- A request that is told to wait is let through when the missing parts have been added, if a full
-- bucket holds a token and the key is not used in between.
pub wait_enough :
    (key : Text) (now d missing rate : ℕ) (r : Limiter)
    → r.limits.token ≤ r.limits.capacity
    → (acquire key now r).0 ≡ wait missing rate
    → missing ≤ d * rate
    → (acquire key (now + d) (acquire key now r).1).0 ≡ go_on
wait_enough key now d missing rate r room told enough = elim (Bool-cases (eqb r.limits.rate 0)) [
  | inl off ↦ absurd (unfold acquire in ground arith)
  | inr on ↦
      let r' = (acquire key now r).1 in
      let fixed : r'.limits ≡ r.limits = limits-acquire key key now r on in
      rw
        (
          answer-acquire key key (now + d) r' (rw fixed on),
          lookup-acquire key key now r on,
          eq_refl key,
          fixed,
        )
        (take_token_wait r.limits now d missing rate
          (bucket_or_full r.limits now (lookup key r.buckets)) room
          (sym (answer-acquire key key now r on) ∙ told) enough)
]
