-- ===== src/Observability/Tests.antt =====
-- A limiter, a budget and a series at small numbers.
use production_rag.Base.{
  ℕ, ◌+◌, ◌-◌, ◌*◌, ◌≤◌, ◌≡◌, refl, ◌↔◌, true, List, [], ◌∷◌, map, arith, text, length, insert,
  lookup, list_beq,
}
use production_rag.Observability.Bucket.{Limits, Limiter, go_on, acquire}
use production_rag.Observability.Bucket.Allowance.{
  Requests, last_time, granted_to, granted_to_bound, wait_enough,
}
use production_rag.Observability.Budgets.{
  Spending, is_exhausted, spend_all, spent_on, is_exhausted_iff,
}
use production_rag.Observability.Histogram.{
  latency_buckets, new_series, observe_all, fitting, total, observe_all_exact,
}

-- A burst of two requests, and one more in ten ticks.
abbrev limits : Limits
limits = record { rate = 1; capacity = 20; token = 10 }

abbrev limiter : Limiter
limiter = record { limits = limits; buckets = [] }

abbrev requests : Requests
requests = (text "a", 0) ∷ (text "b", 1) ∷ (text "a", 1) ∷ (text "a", 2) ∷ (text "a", 14) ∷ []

granted_to_bound_example :
    granted_to (text "a") limiter requests * 10 ≤ 20 + (last_time 0 requests - 0) * 1
granted_to_bound_example = granted_to_bound (text "a") requests limits 0 refl (omega arith)

-- An empty bucket at time 5.
abbrev spent : Limiter
spent = record limiter { buckets = (text "a", record { tokens = 4; updated = 5 }) ∷ [] }

wait_enough_example : (acquire (text "a") (7 + 4) (acquire (text "a") 7 spent).1).0 ≡ go_on
unfolding acquire lookup insert list_beq
wait_enough_example = wait_enough (text "a") 7 4 4 1 spent (omega arith) refl (omega arith)

abbrev spending : Spending
spending =
    ((text "acme", text "mon"), 70)
    ∷ ((text "acme", text "tue"), 50)
    ∷ ((text "acme", text "mon"), 30)
    ∷ []

is_exhausted_iff_example :
    ((is_exhausted
        (text "acme")
        (text "mon")
        (spend_all (record { limit = 100; used = [] }) spending)).0
      ≡ true)
    ↔ (100 ≤ spent_on (text "acme", text "mon") spending)
is_exhausted_iff_example = is_exhausted_iff (text "acme") (text "mon") 100 spending refl

abbrev times : List ℕ
times = 7 ∷ 300 ∷ 60000 ∷ []

observe_all_exact_example :
    ((observe_all latency_buckets times (new_series latency_buckets)).buckets
      ≡ map (λ b. fitting b times) latency_buckets)
    × ((observe_all latency_buckets times (new_series latency_buckets)).sum ≡ total times)
    × ((observe_all latency_buckets times (new_series latency_buckets)).count ≡ length times)
observe_all_exact_example = observe_all_exact latency_buckets times
