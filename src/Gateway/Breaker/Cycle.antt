-- ===== src/Gateway/Breaker/Cycle.antt =====
-- The cycle of a breaker: closed, open after consecutive failures, half-open after a pause.
use production_rag.Base.{
  ℕ, ◌+◌, ◌≤◌, ◌<◌, true, false, ◌≡◌, refl, ◌↔◌, none, some, List, [], ◌∷◌, arith,
}
use production_rag.Gateway.Breaker.{
  is_open, Breaker, closed, new_breaker, state, allow, record_success, record_failure,
}

-- What happens to a breaker, and when.
pub data Event : Type 0 where
  asks : ℕ → Event
  succeeds : Event
  fails : ℕ → Event

unfoldable pub step : Breaker → Event → Breaker
unfolding allow record_success record_failure
step b (asks now) = (allow now b).1
step b succeeds = record_success b
step b (fails now) = record_failure now b

unfoldable pub run : Breaker → List Event → Breaker
run b [] = b
run b (e ∷ es) = run (step b e) es

-- Failures since the last success.
unfoldable pub streak : ℕ → List Event → ℕ
streak n [] = n
streak n (asks now ∷ es) = streak n es
streak n (succeeds ∷ es) = streak 0 es
streak n (fails now ∷ es) = streak (n + 1) es

-- What holds of a breaker between two events: it counts the streak, it is open exactly from the
-- threshold on, and a trial is in flight only while it is open.
pub record IsSound (threshold n : ℕ) (b : Breaker) : Type 0 where
  pub same_threshold : b.failure_threshold ≡ threshold
  pub counted : b.failures ≡ n
  pub closed_below : n < threshold → b.opened_at ≡ none
  pub open_from : threshold ≤ n → is_open b.opened_at ≡ true
  pub trial_open : b.trial_in_flight ≡ true → is_open b.opened_at ≡ true

new_breaker-IsSound :
    (threshold reset : ℕ) → 0 < threshold → IsSound threshold 0 (new_breaker threshold reset)
new_breaker-IsSound threshold reset h = record {
  same_threshold = refl;
  counted = refl;
  closed_below = λ _. refl;
  open_from = λ k. absurd (omega arith);
  trial_open = λ e. cc;
}

module _ (threshold n : ℕ) (b : Breaker) (s : IsSound threshold n b) where
  allow-IsSound : (now : ℕ) → IsSound threshold n (allow now b).1
  unfolding allow
  allow-IsSound now = ground arith

  record_failure-IsSound : (now : ℕ) → IsSound threshold (n + 1) (record_failure now b)
  unfolding record_failure
  record_failure-IsSound now = ground arith

  record_success-IsSound : 0 < threshold → IsSound threshold 0 (record_success b)
  unfolding record_success
  record_success-IsSound positive = ground arith

run-IsSound :
    (threshold n : ℕ) (b : Breaker) (es : List Event)
    → 0 < threshold
    → IsSound threshold n b
    → IsSound threshold (streak n es) (run b es)
unfolding run step streak
run-IsSound threshold n b [] positive s = s
run-IsSound threshold n b (asks now ∷ es) positive s =
    run-IsSound threshold n (allow now b).1 es positive (allow-IsSound threshold n b s now)
run-IsSound threshold n b (succeeds ∷ es) positive s =
    run-IsSound threshold 0 (record_success b) es positive
      (record_success-IsSound threshold n b s positive)
run-IsSound threshold n b (fails now ∷ es) positive s =
    run-IsSound threshold (n + 1) (record_failure now b) es positive
      (record_failure-IsSound threshold n b s now)

-- Under a positive threshold, after any requests, successes and failures, a new breaker is closed
-- exactly while fewer failures than the threshold have come since the last success.
pub state-closed_iff :
    (threshold reset now : ℕ) (es : List Event)
    → 0 < threshold
    → (state now (run (new_breaker threshold reset) es) ≡ closed) ↔ (streak 0 es < threshold)
unfolding state
state-closed_iff threshold reset now es positive =
    let s =
      run-IsSound threshold 0 (new_breaker threshold reset) es positive
        (new_breaker-IsSound threshold reset positive) in
    (λ h. ground (arith, s.open_from, s.closed_below), λ h. ground (arith, s.closed_below))

-- An open breaker refuses every request until the pause is over, and changes nothing; then it lets
-- through the first one and refuses all others until that one is recorded.
pub allow_one_trial :
    (b : Breaker) (opened now later : ℕ)
    → b.opened_at ≡ some opened
    → b.trial_in_flight ≡ false
    → (now < opened + b.reset_after → allow now b ≡ (false, b))
      × (opened + b.reset_after ≤ now
          → (allow now b ≡ (true, record b { trial_in_flight = true }))
            × (allow later (record b { trial_in_flight = true })
                ≡ (false, record b { trial_in_flight = true })))
unfolding allow
allow_one_trial b opened now later e idle = ground arith
