-- ===== src/Gateway/Breaker.antt =====
-- `CircuitBreaker`. An instant of the monotonic clock is a number of ticks; the lock makes each
-- method one step.
pub mod Cycle
use production_rag.Base.{ℕ, ◌+◌, Bool, true, false, Option, none, some, leb, ◌||◌, if◌then◌else◌}

pub data BreakerState : Type 0 where
  closed open_circuit half_open : BreakerState

pub record Breaker : Type 0 where
  pub failure_threshold : ℕ
  pub reset_after : ℕ
  pub failures : ℕ
  pub opened_at : Option ℕ
  pub trial_in_flight : Bool

abbrev pub new_breaker : ℕ → ℕ → Breaker
new_breaker threshold reset = record {
  failure_threshold = threshold;
  reset_after = reset;
  failures = 0;
  opened_at = none;
  trial_in_flight = false;
}

-- `clock() - opened_at >= reset_after`
abbrev pub state_since : ℕ → ℕ → Option ℕ → BreakerState
state_since now reset none = closed
state_since now reset (some opened) = if leb (opened + reset) now then half_open else open_circuit

unfoldable pub state : ℕ → Breaker → BreakerState
state now b = state_since now b.reset_after b.opened_at

-- In the half-open state exactly one request is let through until it is recorded.
abbrev pub admit : Breaker → BreakerState → Bool × Breaker
admit b closed = (true, b)
admit b half_open =
    if b.trial_in_flight then (false, b) else (true, record b { trial_in_flight = true })
admit b open_circuit = (false, b)

unfoldable pub allow : ℕ → Breaker → Bool × Breaker
unfolding state
allow now b = admit b (state now b)

unfoldable pub record_success : Breaker → Breaker
record_success b = record b { failures = 0; opened_at = none; trial_in_flight = false }

abbrev pub is_open : Option ℕ → Bool
is_open none = false
is_open (some opened) = true

unfoldable pub record_failure : ℕ → Breaker → Breaker
record_failure now b = record b {
  failures = b.failures + 1;
  trial_in_flight = false;
  opened_at =
      if is_open b.opened_at || leb b.failure_threshold (b.failures + 1)
      then some now
      else b.opened_at;
}
