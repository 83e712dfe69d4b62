-- ===== src/Gateway/Attempts.antt =====
-- `GatewayProvider.complete` and `_attempt`. The providers, the clock, the pause and the jitter are
-- the environment's: its state is a parameter, and its operations are those of `Environment`. The
-- log of calls and pauses is the model's own, so that theorems can speak of them.
pub mod Outcome
use production_rag.Base.{
  ℕ, zero, suc, ◌+◌, ◌*◌, ◌^◌, min, Bool, true, false, not, ◌||◌, Option, none, some, List, [], ◌∷◌,
  ◌++◌, Text, text, Unicode, Result, ok, err, Dict, lookup, insert, nat_eq, list_eq, leb, eqb,
  if◌then◌else◌,
}
use production_rag.History.{ChatTurn}
use production_rag.Gateway.Failures.{Failure, is_retryable, retry_after_seconds}
use production_rag.Permissions.{ValueError}
use production_rag.Gateway.Breaker.{Breaker, allow, record_success, record_failure, new_breaker}
use production_rag.Gateway.Packing.{Budget, pack_context, trim_history}

pub data Note : Type 0 where
  disabled : Text → Note
  failed : Text → Failure → Note

-- The cost is exact, in millionths of the parts in which prices are given; the source rounds it.
pub record Generation : Type 0 where
  pub text : Text
  pub model : Text
  pub prompt_tokens : ℕ
  pub completion_tokens : ℕ
  pub degraded : Bool
  pub cost : ℕ
  pub note : List Note

-- A model's price for a million tokens, in parts of a dollar.
pub record Pricing : Type 0 where
  pub input_per_million : ℕ
  pub output_per_million : ℕ

-- What a provider is asked: the question, the packed sources and the trimmed history.
pub record Prompt : Type 0 where
  pub question : Text
  pub context : List Text
  pub history : List ChatTurn

-- The providers and the machine, over the state `W` of both. A provider is known by its name.
pub record Environment (W : Type 0) : Type 0 where
  pub clock : W → ℕ
  pub ask : Text → Prompt → W → Result Failure Generation × W
  pub pause : ℕ → W → W
  -- `random.uniform(0, limit)`
  pub jitter : ℕ → W → ℕ × W
  -- `str.isdigit`, by character.
  pub is_digit : ℕ → Bool
  -- `ExtractiveProvider().complete`
  pub extract : Prompt → Generation

pub record Settings : Type 0 where
  pub budget : Budget
  pub pricing : Dict Text Pricing
  pub max_attempts : ℕ
  pub base_delay : ℕ
  pub max_delay : ℕ
  pub deadline : ℕ
  pub second : ℕ

pub data Happening : Type 0 where
  asked : Text → Happening
  paused : ℕ → ℕ → Happening

pub record Machine (W : Type 0) : Type 0 where
  pub world : W
  pub breaker : Breaker
  pub log : List Happening

abbrev pub Answer : Type 0
Answer = Option Generation × Option Note

module _ {W : Type 0} (env : Environment W) (u : Unicode) (settings : Settings) where
  -- The pause before a retry: what the provider asks for, else a random share of the backoff.
  abbrev pub delay_or_jitter : ℕ → Option ℕ → W → ℕ × W
  delay_or_jitter attempt (some n) w = (n * settings.second, w)
  delay_or_jitter attempt none w =
      env.jitter (min settings.max_delay (settings.base_delay * 2 ^ attempt)) w

  abbrev pub pause_for : ℕ → Machine W → Machine W
  pause_for delay m = record m {
    world = env.pause delay m.world;
    log = m.log ++ paused (env.clock m.world) delay ∷ [];
  }

  -- The pause before a retry, if the deadline leaves room for it and then the breaker allows one;
  -- the breaker is asked only if there is room.
  unfoldable pub retry_in : ℕ → ℕ → Machine W → Bool × Machine W
  retry_in deadline delay m =
      if leb deadline (env.clock m.world + delay)
      then (false, m)
      else let admitted = allow (env.clock m.world) m.breaker in
        if admitted.0
        then (true, pause_for delay (record m { breaker = admitted.1 }))
        else (false, record m { breaker = admitted.1 })

  -- One call of the provider, with the breaker told how it went.
  abbrev pub call : Text → Prompt → Machine W → Result Failure Generation × Machine W
  call name prompt m =
      let answer = env.ask name prompt m.world in
      (
        answer.0,
        record {
          world = answer.1;
          breaker = elim answer.0 [
            | ok g ↦ record_success m.breaker
            | err exc ↦ record_failure (env.clock answer.1) m.breaker
          ];
          log = m.log ++ asked name ∷ [];
        },
      )

  -- The pause, once the provider's header is read.
  unfoldable pub pause_or_raise :
      ℕ → ℕ → Result ValueError (Option ℕ) → Machine W → Result ValueError Bool × Machine W
  unfolding retry_in
  pause_or_raise deadline attempt (err e) m = (err e, m)
  pause_or_raise deadline attempt (ok asked_for) m =
      let drawn = delay_or_jitter attempt asked_for m.world in
      let next = retry_in deadline drawn.0 (record m { world = drawn.1 }) in (ok next.0, next.1)

  -- What is decided after a failure: to give up, or to go on after a pause. An exception of
  -- `retry_after_seconds` leaves the loop.
  unfoldable pub after_failure :
      ℕ → ℕ → ℕ → Failure → Machine W → Result ValueError Bool × Machine W
  unfolding pause_or_raise
  after_failure deadline left attempt exc m =
      if not (is_retryable exc) || eqb left 0
      then (ok false, m)
      else pause_or_raise deadline attempt (retry_after_seconds u env.is_digit exc) m

  abbrev pub go_on_if :
      Result ValueError Bool × Machine W
      → Result ValueError Answer × Machine W
      → Answer
      → Result ValueError Answer × Machine W
  go_on_if (ok true, m) more given_up = more
  go_on_if (ok false, m) more given_up = (ok given_up, m)
  go_on_if (err e, m) more given_up = (err e, m)

  -- The loop of `_attempt`, over the rounds left and the number of this one.
  unfoldable pub attempt_rounds :
      Text → Prompt → ℕ → ℕ → ℕ → Machine W → Result ValueError Answer × Machine W
  attempt_rounds name prompt deadline zero attempt m = (ok (none, none), m)
  attempt_rounds name prompt deadline (suc left) attempt m =
      let called = call name prompt m in
      elim called.0 [
        | ok g ↦ (ok (some g, none), called.1)
        | err exc ↦
            let next = after_failure deadline left attempt exc called.1 in
            let more = attempt_rounds name prompt deadline left (attempt + 1) next.1 in
            go_on_if next more (none, some (failed name exc))
      ]

  unfoldable pub attempt : Text → Prompt → ℕ → Machine W → Result ValueError Answer × Machine W
  unfolding attempt_rounds
  attempt name prompt deadline m = attempt_rounds name prompt deadline settings.max_attempts 1 m

  -- The breakers by provider name; one that was not given is a new one.
  abbrev pub breaker_or_new : Option Breaker → Breaker
  breaker_or_new none = new_breaker 5 (30 * settings.second)
  breaker_or_new (some b) = b

  abbrev pub add_note : List Note → Option Note → List Note
  add_note notes none = notes
  add_note notes (some n) = notes ++ n ∷ []
