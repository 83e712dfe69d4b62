-- ===== src/Gateway/Tests.antt =====
-- A breaker, a budget, and a gateway over two providers, one of which is down.
use production_rag.Base.{
  leb, ◌&&◌, ℕ, ◌+◌, ◌≤◌, ◌<◌, ◌≡◌, refl, ◌↔◌, ◌++◌, reverse, true, false, none, some, List, [],
  ◌∷◌, arith, Text, text, Unicode, ok, err, eqb, if◌then◌else◌, ◌==◌, nat_eq, list_eq,
}
use production_rag.History.{ChatTurn}
use production_rag.Gateway.Breaker.{Breaker, closed, new_breaker, state, allow}
use production_rag.Gateway.Breaker.Cycle.{
  Event, asks, succeeds, fails, run, streak, state-closed_iff, allow_one_trial,
}
use production_rag.Gateway.Packing.{Budget, estimate_tokens, pack_context, trim_history}
use production_rag.Gateway.Packing.Fits.{
  turn_tokens, trim_history_exact, IsPacked, pack_context_exact,
}
use production_rag.Gateway.Failures.{url_error}
use production_rag.Gateway.Attempts.{Generation, Environment, Settings}
use production_rag.Gateway.Complete.{Gateway}

abbrev events : List Event
events = fails 1 ∷ fails 2 ∷ succeeds ∷ fails 3 ∷ asks 4 ∷ fails 5 ∷ []

state-closed_iff_example :
    (state 6 (run (new_breaker 2 30) events) ≡ closed) ↔ (streak 0 events < 2)
state-closed_iff_example = state-closed_iff 2 30 6 events (omega arith)

abbrev open_breaker : Breaker
open_breaker = record (new_breaker 2 30) { failures = 2; opened_at = some 5 }

allow_one_trial_example :
    (40 < 5 + 30 → allow 40 open_breaker ≡ (false, open_breaker))
    × (5 + 30 ≤ 40
        → (allow 40 open_breaker ≡ (true, record open_breaker { trial_in_flight = true }))
          × (allow 41 (record open_breaker { trial_in_flight = true })
              ≡ (false, record open_breaker { trial_in_flight = true })))
allow_one_trial_example = allow_one_trial open_breaker 5 40 41 refl refl

abbrev budget : Budget
budget = record { max_context_tokens = 3; max_history_tokens = 2 }

abbrev turn : Text → ChatTurn
turn content = record { role = text "user"; content = content }

abbrev history : List ChatTurn
history = turn (text "a long turn") ∷ turn (text "b") ∷ turn (text "c") ∷ []

trim_history_exact_example :
    (left : List ChatTurn) × (history ≡ reverse left ++ trim_history budget history)
    × (turn_tokens (trim_history budget history) ≤ budget.max_history_tokens)
    × ((t : ChatTurn) (rest : List ChatTurn)
        → left ≡ t ∷ rest
        → budget.max_history_tokens
          < turn_tokens (trim_history budget history) + estimate_tokens t.content)
trim_history_exact_example = trim_history_exact budget history

pack_context_exact_example :
    IsPacked 3
      (text "five")
      (text "four" ∷ text "more than fits" ∷ [])
      (pack_context budget (text "five" ∷ text "four" ∷ text "more than fits" ∷ []))
pack_context_exact_example =
    pack_context_exact budget (text "five") (text "four" ∷ text "more than fits" ∷ []) (omega arith)

abbrev plain : Unicode
plain = record { is_space = λ c. eqb c 32; digit_value = λ c. none }

abbrev answer_of : Text → Generation
answer_of model = record {
  text = text "yes [1]";
  model = model;
  prompt_tokens = 3;
  completion_tokens = 2;
  degraded = false;
  cost = 0;
  note = [];
}

-- The state is the time; the first provider is unreachable.
abbrev small : Environment ℕ
small = record {
  clock = λ w. w;
  ask =
      λ name prompt w. (if name == text "down" then err url_error else ok (answer_of name), w + 1);
  pause = λ delay w. w + delay;
  jitter = λ limit w. (limit, w);
  is_digit = λ c. leb 48 c && leb c 57;
  extract = λ prompt. answer_of (text "extractive");
}

abbrev settings : Settings
settings = record {
  budget = budget;
  pricing = (text "*", record { input_per_million = 2; output_per_million = 5 }) ∷ [];
  max_attempts = 3;
  base_delay = 1;
  max_delay = 8;
  deadline = 45;
  second = 1;
}

abbrev names : List Text
names = text "down" ∷ text "up" ∷ []

abbrev gateway : Gateway ℕ
gateway = record { world = 0; breakers = []; log = [] }
