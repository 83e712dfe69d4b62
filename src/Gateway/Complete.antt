-- ===== src/Gateway/Complete.antt =====
-- `GatewayProvider.complete`: the providers in order, then the extractive answer.
pub mod Answers
use production_rag.Base.{
  ℕ, ◌+◌, ◌*◌, text, Bool, true, false, Option, none, some, List, [], ◌∷◌, ◌++◌, Text, Unicode,
  Result, ok, err, Dict, lookup, insert, if◌then◌else◌, nat_eq, list_eq,
}
use production_rag.Gateway.Breaker.{Breaker, BreakerState, closed, state, allow}
use production_rag.Providers.{heuristic_rewrite}
use production_rag.Providers
use production_rag.Permissions.{ValueError}
use production_rag.Gateway.Packing.{pack_context, trim_history}
use production_rag.History.{ChatTurn}
use production_rag.Gateway.Attempts.{
  Note, disabled, Pricing, Generation, Prompt, Environment, Settings, Happening, Machine, Answer,
  attempt, breaker_or_new, add_note,
}

pub record Gateway (W : Type 0) : Type 0 where
  pub world : W
  pub breakers : Dict Text Breaker
  pub log : List Happening

module _ {W : Type 0} (env : Environment W) (u : Unicode) (settings : Settings) where
  abbrev pub machine_for : Gateway W → Breaker → Machine W
  machine_for g b = record { world = g.world; breaker = b; log = g.log }

  -- The breaker of a provider is an object of its own: what a call does to it stays.
  abbrev pub put_back : Gateway W → Text → Machine W → Gateway W
  put_back g name m = record {
    world = m.world;
    breakers = insert name m.breaker g.breakers;
    log = m.log;
  }

  -- One provider: whether it answered, why it did not, and the gateway after it.
  unfoldable pub try_provider : Text → Prompt → ℕ → Gateway W → Result ValueError Answer × Gateway W
  try_provider name prompt deadline g =
      let breaker = breaker_or_new env u settings (lookup name g.breakers) in
      let admitted = allow (env.clock g.world) breaker in
      elim admitted.0 [
        | true ↦
            let answered = attempt env u settings name prompt deadline (machine_for g admitted.1) in
            (answered.0, put_back g name answered.1)
        | false ↦ (ok (none, some (disabled name)), put_back g name (machine_for g admitted.1))
      ]

  abbrev pub fallback : Prompt → List Note → Generation
  fallback prompt notes = record (env.extract prompt) { degraded = true; note = notes }

  -- `pricing.get(model) or pricing.get("*")`
  abbrev pub pricing_of : Option Pricing → Option Pricing → Option Pricing
  pricing_of none other = other
  pricing_of (some p) other = some p

  abbrev pub priced_at : Option Pricing → Generation → Generation
  priced_at none x = x
  priced_at (some p) x = record x {
    cost = x.prompt_tokens * p.input_per_million + x.completion_tokens * p.output_per_million;
  }

  abbrev pub priced : Generation → Generation
  priced x =
      priced_at (pricing_of (lookup x.model settings.pricing) (lookup (text "*") settings.pricing))
        x

  -- What the gateway knows of a provider: an answer, no answer, or an exception that it lets pass.
  abbrev pub outcome :
      Result ValueError Answer
      → (List Note → Result ValueError Generation × Gateway W)
      → List Note
      → Gateway W
      → Result ValueError Generation × Gateway W
  outcome (err e) more notes g = (err e, g)
  outcome (ok (some generation, said)) more notes g = (ok (priced generation), g)
  outcome (ok (none, said)) more notes g = more (add_note env u settings notes said)

  unfoldable pub try_all :
      List Text → Prompt → ℕ → List Note → Gateway W → Result ValueError Generation × Gateway W
  try_all [] prompt deadline notes g = (ok (fallback prompt notes), g)
  try_all (name ∷ names) prompt deadline notes g =
      let tried = try_provider name prompt deadline g in
      outcome tried.0 (λ more. try_all names prompt deadline more tried.1) notes tried.1

  unfoldable pub complete :
      List Text
      → Text
      → List Text
      → List ChatTurn
      → Gateway W
      → Result ValueError Generation × Gateway W
  complete names question context history g =
      let prompt : Prompt = record {
        question = question;
        context = pack_context settings.budget context;
        history = trim_history settings.budget history;
      } in
      try_all names prompt (env.clock g.world + settings.deadline) [] g

  abbrev pub is_closed : BreakerState → Bool
  is_closed closed = true
  is_closed other = false

  -- The first provider whose circuit is closed rewrites the question; `rewrite` is its method.
  unfoldable pub rewrite_by :
      (Text → Text → List ChatTurn → W → Text × W)
      → Providers.Library
      → List Text
      → Text
      → List ChatTurn
      → Gateway W
      → Text × Gateway W
  rewrite_by rewrite lib [] question history g = (heuristic_rewrite lib question history, g)
  rewrite_by rewrite lib (name ∷ names) question history g =
      let later = rewrite_by rewrite lib names question history g in
      let rewritten = rewrite name question history g.world in
      if is_closed
        (state (env.clock g.world) (breaker_or_new env u settings (lookup name g.breakers)))
      then (rewritten.0, record g { world = rewritten.1 })
      else later

  unfoldable pub rewrite_query :
      (Text → Text → List ChatTurn → W → Text × W)
      → Providers.Library
      → List Text
      → Text
      → List ChatTurn
      → Gateway W
      → Text × Gateway W
  unfolding rewrite_by
  rewrite_query rewrite lib names question history g =
      rewrite_by rewrite lib names question (trim_history settings.budget history) g
