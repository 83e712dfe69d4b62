-- ===== src/Gateway/Complete/Answers.antt =====
-- What `complete` answers, within bounds on calls and pauses.
use production_rag.Base.{
  ℕ, ◌+◌, ◌*◌, ◌<◌, ◌≡◌, ◌⊎◌, none, some, List, Text, Unicode, Option, Result, ok, err, In, length,
  nat_eq, list_eq,
}
use production_rag.History.{ChatTurn}
use production_rag.Gateway.Packing.{pack_context, trim_history}
use production_rag.Gateway.Attempts.{Note, Generation, Prompt, Environment, Settings, Answer}
use production_rag.Gateway.Attempts.Outcome.{Grows}
use production_rag.Gateway.Delays.{AsksOddly}
use production_rag.Permissions.{ValueError}
use production_rag.Gateway.Complete.{Gateway, fallback, priced}

module _ {W : Type 0} (env : Environment W) (u : Unicode) (settings : Settings) where
  -- How the trial of one provider ends: with its answer, with a note that names it, or with an
  -- exception, after it asked for a delay in digits that are not decimal.
  pub record Tried (name : Text) (prompt : Prompt) (deadline : ℕ) (g : Gateway W)
      (r : Result ValueError Answer × Gateway W) : Type 0 where
    pub grows : Grows env u settings deadline settings.max_attempts g.log r.1.log
    pub answered :
        (x : Generation) (said : Option Note)
        → r.0 ≡ ok (some x, said)
        → (w : W) × ((env.ask name prompt w).0 ≡ ok x)
    pub explained :
        (said : Option Note)
        → 0 < settings.max_attempts
        → r.0 ≡ ok (none, said)
        → (n : Note) × (said ≡ some n)
    pub escaped : (e : ValueError) → r.0 ≡ err e → AsksOddly env u settings name prompt

  -- What `complete` gives back: the answer of one of the providers to the packed prompt, with its cost, or the
  -- extractive answer, marked as degraded, with a note for each provider.
  abbrev pub IsAnswer : List Text → Prompt → ℕ → Generation → Type 0
  IsAnswer names prompt noted x =
      ((name : Text) × (w : W) × (reply : Generation) × In name names
        × ((env.ask name prompt w).0 ≡ ok reply)
        × (x ≡ priced env u settings reply))
      ⊎ ((notes : List Note) × (x ≡ fallback env u settings prompt notes)
          × (0 < settings.max_attempts → length notes ≡ noted + length names))

  pub record Completed (names : List Text) (prompt : Prompt) (deadline noted : ℕ) (g : Gateway W)
      (r : Result ValueError Generation × Gateway W) : Type 0 where
    pub grows : Grows env u settings deadline (length names * settings.max_attempts) g.log r.1.log
    pub answer :
        ((x : Generation) × (r.0 ≡ ok x) × IsAnswer names prompt noted x)
        ⊎ ((e : ValueError) × (name : Text) × (r.0 ≡ err e)
            × In name names
            × AsksOddly env u settings name prompt)

  -- The prompt that every provider gets, and the time by which pauses end.
  abbrev pub packed : Text → List Text → List ChatTurn → Prompt
  packed question context history = record {
    question = question;
    context = pack_context settings.budget context;
    history = trim_history settings.budget history;
  }
