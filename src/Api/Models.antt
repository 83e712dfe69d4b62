-- ===== src/Api/Models.antt =====
-- The two kinds of models that the API is given: the extractive answerer of providers.py, and a
-- gateway of gateway.py over providers and network.
use production_rag.Base.{ok, false, List, [], Text, text, Unicode}
use production_rag.History.{ChatTurn}
use production_rag.Gateway.Attempts.{Generation, Environment, Settings}
use production_rag.Gateway.Complete.{Gateway, complete, rewrite_query}
use production_rag.Providers.{extract_answer, heuristic_rewrite}
use production_rag.Providers
use production_rag.Api.{Model, lift}

abbrev pub extracted : Providers.Library → List Text → Generation
extracted lib context = record {
  text = extract_answer lib context;
  model = text "extractive";
  prompt_tokens = 0;
  completion_tokens = 0;
  degraded = false;
  cost = 0;
  note = [];
}

abbrev pub extractive_model : {G : Type 0} → Providers.Library → Model G
extractive_model lib = record {
  rewrite_query = λ question history w. (heuristic_rewrite lib question history, w);
  complete = λ question context history w. (ok (extracted lib context), w);
}

abbrev pub gateway_model :
    {W : Type 0}
    → Environment W
    → Unicode
    → Settings
    → (Text → Text → List ChatTurn → W → Text × W)
    → Providers.Library
    → List Text
    → Model (Gateway W)
gateway_model env u settings rewrite lib names = record {
  rewrite_query =
      λ question history g. rewrite_query env u settings rewrite lib names question history g;
  complete = λ question context history g.
      let out = complete env u settings names question context history g in (lift out.0, out.1);
}
