-- ===== src/Query/Tests.antt =====
-- A question over three ranked chunks, one of them of another tenant and one far behind.
use production_rag.Base.{
  ℕ, ◌≡◌, refl, ◌⊎◌, false, none, some, List, [], ◌∷◌, arith, Text, text, eqb, ok, err, list_beq,
}
use production_rag.Permissions.{ValueError}
use production_rag.Documents.{Chunk}
use production_rag.Query.{Pipeline, Scored, QueryResult, Matching, best_score, gate, query_ranked}
use production_rag.Query.Evidence.{IsAsked, Answered, query_ranked_exact}

abbrev pipeline : Pipeline
pipeline = record {
  top_k = 5;
  min_score = 10;
  relative_score = 50;
  max_query_length = 2000;
  one = 100;
}

abbrev matching : Matching
matching = record {
  unicode = record { is_space = λ c. eqb c 32; digit_value = λ c. none };
  is_injection = λ t. false;
  lexical_score = λ q t. 0;
}

abbrev chunk_of : Text → Text → ℕ → Chunk
chunk_of tenant words index = record {
  text = words;
  document_id = text "d";
  index = index;
  tenant_id = tenant;
  source = text "policy.txt";
  id = text "c";
  created_at = 0;
  page = none;
}

abbrev found : List Scored
found =
    (chunk_of (text "acme") (text "thirty days") 0, 80)
    ∷ (chunk_of (text "other") (text "a secret") 0, 70)
    ∷ (chunk_of (text "acme") (text "a holiday") 1, 20)
    ∷ []

one_passes :
    gate pipeline (text "acme") found ≡ (chunk_of (text "acme") (text "thirty days") 0, 80) ∷ []
unfolding gate list_beq best_score
one_passes = refl

query_ranked_exact_example :
    (IsAsked matching pipeline (text "when") (text "acme")
      × (r : QueryResult) × (query_ranked matching pipeline []
            (text "when")
            (text "acme")
            (some found)
          ≡ ok r)
      × Answered matching pipeline (text "acme") found r)
    ⊎ (¬ (IsAsked matching pipeline (text "when") (text "acme"))
        × (e : ValueError) × (query_ranked matching pipeline []
              (text "when")
              (text "acme")
              (some found)
            ≡ err e))
query_ranked_exact_example =
    query_ranked_exact matching pipeline [] (text "when") (text "acme") found (omega arith)
