-- ===== src/Query.antt =====
-- `RagQueryPipeline` of query.py: which chunks are evidence for a question, and the extractive
-- answer. A score is a number of parts of `one`, the score 1.0; so are the two limits.
pub mod Evidence
mod Tests
use production_rag.Base.{
  ℕ, zero, suc, ◌+◌, ◌*◌, max, Bool, true, false, not, ◌&&◌, ◌||◌, Option, none, some, List, [],
  ◌∷◌, ◌++◌, map, Text, text, Unicode, strip, is_empty, length, take, filter, any, ltb, leb, eqb,
  ◌==◌, nat_eq, list_eq, if◌then◌else◌, Result, ok, err, ◌>>=◌, ◌>>◌, raise_if, sort,
}
use production_rag.Permissions.{ValueError, value_error}
use production_rag.Documents.{Chunk}

pub record Pipeline : Type 0 where
  pub top_k : ℕ
  pub min_score : ℕ
  pub relative_score : ℕ
  pub max_query_length : ℕ
  pub one : ℕ

abbrev pub complaint : Bool → Text → Result ValueError (Unit {0})
complaint test message = raise_if test (value_error message)

-- The checks of `__init__`.
unfoldable pub new_pipeline : ℕ → ℕ → ℕ → ℕ → ℕ → Result ValueError Pipeline
new_pipeline one top_k min_score relative_score max_query_length = do
  complaint (eqb top_k 0) (text "top_k must be positive")
  complaint (ltb one min_score) (text "min_score must be between 0 and 1")
  complaint (ltb one relative_score) (text "relative_score must be between 0 and 1")
  complaint (eqb max_query_length 0) (text "max_query_length must be positive")
  ok (record {
    top_k = top_k;
    min_score = min_score;
    relative_score = relative_score;
    max_query_length = max_query_length;
    one = one;
  })

abbrev pub Scored : Type 0
Scored = Chunk × ℕ

abbrev pub is_admitted : Pipeline → Text → Scored → Bool
is_admitted p tenant (chunk, score) = chunk.tenant_id == tenant && leb p.min_score score

unfoldable pub admitted : Pipeline → Text → List Scored → List Scored
admitted p tenant candidates = filter (is_admitted p tenant) (take p.top_k candidates)

unfoldable pub best_score : List Scored → ℕ
best_score [] = 0
best_score ((chunk, score) ∷ rest) = max score (best_score rest)

-- `score >= floor`, where the floor is the best score times `relative_score`.
abbrev pub is_close : Pipeline → ℕ → Scored → Bool
is_close p best (chunk, score) = leb (best * p.relative_score) (score * p.one)

-- With nothing admitted the result is empty as well.
unfoldable pub gate : Pipeline → Text → List Scored → List Scored
unfolding admitted
gate p tenant candidates =
    let passed = admitted p tenant candidates in filter (is_close p (best_score passed)) passed

-- The order of `_retrieve`: by score downwards, then by index.
abbrev pub ranks_before : Scored → Scored → Bool
ranks_before (c, s) (d, t) = ltb t s || (eqb s t && leb c.index d.index)

pub record Citation : Type 0 where
  pub document_id : Text
  pub source : Text
  pub chunk_index : ℕ
  pub score : ℕ
  pub excerpt : Text

pub record QueryResult : Type 0 where
  pub answer : Text
  pub citations : List Citation
  pub grounded : Bool

abbrev pub cite : Scored → Citation
cite (chunk, score) = record {
  document_id = chunk.document_id;
  source = chunk.source;
  chunk_index = chunk.index;
  score = score;
  excerpt = take 240 chunk.text;
}

abbrev pub abstention : Text
abstention = text "I do not have enough evidence in the indexed documents to answer that."

-- What is asked of the interpreter: Unicode, whether a pattern of INJECTION_PATTERNS is found, and
-- the lexical score of a question and a text, which is a float.
pub record Matching : Type 0 where
  pub unicode : Unicode
  pub is_injection : Text → Bool
  pub lexical_score : Text → Text → ℕ

module _ (m : Matching) (p : Pipeline) where
  abbrev trimmed : Text → Text
  trimmed t = strip m.unicode.is_space t

  unfoldable pub validate : Text → Result ValueError Text
  validate question = do
    let safe = trimmed question
    complaint (is_empty safe || ltb p.max_query_length (length safe))
        (text "query is empty or exceeds the configured length limit")
    complaint (m.is_injection safe) (text "query matched a prompt-injection policy")
    ok safe

  unfoldable pub validate_query : Text → Text → Result ValueError Text
  unfolding validate
  validate_query question tenant = do
    complaint (is_empty (trimmed tenant)) (text "tenant_id is required")
    validate question

  unfoldable pub retrieve : List Chunk → Text → Text → List Scored
  retrieve chunks question tenant = take p.top_k (
      sort ranks_before (
        map (λ (c : Chunk). (c, m.lexical_score question c.text))
          (filter (λ (c : Chunk). c.tenant_id == tenant) chunks)))

  abbrev pub candidates : List Chunk → Text → Text → Option (List Scored) → List Scored
  candidates chunks question tenant none = retrieve chunks question tenant
  candidates chunks question tenant (some ranked) = ranked

  unfoldable pub evidence :
      List Chunk → Text → Text → Option (List Scored) → Result ValueError (List Scored)
  unfolding validate_query gate
  evidence chunks question tenant ranked = do
    safe ← validate_query question tenant
    ok (gate p tenant (candidates chunks safe tenant ranked))

  abbrev join_texts : List Text → Text
  join_texts [] = []
  join_texts (t ∷ []) = t
  join_texts (t ∷ u ∷ ts) = t ++ text " " ++ join_texts (u ∷ ts)

  unfoldable pub build_result : List Scored → QueryResult
  build_result [] = record { answer = abstention; citations = []; grounded = false }
  build_result (best ∷ rest) = record {
    answer =
        text "Based on the indexed sources: "
        ++ join_texts (map (λ (c : Scored). trimmed c.0.text) (take 3 (best ∷ rest)));
    citations = map cite (best ∷ rest);
    grounded = true;
  }

  unfoldable pub query_ranked :
      List Chunk → Text → Text → Option (List Scored) → Result ValueError QueryResult
  query_ranked chunks question tenant ranked = do
    grounded ← evidence chunks question tenant ranked
    ok (build_result grounded)
