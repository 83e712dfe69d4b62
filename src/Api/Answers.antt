-- ===== src/Api/Answers.antt =====
-- `retrieve`, and how `_answer` makes an answer of the evidence.
use production_rag.Base.{
  zero, suc, ℕ, ◌+◌, ◌-◌, Bool, true, false, ◌&&◌, Option, none, some, List, [], ◌∷◌, ◌++◌, map,
  all, if◌then◌else◌, Text, text, Result, ok, err, nat_eq, list_eq, take, length, filter, leb,
}
use production_rag.Json.{Json, string}
use production_rag.Permissions.{Principal, value_error}
use production_rag.History.{ChatTurn}
use production_rag.MemoryStore.Reads.{readable_chunks}
use production_rag.Gateway.Attempts.{Generation}
use production_rag.Observability.Budgets.{is_exhausted, spend, seconds_until_reset}
use production_rag.Providers.{split_commas, cited_sources}
use production_rag.Query.{Scored, validate_query, new_pipeline, evidence, abstention}
use production_rag.Query
use production_rag.Api.{
  Exception, refused, bad_value, unexpected, lift_unsafe, seconds, ApiError, Moment,
  generation_tokens, degraded_answer, Model, App, Library, Settings, Citation, Act, ◌>>=◌, ◌>>◌,
  pure, call, get, change, run, lift, count,
}
use production_rag.Api.Uploads.{trimmed}

-- `RagQueryPipeline(())`: the defaults, for the validation.
abbrev pub default_pipeline : ℕ → Query.Pipeline
default_pipeline one = record {
  top_k = 5;
  min_score = 0;
  relative_score = 0;
  max_query_length = 2000;
  one = one;
}

abbrev pub text_of : Option Json → Option Text
text_of (some (string t)) = some t
text_of o = none

abbrev pub text_or_empty : Option Text → Text
text_or_empty none = []
text_or_empty (some t) = t

abbrev pub or_server : {G : Type 0} → Model G → Option (Model G) → Model G
or_server server none = server
or_server server (some own) = own

abbrev pub is_own : {G : Type 0} → Option (Model G) → Bool
is_own none = false
is_own (some own) = true

-- `evidence[number - 1]`; there is no such source for another number.
unfoldable pub source_at : ℕ → List Scored → Option Scored
source_at n [] = none
source_at zero (e ∷ es) = some e
source_at (suc n) (e ∷ es) = source_at n es

abbrev pub citation : ℕ → Scored → Citation
citation number (chunk, score) = record {
  source_number = number;
  document_id = chunk.document_id;
  source = chunk.source;
  chunk_index = chunk.index;
  page = chunk.page;
  score = score;
  excerpt = take 240 chunk.text;
}

-- The list of citations; `none` is the `IndexError` of a number with no source.
abbrev pub add_citation : ℕ → Option Scored → Option (List Citation) → Option (List Citation)
add_citation number (some e) (some rest) = some (citation number e ∷ rest)
add_citation number _ _ = none

unfoldable pub citations_of : List ℕ → List Scored → Option (List Citation)
unfolding source_at
citations_of [] es = some []
citations_of (n ∷ ns) es = add_citation n (source_at (n - 1) es) (citations_of ns es)

-- What the model makes of the evidence: the answer, the sources it cites and the generation.
pub record Written : Type 0 where
  pub answer : Text
  pub used : List ℕ
  pub generation : Option Generation

abbrev pub no_answer : Written
no_answer = record { answer = abstention; used = []; generation = none }

-- An answer that cites nothing is not grounded.
abbrev pub answer_or_abstention : Text → List ℕ → Text
answer_or_abstention candidate [] = abstention
answer_or_abstention candidate (n ∷ ns) = candidate

abbrev pub or_unexpected {ℓ} : {A : Type ℓ} → Option A → Result Exception A
or_unexpected none = err unexpected
or_unexpected (some a) = ok a

abbrev pub join_commas : List Text → Text
join_commas [] = []
join_commas (t ∷ []) = t
join_commas (t ∷ u ∷ ts) = t ++ 44 ∷ join_commas (u ∷ ts)

module _ {G : Type 0} (lib : Library) (s : Settings G) (t : Moment) where
  abbrev pub is_valid_part : ℕ → Text → Bool
  is_valid_part n part = leb 1 (lib.citing.read_int part) && leb (lib.citing.read_int part) n

  -- `keep_valid`, over the group of a marker.
  abbrev pub keep_valid : ℕ → Text → Text
  keep_valid n group = marker (filter (is_valid_part n) (split_commas group))
    where
      marker : List Text → Text
      marker [] = []
      marker (p ∷ ps) = 91 ∷ join_commas (map (trimmed lib) (p ∷ ps)) ++ 93 ∷ []

  abbrev pub strip_invalid_citations : Text → ℕ → Text
  strip_invalid_citations answer n = trimmed lib (lib.replace_citations (keep_valid n) answer)

  -- The branch of `retrieve` over the in-memory store, with both gates. The constructor refuses
  -- limits that are out of range.
  unfoldable pub retrieve : Principal → Text → Act G (List Scored)
  retrieve principal question = do
    stored ← get (λ a. readable_chunks a.memory principal)
    chunks ← call (or_unexpected stored)
    gate ← call (
        lift (
          new_pipeline s.gate.one s.gate.top_k s.gate.min_score s.gate.relative_score
            s.gate.max_query_length))
    call (lift_unsafe (evidence lib.matching gate chunks question principal.tenant_id none))

  abbrev pub exhausted_error : ApiError
  exhausted_error = record {
    status = 429;
    message = text "daily token budget exhausted";
    retry_after = some (seconds (seconds_until_reset t.hour t.minute t.second));
  }

  abbrev pub refuse_exhausted : Bool → Act G (Unit {0})
  refuse_exhausted true a = (err (refused exhausted_error), a)
  refuse_exhausted false a = (ok tt, a)

  -- The daily budget protects the server's key; it is not read for a caller's own.
  abbrev pub check_budget : Bool → Text → Act G (Unit {0})
  check_budget true own a = (ok tt, a)
  check_budget false own a =
      let out = is_exhausted own t.today a.budget in
      refuse_exhausted out.0 (record a { budget = out.1 })

  abbrev pub spend_tokens : Bool → Text → ℕ → App G → App G
  spend_tokens true own n a = a
  spend_tokens false own n a = record a { budget = spend own t.today n a.budget }

  abbrev pub count_degraded : Bool → App G → App G
  count_degraded true a = count degraded_answer a
  count_degraded false a = a

  -- What follows a generation: the tokens are spent and counted.
  abbrev pub account : Bool → Text → Generation → App G → App G
  account own_key own g a =
      let tokens = g.prompt_tokens + g.completion_tokens in
      count_degraded g.degraded
        (count (generation_tokens tokens g.model) (spend_tokens own_key own tokens a))

  abbrev pub ask : Model G → Text → List Text → List ChatTurn → Act G Generation
  ask m question context prior a =
      let out = m.complete question context prior a.world in (out.0, record a { world = out.1 })

  abbrev pub texts_of : List Scored → List Text
  texts_of es = map (λ (e : Scored). e.0.text) es

  abbrev pub written : List Scored → Generation → Written
  written es g =
      let candidate = strip_invalid_citations g.text (length es) in
      let used = cited_sources lib.citing candidate (length es) in
      record { answer = answer_or_abstention candidate used; used = used; generation = some g }

  -- Whether `int` reads every number of the markers.
  abbrev pub reads_markers : Text → Bool
  reads_markers answer =
      all (λ group. all lib.reads_int (split_commas group)) (lib.citing.find_citations answer)

  abbrev pub too_long : Exception
  too_long =
      bad_value (value_error (text "Exceeds the limit (4300 digits) for integer string conversion"))

  -- `strip_invalid_citations` reads the numbers of the model's text, and `cited_sources` those of
  -- what is left of it.
  unfoldable pub read_written : List Scored → Generation → Result Exception Written
  read_written es g =
      if reads_markers g.text && reads_markers (strip_invalid_citations g.text (length es))
      then ok (written es g)
      else err too_long

  unfoldable pub write_answer :
      Option (Model G) → Text → Text → List ChatTurn → List Scored → Act G Written
  write_answer own_model own question prior [] = pure no_answer
  write_answer own_model own question prior (e ∷ es) = do
    check_budget (is_own own_model) own
    g ← ask (or_server s.provider own_model) question (texts_of (e ∷ es)) prior
    change (account (is_own own_model) own g)
    call (read_written (e ∷ es) g)

  -- Follow-ups are rewritten for retrieval; with no earlier turns the question is the query.
  unfoldable pub search_query : Model G → Text → List ChatTurn → Act G Text
  search_query m question [] = pure question
  search_query m question (turn ∷ prior) = run (λ a.
      let out = m.rewrite_query question (turn ∷ prior) a.world in
      (out.0, record a { world = out.1 }))
