-- ===== src/Api/Asking.antt =====
-- `_answer`: a question of a caller, from the request to the response.
use production_rag.Base.{
  ℕ, Bool, true, false, not, ◌&&◌, Option, none, some, List, [], ◌∷◌, Text, text, Result, ok, err,
  ◌==◌, nat_eq, list_eq, if◌then◌else◌, is_empty, length,
}
use production_rag.Json.{get_field}
use production_rag.Permissions.{Principal}
use production_rag.History.{ChatTurn, History, SessionKey}
use production_rag.History
use production_rag.Providers.{history_for_model}
use production_rag.Query.{Scored, validate_query}
use production_rag.Api.{
  Exception, refused, api_error, Moment, Model, App, Library, Settings, Citation, Answer, Request,
  Response, answered, caller, Act, ◌>>=◌, ◌>>◌, pure, call, change, run, refuse_if,
  with_unsafe_refusals, lift_unsafe,
}
use production_rag.Api.Uploads.{tenant, trimmed}
use production_rag.Api.Documents.{user_provider}
use production_rag.Api.Answers.{
  Written, default_pipeline, text_of, text_or_empty, or_server, is_own, citations_of, or_unexpected,
  retrieve, write_answer, search_query,
}

abbrev pub turn_of : Text → Text → ChatTurn
turn_of role content = record { role = role; content = content }

-- The checked question, the query that it became, and the evidence.
pub record Found : Type 0 where
  pub question : Text
  pub query : Text
  pub evidence : List Scored

abbrev pub blank_session : (Text → Text) → Option Text → Bool
blank_session trim none = true
blank_session trim (some t) = is_empty (trim t)

abbrev pub or_bad_request : Text → Option Text → Result Exception Text
or_bad_request message none = err (refused (api_error 400 message))
or_bad_request message (some t) = ok t

-- `if search_query != question:`
abbrev pub other_query : Found → Option Text
other_query f = if f.query == f.question then none else some f.query

abbrev pub is_used : List ℕ → Bool
is_used used = not (is_empty used)

abbrev pub response_of : Bool → Written → List Citation → Answer
response_of own_key w citations = record {
  answer = w.answer;
  grounded = is_used w.used;
  citations = citations;
  generation = w.generation;
  own_key = own_key;
  session_id = none;
  history_messages = none;
  search_query = none;
}

module _ {G : Type 0} where
  -- `self.history.get(key)`, which enters the key.
  abbrev pub read_history : SessionKey → Act G (List ChatTurn)
  read_history key =
      run (λ a. let out = History.get a.history key in (out.0, record a { history = out.1 }))

  abbrev pub append_history : SessionKey → List ChatTurn → App G → App G
  append_history key turns a = record a { history = History.append a.history key turns }

module _ {G : Type 0} (lib : Library) (s : Settings G) (t : Moment) where
  unfoldable pub prior_turns : Bool → SessionKey → Act G (List ChatTurn)
  prior_turns false key = pure []
  prior_turns true key = do turns ← read_history key; pure (history_for_model lib.citing turns)

  unfoldable pub find : Model G → Principal → Text → Text → List ChatTurn → Act G Found
  find m principal own question prior = do
    safe ←
        call (lift_unsafe (validate_query lib.matching (default_pipeline s.gate.one) question own))
    query ← search_query lib s t m safe prior
    es ← retrieve lib s t principal query
    pure (record { question = safe; query = query; evidence = es })

  -- A chat remembers the exchange and reports on its session.
  unfoldable pub remember : Bool → SessionKey → Found → Answer → Act G Answer
  remember false key f r = pure r
  remember true key f r = do
    change (
        append_history key
          (turn_of (text "user") f.question ∷ turn_of (text "assistant") r.answer ∷ []))
    turns ← read_history key
    pure (record r {
      session_id = some key.1.1;
      history_messages = some (length turns);
      search_query = other_query f;
    })

  -- What follows the checks of the request.
  unfoldable pub reply : Bool → Principal → Text → SessionKey → Option (Model G) → Act G Answer
  unfolding prior_turns find remember
  reply is_chat principal question key own_model = do
    let m = or_server s.provider own_model
    prior ← prior_turns is_chat key
    f ← with_unsafe_refusals 400 (find m principal principal.tenant_id question prior)
    w ← write_answer lib s t own_model principal.tenant_id f.question prior f.evidence
    citations ← call (or_unexpected (citations_of w.used f.evidence))
    remember is_chat key f (response_of (is_own own_model) w citations)

  unfoldable pub answer : Bool → Request → Act G Response
  answer is_chat request = do
    question ← call (
        or_bad_request (text "question is required as a string")
          (text_of (get_field (text "question") request.payload)))
    principal ← call (caller request.principal)
    own ← call (tenant lib request)
    let session = text_of (get_field (text "session_id") request.payload)
    refuse_if (is_chat && blank_session (trimmed lib) session) 400
        (text "session_id is required for chat")
    own_model ← call (user_provider lib s t request.payload)
    r ← reply is_chat principal question (own, (principal.user_id, text_or_empty session)) own_model
    pure (200, answered r)
