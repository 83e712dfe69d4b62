-- ===== src/Api/Routing.antt =====
-- `routes`, `_authenticate`, `_json_body`, `_route` and `handle`: a request, from its bytes to its
-- response.
use production_rag.Base.{
  ℕ, Bool, true, false, not, ◌&&◌, ◌||◌, Option, none, some, List, [], ◌∷◌, ◌++◌, Text, text,
  Result, ok, err, ◌==◌, nat_eq, list_eq, if◌then◌else◌, is_empty, length, ltb, contains, drop,
  Dict, lookup, insert,
}
use production_rag.Json.{Json, Fields, none_left, object}
use production_rag.Permissions.{Principal}
use production_rag.Observability.Bucket.{Limiter, go_on, wait, acquire}
use production_rag.Observability.Bucket
use production_rag.Auth.{authenticate}
use production_rag.Byok.{rstrip_slash}
use production_rag.Parsers.{starts_with}
use production_rag.Api.{
  Exception, refused, unexpected, parts, ApiError, Moment, http_request, latency, rate_limited, App,
  Library, Settings, Request, Response, api_error, Act, ◌>>=◌, ◌>>◌, call, refuse_if, count,
}
use production_rag.Api.Ingestion.{create_document}
use production_rag.Api.Documents.{
  live, ready, me, test_llm, list_all, get_one, delete_one, update_one, submit_job, get_job,
}
use production_rag.Api.Asking.{answer}

pub data Handler : Type 0 where
  to_live to_ready to_me to_test_llm to_list to_create to_get to_delete to_update to_query to_chat
        to_submit to_get_job :
      Handler

-- A path, or a prefix that one more segment follows.
pub data Pattern : Type 0 where
  exactly : Text → Pattern
  under : Text → Pattern

pub record Route : Type 0 where
  pub method : Text
  pub pattern : Pattern
  pub handler : Handler
  pub requires_auth : Bool

abbrev pub route : Text → Pattern → Handler → Bool → Route
route method pattern handler requires_auth = record {
  method = method;
  pattern = pattern;
  handler = handler;
  requires_auth = requires_auth;
}

abbrev pub routes : List Route
routes =
    route (text "GET") (exactly (text "/health/live")) to_live false
    ∷ route (text "GET") (exactly (text "/health/ready")) to_ready false
    ∷ route (text "GET") (exactly (text "/v1/me")) to_me true
    ∷ route (text "POST") (exactly (text "/v1/llm/test")) to_test_llm true
    ∷ route (text "GET") (exactly (text "/v1/documents")) to_list true
    ∷ route (text "POST") (exactly (text "/v1/documents")) to_create true
    ∷ route (text "GET") (under (text "/v1/documents/")) to_get true
    ∷ route (text "DELETE") (under (text "/v1/documents/")) to_delete true
    ∷ route (text "PATCH") (under (text "/v1/documents/")) to_update true
    ∷ route (text "POST") (exactly (text "/v1/query")) to_query true
    ∷ route (text "POST") (exactly (text "/v1/chat")) to_chat true
    ∷ route (text "POST") (exactly (text "/v1/ingestion/jobs")) to_submit true
    ∷ route (text "GET") (under (text "/v1/ingestion/jobs/")) to_get_job true
    ∷ []

-- `handler.__name__.lstrip("_")`
abbrev pub label_of : Handler → Text
label_of to_live = text "live"
label_of to_ready = text "ready"
label_of to_me = text "me"
label_of to_test_llm = text "test_llm"
label_of to_list = text "list_documents"
label_of to_create = text "create_document"
label_of to_get = text "get_document"
label_of to_delete = text "delete_document"
label_of to_update = text "update_document"
label_of to_query = text "query"
label_of to_chat = text "chat"
label_of to_submit = text "submit_job"
label_of to_get_job = text "get_job"

-- `[^/]+`
abbrev pub is_segment : Text → Bool
is_segment s = not (is_empty s) && not (contains s 47)

abbrev pub segment_after : Text → Text → Option Text
segment_after prefix path =
    if starts_with prefix path && is_segment (drop (length prefix) path)
    then some (drop (length prefix) path)
    else none

-- `pattern.fullmatch`, and the group it finds.
unfoldable pub full_match : Pattern → Text → Option Text
full_match (exactly p) path = if p == path then some [] else none
full_match (under prefix) path = segment_after prefix path

pub data Search : Type 0 where
  goes_to : Route → Text → Search
  not_allowed not_found : Search

abbrev pub fits : Option Text → Bool
fits none = false
fits (some params) = true

abbrev pub this_or_later : Route → Text → Option Text → Search → Search
this_or_later r method none later = later
this_or_later r method (some params) later = if r.method == method then goes_to r params else later

-- The loop over the routes; `seen` is whether the path has fit a route of another method.
unfoldable pub find_route : Text → Text → Bool → List Route → Search
unfolding full_match
find_route method path seen [] = if seen then not_allowed else not_found
find_route method path seen (r ∷ rs) =
    this_or_later r method (full_match r.pattern path)
      (find_route method path (seen || fits (full_match r.pattern path)) rs)

abbrev pub or_root : Text → Text
or_root [] = 47 ∷ []
or_root (c ∷ s) = c ∷ s

-- `{key.lower(): value for key, value in headers.items()}`
unfoldable pub lowered : (Text → Text) → Dict Text Text → Dict Text Text → Dict Text Text
lowered lower [] found = found
lowered lower ((k, v) ∷ headers) found = lowered lower headers (insert (lower k) v found)

abbrev pub or_fresh : Text → Option Text → Text
or_fresh fresh none = fresh
or_fresh fresh (some []) = fresh
or_fresh fresh (some (c ∷ s)) = c ∷ s

abbrev pub caller_key : Principal → Text
caller_key p = p.tenant_id ++ 47 ∷ p.user_id

-- A response or a refusal, and the id of the request.
pub record Served : Type 0 where
  pub request_id : Text
  pub outcome : Result ApiError Response

module _ {G : Type 0} (lib : Library) (s : Settings G) (t : Moment) where
  abbrev pub handler_of : Handler → Request → Act G Response
  handler_of to_live = live lib s t
  handler_of to_ready = ready lib s t
  handler_of to_me = me lib s t
  handler_of to_test_llm = test_llm lib s t
  handler_of to_list = list_all lib s t
  handler_of to_create = create_document lib s t
  handler_of to_get = get_one lib s t
  handler_of to_delete = delete_one lib s t
  handler_of to_update = update_one lib s t
  handler_of to_query = answer lib s t false
  handler_of to_chat = answer lib s t true
  handler_of to_submit = submit_job lib s t
  handler_of to_get_job = get_job lib s t

  abbrev pub body_fields : Option Json → Result Exception Fields
  body_fields none = err (refused (api_error 400 (text "request body must be valid JSON")))
  body_fields (some (object fields)) = ok fields
  body_fields (some j) = err (refused (api_error 400 (text "request body must be a JSON object")))

  unfoldable pub json_body : List ℕ → Result Exception Fields
  json_body body = if lib.is_blank body then ok none_left else body_fields (lib.json_loads body)

  abbrev pub or_unauthorized : Option Principal → Result Exception Principal
  or_unauthorized none = err (refused (api_error 401 (text "invalid or missing API key")))
  or_unauthorized (some p) = ok p

  unfoldable pub authenticated : Dict Text Text → Result Exception Principal
  authenticated headers = or_unauthorized (
      authenticate lib.keys (lookup (text "x-api-key") (lowered lib.keys.lower headers []))
        s.principals)

  abbrev pub limit_answer : Principal → Bucket.Answer → Act G (Unit {0})
  limit_answer p go_on a = (ok tt, a)
  limit_answer p (wait missing rate) a = (
    err (
        refused (record {
          status = 429;
          message = text "rate limit exceeded";
          retry_after = some (parts missing rate);
        })),
    count (rate_limited p.tenant_id) a,
  )

  unfoldable pub limit_rate : Principal → Act G (Unit {0})
  limit_rate p a =
      let out = acquire (caller_key p) t.ticks a.limiter in
      limit_answer p out.0 (record a { limiter = out.1 })

  -- The body, and then the handler.
  unfoldable pub dispatch :
      Route → Text → Dict Text Text → List ℕ → Option Principal → Act G Response
  unfolding json_body
  dispatch r params query body principal = do
    refuse_if (ltb s.max_body_bytes (length body)) 413 (text "request body is too large")
    payload ← call (json_body body)
    handler_of r.handler
        (record { params = params; payload = payload; principal = principal; query = query })

  abbrev pub enter : Bool → Route → Text → Dict Text Text → Dict Text Text → List ℕ → Act G Response
  enter false r params query headers body = dispatch r params query body none
  enter true r params query headers body = do
    p ← call (authenticated headers)
    limit_rate p
    dispatch r params query body (some p)

  unfoldable pub go : Search → Dict Text Text → Dict Text Text → List ℕ → Act G Response
  unfolding dispatch
  go (goes_to r params) query headers body a = enter r.requires_auth r params query headers body a
  go not_allowed query headers body a =
      (err (refused (api_error 405 (text "method not allowed"))), a)
  go not_found query headers body a = (err (refused (api_error 404 (text "route not found"))), a)

  abbrev pub label : Search → Text
  label (goes_to r params) = label_of r.handler
  label other = text "unmatched"

  abbrev pub search : Text → Option (Text × Dict Text Text) → Search
  search method none = not_found
  search method (some (path, query)) = find_route method (or_root (rstrip_slash path)) false routes

  -- `_route`; a path that cannot be split raises.
  unfoldable pub route_request :
      Text → Option (Text × Dict Text Text) → Dict Text Text → List ℕ → Act G Response
  unfolding go
  route_request method none headers body a = (err unexpected, a)
  route_request method (some (path, query)) headers body a =
      go (search method (some (path, query))) query headers body a

  -- Any exception but an `ApiError` becomes a 500.
  abbrev pub answered_error : Exception → ApiError
  answered_error (refused e) = e
  answered_error other = api_error 500 (text "internal server error")

  abbrev pub outcome_of : Result Exception Response → Result ApiError Response
  outcome_of (ok r) = ok r
  outcome_of (err e) = err (answered_error e)

  abbrev pub status_of : Result ApiError Response → ℕ
  status_of (ok (status, payload)) = status
  status_of (err e) = e.status

  abbrev pub observed : Text → Text → ℕ → App G → App G
  observed name method status a =
      count (latency name t.elapsed) (count (http_request name method status) a)

  abbrev pub finish : Text → Text → Text → Result Exception Response × App G → Served × App G
  finish id name method (r, a) = (
    record { request_id = id; outcome = outcome_of r },
    observed name method (status_of (outcome_of r)) a,
  )

  unfoldable pub handle : Text → Text → Dict Text Text → List ℕ → App G → Served × App G
  unfolding route_request
  handle method path headers body a =
      let parts = lib.split_path path in
      let id =
        or_fresh t.fresh_id (lookup (text "x-request-id") (lowered lib.keys.lower headers [])) in
      finish id (label (search method parts)) method (route_request method parts headers body a)
