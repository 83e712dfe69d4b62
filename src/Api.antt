-- ===== src/Api.antt =====
-- api.py: the requests that `RagApiApplication` serves. The application stands on the in-memory
-- store; a request is served at one moment, from its first statement to its last.
pub mod Uploads
pub mod Documents
pub mod Answers
pub mod Asking
pub mod Routing
pub mod Ingestion
pub mod Ensures
pub mod Finding
pub mod Cited
pub mod Grounded
pub mod Spending
pub mod Paths
pub mod Models
pub mod Served
pub mod Service
pub mod Changes
pub mod Writes
pub mod Storing
pub mod Conversing
mod Tests
use production_rag.Base.{
  ℕ, Bool, true, false, Option, none, some, List, [], ◌∷◌, ◌++◌, Text, text, Result, ok, err, Dict,
  ◌==◌, nat_eq, list_eq, if◌then◌else◌, strip, Unicode,
}
use production_rag.Json.{Json, Fields, null, string, get_field}
use production_rag.Permissions.{Principal, ValueError, value_error}
use production_rag.Documents.{Instant}
use production_rag.History.{ChatTurn, History}
use production_rag.MemoryStore.State.{Meta, Store}
use production_rag.Gateway.Attempts.{Generation, Note}
use production_rag.Observability.Bucket.{Limiter}
use production_rag.Observability.Budgets.{DailyTokenBudget}
use production_rag.Workers.{IngestionJob, Worker}
use production_rag.Byok.{LlmSettings, Network, Choice}
use production_rag.Chunking
use production_rag.Parsers
use production_rag.Providers
use production_rag.Query.{Matching}
use production_rag.Query
use production_rag.Auth.{Principals}
use production_rag.Auth

-- The retry-after header: seconds, or the missing parts over the rate of the limiter.
pub data Retry : Type 0 where
  seconds : ℕ → Retry
  parts : ℕ → ℕ → Retry

pub record ApiError : Type 0 where
  pub status : ℕ
  pub message : Text
  pub retry_after : Option Retry

-- What a handler raises: an `ApiError`, an `UnsafeQueryError`, which is a `ValueError` too, another
-- `ValueError`, or an exception of another type.
pub data Exception : Type 0 where
  refused : ApiError → Exception
  unsafe_query : ValueError → Exception
  bad_value : ValueError → Exception
  unexpected : Exception

-- The time of a request, and the ids that `uuid4` gives it.
pub record Moment : Type 0 where
  pub now : Instant
  pub ticks : ℕ
  pub today : Text
  pub hour : ℕ
  pub minute : ℕ
  pub second : ℕ
  pub elapsed : ℕ
  pub fresh_id : Text
  pub fresh_job : Text

-- The counters and the latencies that a request adds to.
pub data Count : Type 0 where
  http_request : Text → Text → ℕ → Count
  latency : Text → ℕ → Count
  rate_limited : Text → Count
  generation_tokens : ℕ → Text → Count
  degraded_answer : Count

-- A model: the two methods of `ModelProvider` that an answer calls, over the state `G` of providers
-- and network; `complete` may raise. GatewayProvider and ExtractiveProvider are models.
pub record Model (G : Type 0) : Type 0 where
  pub rewrite_query : Text → List ChatTurn → G → Text × G
  pub complete : Text → List Text → List ChatTurn → G → Result Exception Generation × G

pub record App (G : Type 0) : Type 0 where
  pub memory : Store
  pub history : History
  pub limiter : Limiter
  pub budget : DailyTokenBudget
  pub worker : Worker
  pub counts : List Count
  pub world : G

-- The standard library, and what the parts ask of it.
pub record Library : Type 0 where
  pub unicode : Unicode
  pub chunking : Chunking.Library
  pub parsing : Parsers.Library
  pub citing : Providers.Library
  pub matching : Matching
  pub network : Network
  pub keys : Auth.Library
  pub json_loads : List ℕ → Option Json
  -- `urlsplit` and `parse_qs`: the path, and the last value of each parameter; `none` is a
  -- `ValueError`.
  pub split_path : Text → Option (Text × Dict Text Text)
  pub encode : Text → Result ValueError (List ℕ)
  pub b64encode : List ℕ → Text
  -- With `validate` or without.
  pub b64decode : Bool → Text → Result ValueError (List ℕ)
  pub fromisoformat : Text → Result ValueError Instant
  -- SOURCE_SYSTEM_RE
  pub is_source_system : Text → Bool
  -- `int(n * 0.74)`, a product of floats.
  pub times_074 : ℕ → ℕ
  -- Whether the text of a number is one of a zero, and whether bytes are all white space.
  pub is_zero : Text → Bool
  pub is_blank : List ℕ → Bool
  -- `int` reads a text of digits up to 4,300 of them.
  pub reads_int : Text → Bool
  -- `CITATION_RE.sub`, over the replacement of a group.
  pub replace_citations : (Text → Text) → Text → Text

-- What `__init__` is given.
pub record Settings (G : Type 0) : Type 0 where
  pub principals : Principals
  pub gate : Query.Pipeline
  pub windows : Chunking.Pipeline
  pub max_body_bytes : ℕ
  pub custom_urls : Option Text
  pub provider : Model G
  -- `p.name` of a gateway's providers, and `getattr(provider, "name", "provider")`.
  pub provider_names : Option (List Text)
  pub provider_name : Text
  -- `build_user_provider`
  pub user_provider : LlmSettings → Model G

pub record Stored : Type 0 where
  pub document_id : Text
  pub source_system : Text
  pub source_id : Text
  pub content_sha256 : Text
  pub content_type : Text
  pub version : ℕ
  pub superseded : List Text
  pub chunks_created : ℕ
  pub already_existed : Bool
  pub unchanged : Bool

pub record Citation : Type 0 where
  pub source_number : ℕ
  pub document_id : Text
  pub source : Text
  pub chunk_index : ℕ
  pub page : Option ℕ
  pub score : ℕ
  pub excerpt : Text

pub record Answer : Type 0 where
  pub answer : Text
  pub grounded : Bool
  pub citations : List Citation
  pub generation : Option Generation
  pub own_key : Bool
  pub session_id : Option Text
  pub history_messages : Option ℕ
  pub search_query : Option Text

pub record Me : Type 0 where
  pub tenant_id : Text
  pub user_id : Text
  pub groups : List Text
  pub storage : Text
  pub max_file_bytes : ℕ
  pub model : Text
  pub llm : List Choice × Bool

-- The bodies of the responses, by their fields.
pub data Payload : Type 0 where
  status_is : Text → Payload
  who : Me → Payload
  -- A tiny call of the caller's own model; its latency is left out. With
  -- no note the failure says that the call failed.
  call_failed : List Note → Payload
  call_worked : Text → Payload
  listed : List Meta → Payload
  document : Meta → Payload
  deleted : Text → Payload
  updated : Meta → Payload
  updated_unseen : Text → Payload
  stored : Stored → Payload
  job : IngestionJob → Payload
  answered : Answer → Payload

abbrev pub Response : Type 0
Response = ℕ × Payload

abbrev pub api_error : ℕ → Text → ApiError
api_error status message = record { status = status; message = message; retry_after = none }

-- `params` is the one group of the route's pattern, if it has one.
pub record Request : Type 0 where
  pub params : Text
  pub payload : Fields
  pub principal : Option Principal
  pub query : Dict Text Text

-- `request.caller`, an assertion.
abbrev pub caller : Option Principal → Result Exception Principal
caller none = err unexpected
caller (some p) = ok p

-- `payload.get(name)`: a null is the same as a missing field.
abbrev pub given : Option Json → Option Json
given none = none
given (some null) = none
given (some j) = some j

-- A statement of a handler: it reads and writes the application, and may raise. What was written
-- before an exception stays.
abbrev pub Act : Type 0 → Type 0 → Type 0
Act G A = App G → Result Exception A × App G

abbrev pub after :
    {G A B : Type 0} → Result Exception A × App G → (A → Act G B) → Result Exception B × App G
after (ok x, a) k = k x a
after (err e, a) k = (err e, a)

infixl 5 ◌>>=◌ ◌>>◌
unfoldable pub ◌>>=◌ : {G A B : Type 0} → Act G A → (A → Act G B) → Act G B
(m >>= k) a = after (m a) k

unfoldable pub ◌>>◌ : {G A B : Type 0} → Act G A → Act G B → Act G B
(m >> k) a = after (m a) (λ _. k)

unfoldable pub pure : {G A : Type 0} → A → Act G A
pure x a = (ok x, a)

-- `if test: raise ApiError(status, message)`
unfoldable pub refuse_if : {G : Type 0} → Bool → ℕ → Text → Act G (Unit {0})
refuse_if true status message a = (err (refused (api_error status message)), a)
refuse_if false status message a = (ok tt, a)

-- A call that does not write the application.
unfoldable pub call : {G A : Type 0} → Result Exception A → Act G A
call r a = (r, a)

unfoldable pub get : {G A : Type 0} → (App G → A) → Act G A
get f a = (ok (f a), a)

unfoldable pub change : {G : Type 0} → (App G → App G) → Act G (Unit {0})
change f a = (ok tt, f a)

-- A method that returns a value and the new state.
unfoldable pub run : {G A : Type 0} → (App G → A × App G) → Act G A
run f a = (ok (f a).0, (f a).1)

-- A call of a part that raises a `ValueError`.
abbrev pub lift : {A : Type 0} → Result ValueError A → Result Exception A
lift (ok x) = ok x
lift (err e) = err (bad_value e)

-- A call of `RagQueryPipeline` that raises an `UnsafeQueryError`.
abbrev pub lift_unsafe : {A : Type 0} → Result ValueError A → Result Exception A
lift_unsafe (ok x) = ok x
lift_unsafe (err e) = err (unsafe_query e)

abbrev pub message_of : ValueError → Text
message_of (value_error t) = t

-- `except ValueError as exc: raise ApiError(status, str(exc)) from exc`
abbrev pub as_refusal : {A : Type 0} → ℕ → Result Exception A → Result Exception A
as_refusal status (ok x) = ok x
as_refusal status (err (bad_value e)) = err (refused (api_error status (message_of e)))
as_refusal status (err (unsafe_query e)) = err (refused (api_error status (message_of e)))
as_refusal status (err e) = err e

unfoldable pub with_refusals : {G A : Type 0} → ℕ → Act G A → Act G A
with_refusals status m a = let out = m a in (as_refusal status out.0, out.1)

-- `except UnsafeQueryError as exc: raise ApiError(status, str(exc)) from exc`
abbrev pub as_unsafe_refusal : {A : Type 0} → ℕ → Result Exception A → Result Exception A
as_unsafe_refusal status (ok x) = ok x
as_unsafe_refusal status (err (unsafe_query e)) = err (refused (api_error status (message_of e)))
as_unsafe_refusal status (err e) = err e

unfoldable pub with_unsafe_refusals : {G A : Type 0} → ℕ → Act G A → Act G A
with_unsafe_refusals status m a = let out = m a in (as_unsafe_refusal status out.0, out.1)

abbrev pub count : {G : Type 0} → Count → App G → App G
count c a = record a { counts = a.counts ++ c ∷ [] }
