-- ===== src/Api/Documents.antt =====
-- The handlers of documents, jobs, health and the caller's own model.
use production_rag.Base.{
  ◌++◌, Bool, true, false, not, Option, none, some, List, [], ◌∷◌, Text, text, Result, ok, err,
  ◌==◌, nat_eq, list_eq, if◌then◌else◌, is_empty, sort, text_leb, lookup,
}
use production_rag.Json.{Json, Fields, string, get_field}
use production_rag.Permissions.{Principal, ValueError, normalize_groups}
use production_rag.MemoryStore.State.{Meta, Store}
use production_rag.MemoryStore.Edits.{update_document, delete_document}
use production_rag.MemoryStore.Reads.{list_documents, get_document}
use production_rag.Gateway.Attempts.{Generation}
use production_rag.Workers.{IngestionJob, Worker, submit}
use production_rag.Workers
use production_rag.Byok.{
  SettingsError, llm_settings_error, url_value_error, LlmSettings, parse_llm_settings,
  custom_urls_allowed, presets_for_ui,
}
use production_rag.Chunking.{join}
use production_rag.Api.{
  Exception, refused, bad_value, unexpected, Moment, Model, Library, Settings, Request, Response,
  Payload, status_is, who, call_failed, call_worked, listed, document, deleted, updated,
  updated_unseen, job, api_error, caller, given, Act, ◌>>=◌, ◌>>◌, pure, call, get, run, refuse_if,
  as_refusal,
}
use production_rag.Api.Uploads.{tenant, trimmed, document_job, job_payload, DocumentJob}
use production_rag.Api.Ingestion.{with_memory}

abbrev pub or_not_found : {A : Type 0} → Text → Option A → Result Exception A
or_not_found message none = err (refused (api_error 404 message))
or_not_found message (some a) = ok a

abbrev pub groups_of : Principal → List Text
groups_of p = sort text_leb p.groups

-- `query.get("include_superseded") == "true"`
abbrev pub is_true : Option Text → Bool
is_true none = false
is_true (some t) = t == text "true"

abbrev pub run_memory : {G A : Type 0} → (Store → A × Store) → Act G A
run_memory f = run (λ a. let out = f a.memory in (out.0, with_memory a out.1))

-- A name that is not a text, or blank.
abbrev pub is_bad_name : (Text → Text) → Option Json → Bool
is_bad_name trim none = false
is_bad_name trim (some (string name)) = is_empty (trim name)
is_bad_name trim (some j) = true

abbrev pub name_given : (Text → Text) → Option Json → Option Text
name_given trim (some (string name)) = some (trim name)
name_given trim o = none

abbrev pub nothing_to_change : Option (List Text) → Option Text → Bool
nothing_to_change none none = true
nothing_to_change acl name = false

-- The answer to a change: the document as the caller now sees it, if at all.
abbrev pub update_response : Text → Bool × Option Meta → Result Exception Response
update_response document_id (false, row) = err (refused (api_error 404 (text "document not found")))
update_response document_id (true, none) = ok (200, updated_unseen document_id)
update_response document_id (true, some m) = ok (200, updated m)

-- The models behind a gateway, and the extractive answerer; or the name of another provider.
abbrev pub model_name : Option (List Text) → Text → Text
model_name none name = name
model_name (some names) name = join (text " → ") (names ++ text "extractive" ∷ [])

module _ {G : Type 0} (lib : Library) (s : Settings G) (t : Moment) where
  unfoldable pub live : Request → Act G Response
  live request = pure (200, status_is (text "ok"))

  -- With no database there is nothing to check.
  unfoldable pub ready : Request → Act G Response
  ready request = pure (200, status_is (text "ready"))

  unfoldable pub me : Request → Act G Response
  me request = do
    principal ← call (caller request.principal)
    pure (
      200,
      who (record {
        tenant_id = principal.tenant_id;
        user_id = principal.user_id;
        groups = groups_of principal;
        storage = text "memory";
        max_file_bytes = lib.times_074 s.max_body_bytes;
        model = model_name s.provider_names s.provider_name;
        llm = presets_for_ui s.custom_urls;
      }),
    )

  abbrev pub user_model : Option LlmSettings → Option (Model G)
  user_model none = none
  user_model (some settings) = some (s.user_provider settings)

  abbrev pub settings_or_refusal :
      Result SettingsError (Option LlmSettings) → Result Exception (Option (Model G))
  settings_or_refusal (ok o) = ok (user_model o)
  settings_or_refusal (err (llm_settings_error message)) = err (refused (api_error 422 message))
  settings_or_refusal (err url_value_error) = err unexpected

  unfoldable pub user_provider : Fields → Result Exception (Option (Model G))
  user_provider payload = settings_or_refusal (
      parse_llm_settings lib.network (custom_urls_allowed s.custom_urls)
        (get_field (text "llm") payload))

  abbrev pub or_required : Option (Model G) → Result Exception (Model G)
  or_required none = err (refused (api_error 422 (text "llm settings are required")))
  or_required (some m) = ok m

  abbrev pub complete_with : Model G → Text → List Text → Act G Generation
  complete_with m question context =
      λ a. let out = m.complete question context [] a.world in (out.0, record a { world = out.1 })

  abbrev tested : Generation → Payload
  tested generation =
      if generation.degraded then call_failed generation.note else call_worked generation.model

  unfoldable pub test_llm : Request → Act G Response
  unfolding user_provider
  test_llm request = do
    chosen ← call (user_provider request.payload)
    provider ← call (or_required chosen)
    generation ← complete_with provider (text "Reply with the word ok.") (text "ok" ∷ [])
    pure (200, tested generation)

  unfoldable pub list_all : Request → Act G Response
  list_all request = do
    principal ← call (caller request.principal)
    call (tenant lib request)
    rows ← get (λ a.
        list_documents a.memory principal.tenant_id (groups_of principal)
          (is_true (lookup (text "include_superseded") request.query)))
    pure (200, listed rows)

  unfoldable pub get_one : Request → Act G Response
  get_one request = do
    principal ← call (caller request.principal)
    call (tenant lib request)
    row ← get (λ a. get_document a.memory principal.tenant_id request.params (groups_of principal))
    found ← call (or_not_found (text "document not found") row)
    pure (200, document found)

  unfoldable pub delete_one : Request → Act G Response
  delete_one request = do
    principal ← call (caller request.principal)
    own ← call (tenant lib request)
    found ← run_memory (delete_document own request.params (groups_of principal))
    refuse_if (not found) 404 (text "document not found")
    pure (200, deleted request.params)

  abbrev pub new_groups : Option Json → Result Exception (Option (List Text))
  new_groups none = ok none
  new_groups (some j) = some_groups (normalize_groups lib.unicode j)
    where
      some_groups : Result ValueError (List Text) → Result Exception (Option (List Text))
      some_groups (ok gs) = ok (some gs)
      some_groups (err e) = err (bad_value e)

  unfoldable pub update_one : Request → Act G Response
  update_one request = do
    principal ← call (caller request.principal)
    own ← call (tenant lib request)
    acl ← call (as_refusal 422 (new_groups (get_field (text "allowed_groups") request.payload)))
    let name = given (get_field (text "filename") request.payload)
    refuse_if (is_bad_name (trimmed lib) name) 422 (text "filename must be a non-empty string")
    refuse_if (nothing_to_change acl (name_given (trimmed lib) name)) 422
        (text "send allowed_groups and/or filename to change")
    out ← run_memory (
        update_document t.now own request.params (groups_of principal) acl
          (name_given (trimmed lib) name))
    call (update_response request.params out)

  -- `submit` puts the new job under a fresh id, and returns it.
  abbrev pub queued : DocumentJob → Act G IngestionJob
  queued wanted = run (λ a. (
    Workers.new_job t.fresh_job wanted.tenant_id t.now,
    record a { worker = submit t.fresh_job wanted.tenant_id (job_payload wanted) t.now a.worker },
  ))

  unfoldable pub submit_job : Request → Act G Response
  submit_job request = do
    wanted ← call (as_refusal 422 (document_job lib request))
    new ← queued wanted
    pure (202, job new)

  unfoldable pub get_job : Request → Act G Response
  get_job request = do
    own ← call (tenant lib request)
    found ← get (λ a. Workers.get_job own request.params a.worker)
    known ← call (or_not_found (text "job not found") found)
    pure (200, job known)
