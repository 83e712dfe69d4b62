-- ===== src/Api/Writes.antt =====
-- The handlers of documents and jobs write only what is the caller's.
use production_rag.Base.{
  ◌≡◌, refl, ap, sym, ◌∙◌, ok-injective, >>=-eq-ok, >>-eq-ok, raise_if, Option, some, List, Text,
  text, ok, is_empty, nat_eq, list_eq,
}
use production_rag.Permissions.{Principal}
use production_rag.Json.{get_field}
use production_rag.Api.{Moment, Model, Library, Settings, Request, caller, given}
use production_rag.Api.Uploads.{
  tenant, trimmed, DocumentJob, document_job, expect_text, invalid_if, content_of, expect_option,
  source_fields,
}
use production_rag.Api.Documents.{
  groups_of, run_memory, live, ready, me, test_llm, list_all, get_one, delete_one, update_one,
  submit_job, get_job, queued, complete_with,
}
use production_rag.Api.Changes.{
  Keeps, Keeps-bind, Keeps-then, Keeps-call, Keeps-refuse_if, Keeps-with_refusals, Keeps-pure,
  Keeps-get, Keeps-run, Own-memory, Keeps-known, Own-rest,
}
use production_rag.MemoryStore.Edits.{update_document}
use production_rag.MemoryStore.Calls.{updates, deletes, step}
use production_rag.Api.Uploads

pub some-injective : {a b c : Text} → some a ≡ some b → a ≡ c → b ≡ c
some-injective h e = cc (h, e)

module _ {G : Type 0} (lib : Library) (s : Settings G) (t : Moment) (p : Principal) where
  ruleset keeping = (
    Keeps-bind, Keeps-then, Keeps-pure, Keeps-call, Keeps-get, Keeps-refuse_if, Keeps-with_refusals,
  )

  pub caller_lem :
      (request : Request) (q : Principal)
      → request.principal ≡ some p
      → caller request.principal ≡ ok q
      → q ≡ p
  caller_lem request q known h = ok-injective (sym h ∙ ap caller known)

  pub tenant_lem :
      (request : Request) (own : Text)
      → request.principal ≡ some p
      → tenant lib request ≡ ok own
      → own ≡ p.tenant_id
  unfolding tenant
  tenant_lem request own known h =
      let (q, e, f) = >>=-eq-ok (caller request.principal) _ h in
      let (u, g, same) = >>-eq-ok (raise_if _ _) (ok q.tenant_id) f in
      sym (ok-injective same) ∙ ap (λ (q : Principal). q.tenant_id) (caller_lem request q known e)

  pub live-Keeps : (request : Request) → Keeps p (live lib s t request)
  unfolding live
  live-Keeps request = search keeping

  pub ready-Keeps : (request : Request) → Keeps p (ready lib s t request)
  unfolding ready
  ready-Keeps request = search keeping

  pub me-Keeps : (request : Request) → Keeps p (me lib s t request)
  unfolding me
  me-Keeps request = search keeping

  pub list_all-Keeps : (request : Request) → Keeps p (list_all lib s t request)
  unfolding list_all
  list_all-Keeps request = search keeping

  pub get_one-Keeps : (request : Request) → Keeps p (get_one lib s t request)
  unfolding get_one
  get_one-Keeps request = search keeping

  pub get_job-Keeps : (request : Request) → Keeps p (get_job lib s t request)
  unfolding get_job
  get_job-Keeps request = search keeping

  queued-Keeps : (job : DocumentJob) → Keeps p (queued lib s t job)
  queued-Keeps job = Keeps-run p _ (λ a. Own-rest p a _ refl refl refl) (λ a. refl)

  pub submit_job-Keeps : (request : Request) → Keeps p (submit_job lib s t request)
  unfolding submit_job
  submit_job-Keeps request = search (keeping, queued-Keeps)

  complete_with-Keeps :
      (m : Model G) (question : Text) (context : List Text)
      → Keeps p (complete_with lib s t m question context)
  complete_with-Keeps m question context = record {
    own = λ a. Own-rest p a _ refl refl refl;
    uncounted = λ a. refl;
  }

  pub test_llm-Keeps : (request : Request) → Keeps p (test_llm lib s t request)
  unfolding test_llm
  test_llm-Keeps request = search (keeping, complete_with-Keeps)

  pub delete_one-Keeps :
      (request : Request) → request.principal ≡ some p → Keeps p (delete_one lib s t request)
  unfolding delete_one step
  delete_one-Keeps request known = Keeps-bind p (Keeps-call p _) (λ q.
      Keeps-known p (tenant lib request) (λ own h.
        Keeps-bind p
          (Keeps-run p _
            (λ a.
              Own-memory p (deletes own request.params (groups_of q)) a
                (λ tenant o. some-injective o (tenant_lem request own known h)))
            (λ a. refl))
          (λ found. search keeping)))

  update_memory-Keeps :
      (own document_id : Text) (groups : List Text) (acl : Option (List Text)) (name : Option Text)
      → own ≡ p.tenant_id
      → Keeps p (run_memory {G = G} (update_document t.now own document_id groups acl name))
  unfolding step
  update_memory-Keeps own document_id groups acl name e =
      Keeps-run p _
        (λ a.
          Own-memory p (updates t.now own document_id groups acl name) a
            (λ tenant o. some-injective o e))
        (λ a. refl)

  pub update_one-Keeps :
      (request : Request) → request.principal ≡ some p → Keeps p (update_one lib s t request)
  unfolding update_one
  update_one-Keeps request known = Keeps-bind p (Keeps-call p _) (λ q.
      Keeps-known p (tenant lib request)
        (λ own h. let e = tenant_lem request own known h in search (keeping, update_memory-Keeps)))

  -- The job of an upload is for the caller's tenant.
  pub job_tenant :
      (request : Request) (job : DocumentJob)
      → request.principal ≡ some p
      → document_job lib request ≡ ok job
      → job.tenant_id ≡ p.tenant_id
  unfolding document_job
  job_tenant request job known h0 =
      let fields = request.payload in
      let (filename, a1, h1) =
        >>=-eq-ok (expect_text (text "filename is required") (get_field (text "filename") fields)) _
          h0 in
      let (u2, a2, h2) =
        >>-eq-ok (invalid_if (is_empty (trimmed lib filename)) (text "filename is required")) _
          h1 in
      let (encoded, a3, h3) =
        >>=-eq-ok
          (content_of lib (given (get_field (text "content") fields))
            (given (get_field (text "content_base64") fields)))
          _ h2 in
      let (content_type, a4, h4) =
        >>=-eq-ok
          (expect_option (text "content_type must be a string")
            (given (get_field (text "content_type") fields)))
          _ h3 in
      let (q, a5, h5) = >>=-eq-ok (caller request.principal) _ h4 in
      let (own, a6, h6) = >>=-eq-ok (tenant lib request) _ h5 in
      let (allowed, a7, h7) =
        >>=-eq-ok (Uploads.groups_of lib (get_field (text "allowed_groups") fields)) _ h6 in
      let (source, a8, h8) = >>=-eq-ok (source_fields lib fields (trimmed lib filename)) _ h7 in
      ap (λ (j : DocumentJob). j.tenant_id) (sym (ok-injective h8))
      ∙ tenant_lem request own known a6
