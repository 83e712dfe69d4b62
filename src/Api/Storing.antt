-- ===== src/Api/Storing.antt =====
-- An upload writes only what is the caller's.
use production_rag.Base.{
  ◌++◌, inr, inl, ℕ, Bool, true, false, not, ◌≡◌, refl, ap, sym, ◌∙◌, ok-injective, >>=-eq-ok,
  Option, none, some, List, [], ◌∷◌, Text, text, Result, ok, err, is_empty, any, ltb, strip, ◌==◌,
  nat_eq, list_eq, Bool-cases, if◌then◌else◌,
}
use production_rag.Permissions.{Principal, ValueError}
use production_rag.Api.{Moment, App, Library, Settings, Request, lift}
use production_rag.Api.Uploads.{tenant, DocumentJob, document_job}
use production_rag.Api.Documents.{}
use production_rag.Api.Changes.{
  SameCounts, IsFor, Own, Keeps, Own-refl, Own-trans, Keeps-bind, Keeps-then, Keeps-call,
  Keeps-refuse_if, Keeps-with_refusals, Keeps-pure, Keeps-get, Keeps-change, Own-memory,
  Keeps-known, Own-rest,
}
use production_rag.MemoryStore.State.{Meta}
use production_rag.MemoryStore.Calls.{persists, checks, updates, step}
use production_rag.MemoryStore.Edits.{mark_checked}
use production_rag.MemoryStore.Isolation.{chunks_tenant}
use production_rag.MemoryStore.Uploads.{Options, persist}
use production_rag.MemoryStore.State.{Store}
use production_rag.MemoryStore.Calls.{stored}
use production_rag.Parsers.{ParsedDocument}
use production_rag.Documents.{Instant, IngestResult, PersistResult, SourceRef}
use production_rag.Chunking.{
  Segment, document_id_of, number_pieces, ingest_segments, normalize_identifier,
}
use production_rag.Api.Ingestion.{with_memory, rename_if}
use production_rag.Api.Ingestion.{
  unchanged, store_version, store_or_check, ingest_document, create_document, is_unchanged,
  persist_result, put_persisted,
}
use production_rag.Api.Writes.{some-injective, job_tenant}

unchecked :
    (b c : Bool) (e f : ValueError) (x y : Text)
    → (if b then err e else if c then err f else ok x) ≡ ok y
    → y ≡ x
unchecked true c e f x y h = cc h
unchecked false true e f x y h = cc h
unchecked false false e f x y h = sym (ok-injective h)

-- The pipeline for uploads takes the space from around a tenant's name.
abbrev pub IsTrimmed : Library → Principal → Type 0
IsTrimmed lib p = strip lib.chunking.unicode.is_space p.tenant_id ≡ p.tenant_id

lift-eq-ok : {A : Type 0} (r : Result ValueError A) (x : A) → lift r ≡ ok x → r ≡ ok x
lift-eq-ok (ok y) x h = cc h
lift-eq-ok (err e) x h = cc h

module _ {G : Type 0} (lib : Library) (s : Settings G) (t : Moment) (p : Principal) where
  ruleset keeping = (
    Keeps-bind, Keeps-then, Keeps-pure, Keeps-call, Keeps-get, Keeps-refuse_if, Keeps-with_refusals,
  )

  checked_Own :
      (job : DocumentJob) (current : Meta) (a : App G)
      → job.tenant_id ≡ p.tenant_id
      → Own p a (with_memory a (mark_checked t.now job.tenant_id current.document_id a.memory))
  unfolding step
  checked_Own job current a e =
      Own-memory p (checks t.now job.tenant_id current.document_id) a
        (λ tenant o. some-injective o e)

  rename_Own :
      (renames : Bool) (job : DocumentJob) (current : Meta) (a : App G)
      → job.tenant_id ≡ p.tenant_id
      → Own p a (with_memory a (rename_if renames t job current a.memory))
  unfolding step
  rename_Own true job current a e =
      Own-memory p
        (updates t.now job.tenant_id current.document_id job.groups none (some job.filename)) a
        (λ tenant o. some-injective o e)
  rename_Own false job current a e = Own-rest p a _ refl refl refl

  unchanged-Keeps :
      (job : DocumentJob) (current : Meta)
      → job.tenant_id ≡ p.tenant_id
      → Keeps p (unchanged {G = G} t job current)
  unfolding unchanged
  unchanged-Keeps job current e =
      Keeps-then p
        (Keeps-change p _
          (λ a.
            let b = with_memory a (mark_checked t.now job.tenant_id current.document_id a.memory) in
            Own-trans p a b _ (checked_Own job current a e)
              (rename_Own (not (job.filename == current.source)) job current b e))
          (λ a. refl))
        (Keeps-pure p _)

  number_pieces_tenant :
      (now : Instant) (document_id filename tenant_id : Text) (index : ℕ) (pieces : List Segment)
      (tenant : Text)
      → chunks_tenant (number_pieces lib.chunking now document_id filename tenant_id index pieces)
        ≡ some tenant
      → tenant ≡ tenant_id
  unfolding number_pieces
  number_pieces_tenant now document_id filename tenant_id index [] tenant h = cc h
  number_pieces_tenant now document_id filename tenant_id index (s ∷ ss) tenant h =
      some-injective h refl

  normalize_identifier_lem :
      (value field result : Text)
      → normalize_identifier lib.chunking value field ≡ ok result
      → result ≡ strip lib.chunking.unicode.is_space value
  unfolding normalize_identifier
  normalize_identifier_lem value field result h =
      let normalized = strip lib.chunking.unicode.is_space value in
      unchecked (is_empty normalized) (any (λ c. ltb c 32) normalized) _ _ normalized result h

  ingest_tenant :
      (bytes : List ℕ) (segments : List Segment) (filename tenant_id : Text)
      (identity : Option Text) (result : IngestResult) (tenant : Text)
      → ingest_segments lib.chunking s.windows t.now bytes segments filename tenant_id identity
        ≡ ok result
      → chunks_tenant result.chunks ≡ some tenant
      → tenant ≡ strip lib.chunking.unicode.is_space tenant_id
  unfolding ingest_segments normalize_identifier
  ingest_tenant bytes segments filename tenant_id identity result tenant h q =
      let (name, h1, h2) =
        >>=-eq-ok (normalize_identifier lib.chunking filename (text "filename")) _ h in
      let (own, h3, h4) =
        >>=-eq-ok (normalize_identifier lib.chunking tenant_id (text "tenant_id")) _ h2 in
      let (id, h5, h6) =
        >>=-eq-ok (document_id_of lib.chunking identity (lib.chunking.file_sha256 bytes)) _ h4 in
      let same = ap (λ (r : IngestResult). chunks_tenant r.chunks) (ok-injective h6) in
      number_pieces_tenant t.now _ _ own 0 _ tenant (same ∙ q)
      ∙ normalize_identifier_lem tenant_id (text "tenant_id") own h3

  put_persisted-Own :
      (c : Options) (result : IngestResult) (a : App G)
      → IsFor p (persists t.now result c)
      → Own p a (put_persisted lib s t a (persist t.now result c a.memory)).1
  unfolding step
  put_persisted-Own c result a own =
      cases (persist t.now result c a.memory) (Own-memory p (persists t.now result c) a own)
    where
      cases :
          (r : Result ValueError (PersistResult × Store))
          → Own p a (with_memory a (stored a.memory r))
          → Own p a (put_persisted lib s t a r).1
      cases (ok (r, memory)) o = o
      cases (err e) o = Own-refl p a

  put_persisted-SameCounts :
      (a : App G) (r : Result ValueError (PersistResult × Store))
      → SameCounts p a (put_persisted lib s t a r).1
  put_persisted-SameCounts a (ok r) = refl
  put_persisted-SameCounts a (err e) = refl

  persist_result-Keeps :
      (job : DocumentJob) (source : SourceRef) (parsed : ParsedDocument) (result : IngestResult)
      → ((tenant : Text) → chunks_tenant result.chunks ≡ some tenant → tenant ≡ p.tenant_id)
      → Keeps p (persist_result lib s t job source parsed result)
  persist_result-Keeps job source parsed result own = record {
    own = λ a. put_persisted-Own _ result a own;
    uncounted = λ a. put_persisted-SameCounts a _;
  }

  store_version-Keeps :
      (job : DocumentJob) (source : SourceRef) (bytes : List ℕ)
      → IsTrimmed lib p
      → job.tenant_id ≡ p.tenant_id
      → Keeps p (store_version lib s t job source bytes)
  unfolding store_version
  store_version-Keeps job source bytes trim e = Keeps-bind p (Keeps-call p _) (λ parsed.
      Keeps-known p
        (lift (
          ingest_segments lib.chunking s.windows t.now bytes parsed.segments job.filename
            job.tenant_id (some (source.system ++ 47 ∷ source.id))))
        (λ result h.
          let own : (tenant : Text)
              → chunks_tenant result.chunks ≡ some tenant
              → tenant ≡ p.tenant_id =
            λ tenant q.
              ingest_tenant bytes parsed.segments job.filename job.tenant_id _ result tenant
                (lift-eq-ok _ result h) q
              ∙ ap (strip lib.chunking.unicode.is_space) e
              ∙ trim in
          Keeps-then p (Keeps-call p _) (
            Keeps-bind p (persist_result-Keeps job source parsed result own)
              (λ r. Keeps-pure p _))))

  store_or_check-Keeps :
      (job : DocumentJob) (source : SourceRef) (bytes : List ℕ) (current : Option Meta)
      → IsTrimmed lib p
      → job.tenant_id ≡ p.tenant_id
      → Keeps p (store_or_check lib s t job source bytes current)
  unfolding store_or_check
  store_or_check-Keeps job source bytes none trim e = store_version-Keeps job source bytes trim e
  store_or_check-Keeps job source bytes (some current) trim e =
      elim (Bool-cases (is_unchanged source (lib.chunking.file_sha256 bytes) (some current))) [
        | inl same ↦ rw same (unchanged-Keeps job current e)
        | inr new ↦ rw new (store_version-Keeps job source bytes trim e)
      ]

  pub create_document-Keeps :
      (request : Request)
      → IsTrimmed lib p
      → request.principal ≡ some p
      → Keeps p (create_document lib s t request)
  unfolding create_document ingest_document
  create_document-Keeps request trim known =
      Keeps-bind p
        (Keeps-with_refusals p 422 (
          Keeps-known p (document_job lib request) (λ job h.
            Keeps-bind p (Keeps-call p _) (λ modified. Keeps-bind p (Keeps-call p _) (λ bytes.
              Keeps-bind p (Keeps-get p _) (λ current.
                store_or_check-Keeps job _ bytes current trim
                  (job_tenant lib s t p request job known h)))))))
        (λ d. Keeps-pure p _)
