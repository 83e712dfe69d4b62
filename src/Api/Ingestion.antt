-- ===== src/Api/Ingestion.antt =====
-- `_ingest_document`, `_unchanged` and `_create_document`: an upload, from its bytes to the store.
use production_rag.Base.{
  ℕ, Bool, true, false, not, ◌||◌, Option, none, some, List, [], ◌∷◌, ◌++◌, Text, text, Result, ok,
  err, ◌==◌, nat_eq, list_eq, if◌then◌else◌, is_empty,
}
use production_rag.Json.{Json, null, boolean, number, string, array, object, end, none_left}
use production_rag.Permissions.{ValueError, value_error}
use production_rag.Documents.{Instant, IngestResult, SourceRef, PersistResult}
use production_rag.MemoryStore.State.{Meta, Store}
use production_rag.MemoryStore.Uploads.{persist}
use production_rag.MemoryStore.Edits.{mark_checked, update_document}
use production_rag.MemoryStore.Reads.{current_version}
use production_rag.Chunking.{ingest_segments}
use production_rag.Parsers.{ParsedDocument, name_of, parse}
use production_rag.Api.{
  Exception, bad_value, unexpected, Moment, App, Library, Settings, Stored, Request, Response,
  stored, Act, ◌>>=◌, ◌>>◌, pure, call, get, change, lift, with_refusals,
}
use production_rag.Api.Uploads.{DocumentJob, document_job}

-- The store, as the state of a handler.
abbrev pub with_memory : {G : Type 0} → App G → Store → App G
with_memory a s = record a { memory = s }

abbrev pub rename_if : Bool → Moment → DocumentJob → Meta → Store → Store
rename_if true t job current s =
    (update_document t.now job.tenant_id current.document_id job.groups none (some job.filename)
      s).1
rename_if false t job current s = s

abbrev pub checked_store : Moment → DocumentJob → Meta → Store → Store
checked_store t job current s =
    rename_if (not (job.filename == current.source)) t job current
      (mark_checked t.now job.tenant_id current.document_id s)

abbrev pub same_version : Meta → Stored
same_version current = record {
  document_id = current.document_id;
  source_system = current.source_system;
  source_id = current.source_id;
  content_sha256 = current.content_sha256;
  content_type = current.content_type;
  version = current.version;
  superseded = [];
  chunks_created = 0;
  already_existed = true;
  unchanged = true;
}

unfoldable pub unchanged : {G : Type 0} → Moment → DocumentJob → Meta → Act G Stored
unchanged t job current = do
  change (λ a. with_memory a (checked_store t job current a.memory))
  pure (same_version current)

-- `source.version is not None and current["source_version"] == source.version`
abbrev pub same_marker : Option Text → Option Text → Bool
same_marker none known = false
same_marker (some v) none = false
same_marker (some v) (some known) = known == v

-- The test that nothing has to be parsed or embedded.
abbrev pub is_unchanged : SourceRef → Text → Option Meta → Bool
is_unchanged source digest none = false
is_unchanged source digest (some current) =
    same_marker source.version current.source_version || current.content_sha256 == digest

abbrev pub or_filename : Text → Text → Text
or_filename [] filename = filename
or_filename (c ∷ s) filename = c ∷ s

abbrev pub has_chunks : IngestResult → Bool
has_chunks r = not (is_empty r.chunks)

module _ {G : Type 0} (lib : Library) (s : Settings G) (t : Moment) where
  abbrev pub is_truthy : Json → Bool
  is_truthy null = false
  is_truthy (boolean b) = b
  is_truthy (number n) = not (lib.is_zero n)
  is_truthy (string []) = false
  is_truthy (array end) = false
  is_truthy (object none_left) = false
  is_truthy j = true

  -- `fromisoformat` raises a `TypeError` on what is not a text.
  abbrev pub read_instant : Json → Result Exception (Option Instant)
  read_instant (string i) = some_instant (lib.fromisoformat i)
    where
      some_instant : Result ValueError Instant → Result Exception (Option Instant)
      some_instant (ok i) = ok (some i)
      some_instant (err e) = err (bad_value e)
  read_instant j = err unexpected

  -- `datetime.fromisoformat(modified) if modified else None`
  abbrev pub modified_at : Option Json → Result Exception (Option Instant)
  modified_at none = ok none
  modified_at (some j) = if is_truthy j then read_instant j else ok none

  abbrev pub source_ref : DocumentJob → Option Instant → SourceRef
  source_ref job modified = record {
    system = job.source.source_system;
    id = or_filename job.source.source_id job.filename;
    version = job.source.source_version;
    modified_at = modified;
  }

  abbrev pub new_stored : SourceRef → ParsedDocument → IngestResult → PersistResult → Stored
  new_stored source parsed result r = record {
    document_id = r.document_id;
    source_system = source.system;
    source_id = source.id;
    content_sha256 = result.content_sha256;
    content_type = name_of parsed.content_type;
    version = r.version;
    superseded = r.superseded;
    chunks_created = r.chunks_written;
    already_existed = r.already_existed;
    unchanged = false;
  }

  abbrev pub put_persisted :
      App G → Result ValueError (PersistResult × Store) → Result Exception PersistResult × App G
  put_persisted a (ok (r, memory)) = (ok r, with_memory a memory)
  put_persisted a (err e) = (err (bad_value e), a)

  abbrev pub persist_result :
      DocumentJob → SourceRef → ParsedDocument → IngestResult → Act G PersistResult
  persist_result job source parsed result a = put_persisted a (
      persist t.now result
        (record {
          allowed_groups = job.allowed_groups;
          groups = job.groups;
          content_type = name_of parsed.content_type;
          source = some source;
        })
        a.memory)

  abbrev pub require_chunks : IngestResult → Result Exception IngestResult
  require_chunks result =
      if has_chunks result
      then ok result
      else err (bad_value (value_error (text "document has no text to index")))

  -- The bytes are new: they are parsed, cut into chunks and stored.
  unfoldable pub store_version : DocumentJob → SourceRef → List ℕ → Act G Stored
  store_version job source bytes = do
    parsed ← call (lift (parse lib.parsing bytes job.filename job.content_type))
    result ← call (
        lift (
          ingest_segments lib.chunking s.windows t.now bytes parsed.segments job.filename
            job.tenant_id (some (source.system ++ 47 ∷ source.id))))
    call (require_chunks result)
    r ← persist_result job source parsed result
    pure (new_stored source parsed result r)

  unfoldable pub store_or_check : DocumentJob → SourceRef → List ℕ → Option Meta → Act G Stored
  unfolding store_version unchanged
  store_or_check job source bytes none = store_version job source bytes
  store_or_check job source bytes (some current) =
      if is_unchanged source (lib.chunking.file_sha256 bytes) (some current)
      then unchanged t job current
      else store_version job source bytes

  unfoldable pub ingest_document : DocumentJob → Act G Stored
  unfolding store_or_check
  ingest_document job = do
    modified ← call (modified_at job.source.source_modified_at)
    let source = source_ref job modified
    bytes ← call (lift (lib.b64decode false job.content_base64))
    current ← get (λ a. current_version a.memory job.tenant_id source job.groups)
    store_or_check job source bytes current

  abbrev pub create : Request → Act G Stored
  create request = do job ← call (document_job lib request); ingest_document job

  -- Its status: 201 for a new document, 200 for one that was there.
  abbrev pub created : Stored → Response
  created d = (if d.already_existed then 200 else 201, stored d)

  unfoldable pub create_document : Request → Act G Response
  unfolding ingest_document
  create_document request = do d ← with_refusals 422 (create request); pure (created d)
