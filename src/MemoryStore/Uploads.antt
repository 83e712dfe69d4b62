-- ===== src/MemoryStore/Uploads.antt =====
-- `InMemoryStore.persist`. Where the method writes through a list of the dictionary's own records,
-- the model rewrites the entries that the list selects.
use production_rag.Base.{
  ℕ, ◌+◌, Bool, true, false, not, ◌&&◌, Option, none, some, List, [], ◌∷◌, map, Text, text, Result,
  ok, err, ◌==◌, nat_eq, list_eq, pair_eq, length, filter, lookup, insert, update_where,
  if◌then◌else◌,
}
use production_rag.Permissions.{ValueError, value_error}
use production_rag.Documents.{Instant, Chunk, IngestResult, SourceRef, PersistResult}
use production_rag.MemoryStore.State.{
  versions, max_version, ready, is_version, values_where, is_ready, superseded, Meta, Store, Key,
}

-- What `persist` is called with beside the result.
pub record Options : Type 0 where
  pub allowed_groups : Option (List Text)
  pub groups : List Text
  pub content_type : Text
  pub source : Option SourceRef

-- `source or SourceRef(id=filename)`
abbrev pub source_or_upload : Option SourceRef → Text → SourceRef
source_or_upload none filename = record {
  system = text "upload";
  id = filename;
  version = none;
  modified_at = none;
}
source_or_upload (some source) filename = source

-- An omitted access list is inherited from the current version.
abbrev pub inherit : Option (List Text) → List Meta → List Text
inherit none [] = []
inherit none (m ∷ ms) = m.allowed_groups
inherit (some acl) ms = acl

-- What the rest of `persist` works with, once the first chunk has given tenant and filename.
pub record Upload : Type 0 where
  pub result : IngestResult
  pub tenant_id : Text
  pub filename : Text
  pub source : SourceRef
  pub groups : List Text
  pub allowed_groups : Option (List Text)
  pub content_type : Text
  pub now : Instant

abbrev pub key_of : Upload → Key
key_of u = (u.tenant_id, u.result.document_id)

abbrev pub is_sibling : Upload → Key → Meta → Bool
is_sibling u k m =
    is_version u.tenant_id u.source.system u.source.id u.groups k m
    && not (m.document_id == u.result.document_id)

abbrev pub is_ready_sibling : Upload → Key → Meta → Bool
is_ready_sibling u k m = is_sibling u k m && is_ready m.status

unfoldable pub supersede : Upload → Store → Store
supersede u s = record s {
  documents =
      update_where (is_ready_sibling u) (λ m. record m { status = superseded; updated_at = u.now })
        s.documents;
}

abbrev pub new_meta : Upload → ℕ → List Text → Meta
new_meta u version acl = record {
  document_id = u.result.document_id;
  source = u.filename;
  source_system = u.source.system;
  source_id = u.source.id;
  version = version;
  status = ready;
  content_type = u.content_type;
  content_sha256 = u.result.content_sha256;
  chunk_count = length u.result.chunks;
  allowed_groups = acl;
  source_version = u.source.version;
  source_modified_at = u.source.modified_at;
  last_checked_at = u.now;
  created_at = u.now;
  updated_at = u.now;
}

-- `existing.update(...)` of a superseded version whose bytes came again.
abbrev pub reinstate : Upload → ℕ → Meta → Meta
reinstate u version m = record m {
  status = ready;
  version = version;
  source = u.filename;
  updated_at = u.now;
  last_checked_at = u.now;
}

unfoldable pub place_version : Upload → ℕ → List Text → Option Meta → Store → Store
place_version u version acl none s = record {
  documents = insert (key_of u) (new_meta u version acl) s.documents;
  chunks = insert (key_of u) u.result.chunks s.chunks;
}
place_version u version acl (some existing) s = record s {
  documents = update_where (λ k _. k == key_of u) (reinstate u version) s.documents;
}

abbrev pub is_some {ℓ} : {A : Type ℓ} → Option A → Bool
is_some none = false
is_some (some a) = true

-- The access list of a new document: the caller's, else the current version's.
abbrev pub new_acl : Upload → Store → List Text
new_acl u s =
    inherit u.allowed_groups (
      filter (λ m. is_ready m.status) (versions s u.tenant_id u.source.system u.source.id u.groups))

abbrev pub next_version : Upload → Store → ℕ
next_version u s = max_version (values_where (is_sibling u) s.documents) + 1

-- The branch of `persist` that makes a version current.
unfoldable pub new_version : Upload → Option Meta → Store → PersistResult × Store
unfolding supersede place_version
new_version u existing s = (
  record {
    document_id = u.result.document_id;
    chunks_written = if is_some existing then 0 else length u.result.chunks;
    already_existed = is_some existing;
    version = next_version u s;
    superseded = map (λ m. m.document_id) (values_where (is_ready_sibling u) s.documents);
  },
  place_version u (next_version u s) (new_acl u s) existing (supersede u s),
)

-- The branch that finds the very document already current.
unfoldable pub recheck : Upload → Meta → Store → PersistResult × Store
recheck u existing s = (
  record {
    document_id = u.result.document_id;
    chunks_written = 0;
    already_existed = true;
    version = existing.version;
    superseded = [];
  },
  record s {
    documents =
        update_where (λ k _. k == key_of u) (λ m. record m { last_checked_at = u.now }) s.documents;
  },
)

unfoldable pub store_upload : Upload → Option Meta → Store → PersistResult × Store
store_upload u none s = new_version u none s
store_upload u (some existing) s =
    if is_ready existing.status then recheck u existing s else new_version u (some existing) s

abbrev pub upload_of : Instant → IngestResult → Chunk → Options → Upload
upload_of now result first o = record {
  result = result;
  tenant_id = first.tenant_id;
  filename = first.source;
  source = source_or_upload o.source first.source;
  groups = o.groups;
  allowed_groups = o.allowed_groups;
  content_type = o.content_type;
  now = now;
}

unfoldable pub persist_chunks :
    Instant
    → IngestResult
    → Options
    → Store
    → List Chunk
    → Result ValueError (PersistResult × Store)
persist_chunks now result o s [] =
    err (value_error (text "cannot persist an ingestion result with no chunks"))
persist_chunks now result o s (first ∷ rest) =
    let u = upload_of now result first o in ok (store_upload u (lookup (key_of u) s.documents) s)

unfoldable pub persist :
    Instant → IngestResult → Options → Store → Result ValueError (PersistResult × Store)
unfolding persist_chunks
persist now result o s = persist_chunks now result o s result.chunks
