-- ===== src/MemoryStore/Reads.antt =====
-- `InMemoryStore.current_version`, `list_documents`, `get_document` and `readable_chunks`.
use production_rag.Base.{
  text_leb, eqb, sort, ltb, ◌++◌, Bool, ◌&&◌, ◌||◌, Option, none, some, List, [], ◌∷◌, Text, ◌==◌,
  nat_eq, list_eq, pair_eq, Dict, lookup, if◌then◌else◌,
}
use production_rag.Permissions.{can_read_groups, Principal}
use production_rag.Documents.{Chunk, SourceRef}
use production_rag.MemoryStore.State.{
  values_where, versions, is_ready, visible, if_visible, Meta, Store, Key,
}

abbrev pub first_ready : List Meta → Option Meta
first_ready [] = none
first_ready (m ∷ ms) = if is_ready m.status then some m else first_ready ms

unfoldable pub current_version : Store → Text → SourceRef → List Text → Option Meta
current_version s tenant source groups =
    first_ready (versions s tenant source.system source.id groups)

-- `sorted(rows, key=(created_at, document_id), reverse=True)` puts `x` before `y`.
abbrev pub newer_first : Meta → Meta → Bool
newer_first x y =
    ltb y.created_at x.created_at
    || (eqb y.created_at x.created_at && text_leb y.document_id x.document_id)

abbrev pub is_listed : Text → List Text → Bool → Key → Meta → Bool
is_listed tenant groups include_superseded (owner, _) m =
    owner == tenant && visible m groups && (include_superseded || is_ready m.status)

unfoldable pub list_documents : Store → Text → List Text → Bool → List Meta
list_documents s tenant groups include_superseded =
    sort newer_first (values_where (is_listed tenant groups include_superseded) s.documents)

unfoldable pub get_document : Store → Text → Text → List Text → Option Meta
get_document s tenant document_id groups =
    if_visible groups (lookup (tenant, document_id) s.documents)

abbrev pub renamed : Chunk → Text → Chunk
renamed chunk source = if chunk.source == source then chunk else record chunk { source = source }

-- The test of the comprehension in `readable_chunks`.
abbrev pub is_readable : Principal → Key → Meta → Bool
is_readable p (owner, _) m =
    owner == p.tenant_id && is_ready m.status && can_read_groups (some m.allowed_groups) p

abbrev pub renamed_all : Text → List Chunk → List Chunk
renamed_all source [] = []
renamed_all source (c ∷ cs) = renamed c source ∷ renamed_all source cs

-- `self._chunks[key]`; `none` is the `KeyError` of a document with no chunks.
abbrev pub prepend_chunks : Text → Option (List Chunk) → Option (List Chunk) → Option (List Chunk)
prepend_chunks source (some cs) (some rest) = some (renamed_all source cs ++ rest)
prepend_chunks source _ _ = none

unfoldable pub collect_chunks :
    Principal → Dict Key (List Chunk) → Dict Key Meta → Option (List Chunk)
collect_chunks p chunks [] = some []
collect_chunks p chunks ((k, m) ∷ d) =
    let rest = collect_chunks p chunks d in
    if is_readable p k m then prepend_chunks m.source (lookup k chunks) rest else rest

unfoldable pub readable_chunks : Store → Principal → Option (List Chunk)
unfolding collect_chunks
readable_chunks s p = collect_chunks p s.chunks s.documents
