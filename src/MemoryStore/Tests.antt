-- ===== src/MemoryStore/Tests.antt =====
-- A handbook that tenant "acme" uploads twice, and what can be read and changed then.
use production_rag.Base.{
  true, false, ◌≡◌, refl, ◌↔◌, ◌⊎◌, Option, none, some, List, [], ◌∷◌, arith, Text, text, ok,
  nat_eq, list_eq, pair_eq, ◌==◌, lookup, insert, update_where, list_beq, In, if◌then◌else◌,
}
use production_rag.Permissions.{can_read_groups, Principal}
use production_rag.Documents.{Chunk, IngestResult, PersistResult}
use production_rag.MemoryStore.State.{Key, Meta, Store, new_store}
use production_rag.MemoryStore.Uploads.{
  Options, upload_of, persist, supersede, place_version, new_version, recheck, store_upload,
}
use production_rag.MemoryStore.Edits.{mark_checked, update_document, delete_document}
use production_rag.MemoryStore.Reads.{
  readable_chunks, current_version, collect_chunks, get_document,
}
use production_rag.MemoryStore.Calls.{Call, persists, step, run}
use production_rag.MemoryStore.Consistent.{IsConsistent, run-new_store-IsConsistent}
use production_rag.MemoryStore.Readable.{IsEvidence, readable_chunks_exact}
use production_rag.MemoryStore.Isolation.{AgreeAt, step-AgreeAt}
use production_rag.MemoryStore.Currency.{IsCurrent, persist-IsCurrent, kept_acl}
use production_rag.MemoryStore.Repeats.{persist_again, persist_acl, requested}
use production_rag.MemoryStore.Versions.{CanSee}
use production_rag.MemoryStore.Access.{
  Deleted, Edited, update_document_exact, delete_document_exact,
}

abbrev chunk : Text → Text → Chunk
chunk document_id words = record {
  text = words;
  document_id = document_id;
  index = 0;
  tenant_id = text "acme";
  source = text "handbook.txt";
  id = text "c";
  created_at = 1;
  page = none;
}

abbrev ingested : Text → Text → IngestResult
ingested document_id words = record {
  document_id = document_id;
  content_sha256 = document_id;
  chunks = chunk document_id words ∷ [];
}

-- An upload with an access list of its own, or with none.
abbrev options : Option (List Text) → Options
options acl = record {
  allowed_groups = acl;
  groups = text "hr" ∷ [];
  content_type = text "text/plain";
  source = none;
}

abbrev first_upload : Call
first_upload =
    persists 1 (ingested (text "d1") (text "thirty days")) (options (some (text "hr" ∷ [])))

abbrev second_upload : Call
second_upload = persists 2 (ingested (text "d2") (text "ten days")) (options none)

-- The store after the first upload, and after both.
abbrev one : Store
one = run new_store (first_upload ∷ [])

abbrev two : Store
two = run new_store (first_upload ∷ second_upload ∷ [])

abbrev key_of_doc : Text → Key
key_of_doc document_id = (text "acme", document_id)

abbrev alice : Principal
alice = record { tenant_id = text "acme"; user_id = text "alice"; groups = text "hr" ∷ [] }

abbrev bob : Principal
bob = record { tenant_id = text "acme"; user_id = text "bob"; groups = [] }

program : Unit {0}
unfolding run step persist store_upload new_version supersede place_version recheck lookup insert
    update_where list_beq readable_chunks collect_chunks delete_document update_document
    mark_checked get_document can_read_groups
program = tt

-- Only the second version is read, and only by someone in the group.
reads :
    (readable_chunks two alice ≡ some (chunk (text "d2") (text "ten days") ∷ []))
    × (readable_chunks two bob ≡ some [])
unfolding program
reads = (refl, refl)

run-new_store-IsConsistent_example : IsConsistent two
run-new_store-IsConsistent_example = run-new_store-IsConsistent (first_upload ∷ second_upload ∷ [])

readable_chunks_exact_example :
    (cs : List Chunk) × (readable_chunks two alice ≡ some cs)
    × ((c : Chunk) → In c cs ↔ IsEvidence two alice c)
readable_chunks_exact_example =
    readable_chunks_exact two alice (run-new_store-IsConsistent (first_upload ∷ second_upload ∷ []))

step-AgreeAt_example : AgreeAt (text "umbrella", text "d1") one (step one second_upload)
step-AgreeAt_example =
    step-AgreeAt one second_upload (text "umbrella", text "d1") (λ e. ground (arith, e))

persist-IsCurrent_example :
    (r : PersistResult) × (s' : Store) × (persist 2
        (ingested (text "d2") (text "ten days"))
        (options none)
        one
      ≡ ok (r, s'))
    × IsCurrent
        (upload_of 2
          (ingested (text "d2") (text "ten days"))
          (chunk (text "d2") (text "ten days"))
          (options none))
        r
        one
        s'
unfolding program
persist-IsCurrent_example =
    persist-IsCurrent 2 (ingested (text "d2") (text "ten days")) (options none) one
      (chunk (text "d2") (text "ten days")) [] refl (run-new_store-IsConsistent (first_upload ∷ []))
      (λ m e. cc e)

persist_again_example :
    (r : PersistResult) × (s' s'' : Store) × (persist 2
        (ingested (text "d2") (text "ten days"))
        (options none)
        one
      ≡ ok (r, s'))
    × (persist 3 (ingested (text "d2") (text "ten days")) (options none) s'
        ≡ ok (record r { chunks_written = 0; already_existed = true; superseded = [] }, s''))
    × (s''.chunks ≡ s'.chunks)
    × ((k : Key) (m : Meta)
        → lookup k s'.documents ≡ some m
        → lookup k s''.documents
          ≡ some (if k == key_of_doc (text "d2") then record m { last_checked_at = 3 } else m))
persist_again_example =
    persist_again 2 (ingested (text "d2") (text "ten days")) (options none) one
      (chunk (text "d2") (text "ten days")) [] refl 3 (options none)

-- The superseded first version comes again, with another access list.
persist_acl_example :
    (r : PersistResult) × (s' : Store) × (placed : Meta) × (persist 3
        (ingested (text "d1") (text "thirty days"))
        (options (some []))
        two
      ≡ ok (r, s'))
    × (lookup (key_of_doc (text "d1")) s'.documents ≡ some placed)
    × (placed.allowed_groups
        ≡ kept_acl (lookup (key_of_doc (text "d1")) two.documents) (
            requested (some []) (
              current_version two
                (text "acme")
                (upload_of 3
                  (ingested (text "d1") (text "thirty days"))
                  (chunk (text "d1") (text "thirty days"))
                  (options (some []))).source
                (text "hr" ∷ []))))
persist_acl_example =
    persist_acl 3 (ingested (text "d1") (text "thirty days")) (options (some [])) two
      (chunk (text "d1") (text "thirty days")) [] refl

delete_document_exact_example :
    ((m : Meta) × (s' : Store) × CanSee two (key_of_doc (text "d1")) (text "hr" ∷ []) m
      × (delete_document (text "acme") (text "d1") (text "hr" ∷ []) two ≡ (true, s'))
      × Deleted (key_of_doc (text "d1")) two s')
    ⊎ (((m : Meta) → ¬ CanSee two (key_of_doc (text "d1")) (text "hr" ∷ []) m)
        × (delete_document (text "acme") (text "d1") (text "hr" ∷ []) two ≡ (false, two)))
delete_document_exact_example = delete_document_exact (text "acme") (text "d1") (text "hr" ∷ []) two

update_document_exact_example :
    ((m : Meta) × (s' : Store) × (row : Option Meta) × CanSee two
        (key_of_doc (text "d1"))
        (text "hr" ∷ [])
        m
      × (update_document 4 (text "acme") (text "d1") (text "hr" ∷ []) (some []) none two
          ≡ ((true, row), s'))
      × (row ≡ get_document s' (text "acme") (text "d1") (text "hr" ∷ []))
      × Edited 4 (text "acme") m (text "hr" ∷ []) (some []) none two s')
    ⊎ (((m : Meta) → ¬ CanSee two (key_of_doc (text "d1")) (text "hr" ∷ []) m)
        × (update_document 4 (text "acme") (text "d1") (text "hr" ∷ []) (some []) none two
            ≡ ((false, none), two)))
update_document_exact_example =
    update_document_exact (text "acme") (text "d1") (text "hr" ∷ []) two 4 (some []) none
