-- ===== src/MemoryStore/Consistent.antt =====
-- Every document has its chunks, under one key that holds its own id, whatever was called.
use production_rag.Base.{
  Option-cases, ℕ, inr, inl, update_where-lookup, Bool-cases, Bool, ◌≡◌, refl, Option, none, some,
  List, [], ◌∷◌, arith, Text, ◌==◌, eq_iff, nat_eq, list_eq, pair_eq, lookup, insert, remove,
  update_where, lookup-insert, lookup-remove, keys, keys-update_where, keys-insert-Distinct,
  keys-remove-Distinct, Distinct, length,
}
use production_rag.Documents.{IngestResult, Instant, Chunk}
use production_rag.MemoryStore.State.{if_visible, is_ready, Key, Meta, Store, new_store}
use production_rag.MemoryStore.Uploads.{
  new_acl, upload_of, persist_chunks, next_version, Options, Upload, key_of, supersede,
  place_version, new_version, recheck, store_upload, persist, new_meta, reinstate,
}
use production_rag.MemoryStore.Edits.{edit, mark_checked, update_document, delete_document}
use production_rag.MemoryStore.Calls.{stored, Call, persists, checks, updates, deletes, step, run}

-- The chunks kept for a document are as many as it says.
abbrev pub HasChunks : Meta → Option (List Chunk) → Type 0
HasChunks m none = ⊥
HasChunks m (some cs) = m.chunk_count ≡ length cs

pub record IsConsistent (s : Store) : Type 0 where
  pub unique : Distinct (keys s.documents)
  pub named : (k : Key) (m : Meta) → lookup k s.documents ≡ some m → m.document_id ≡ k.1
  pub backed :
      (k : Key) (m : Meta) → lookup k s.documents ≡ some m → HasChunks m (lookup k s.chunks)

-- A rewrite of records that keeps their id and their number of chunks.
abbrev KeepsBody : (Meta → Meta) → Type 0
KeepsBody f = (m : Meta) → ((f m).document_id ≡ m.document_id) × ((f m).chunk_count ≡ m.chunk_count)

HasChunks-of_count :
    (w m : Meta) (cs : Option (List Chunk))
    → m.chunk_count ≡ w.chunk_count
    → HasChunks w cs
    → HasChunks m cs
HasChunks-of_count w m none e h = h
HasChunks-of_count w m (some cs) e h = omega arith

rewrite-IsConsistent :
    (p : Key → Meta → Bool) (f : Meta → Meta) (s : Store)
    → KeepsBody f
    → IsConsistent s
    → IsConsistent (record s { documents = update_where p f s.documents })
rewrite-IsConsistent p f s b c = record {
  unique = rw (keys-update_where p f s.documents) c.unique;
  named = λ k m e.
      let (w, there, same) = update_where-lookup p f k s.documents m e in
      ground (arith, c.named k w there, b w);
  backed = λ k m e.
      let (w, there, same) = update_where-lookup p f k s.documents m e in
      HasChunks-of_count w m (lookup k s.chunks) (ground (arith, b w)) (c.backed k w there);
}

insert-IsConsistent :
    (k : Key) (m : Meta) (cs : List Chunk) (s : Store)
    → m.document_id ≡ k.1
    → m.chunk_count ≡ length cs
    → IsConsistent s
    → IsConsistent (record { documents = insert k m s.documents; chunks = insert k cs s.chunks })
insert-IsConsistent k m cs s id count c = record {
  unique = keys-insert-Distinct k m s.documents c.unique;
  named = λ j w e. elim (Bool-cases (k == j)) [
    | inl same ↦ ground (arith, lookup-insert k j m s.documents, eq_iff k j)
    | inr other ↦ ground (arith, lookup-insert k j m s.documents, c.named j w)
  ];
  backed = λ j w e. elim (Bool-cases (k == j)) [
    | inl same ↦
        rw (lookup-insert k j cs s.chunks, same) (ground (arith, lookup-insert k j m s.documents))
    | inr other ↦
        rw (lookup-insert k j cs s.chunks, other)
          (c.backed j w (ground (arith, lookup-insert k j m s.documents)))
  ];
}

remove-IsConsistent :
    (k : Key) (s : Store)
    → IsConsistent s
    → IsConsistent (record { documents = remove k s.documents; chunks = remove k s.chunks })
remove-IsConsistent k s c = record {
  unique = keys-remove-Distinct k s.documents c.unique;
  named = λ j w e. ground (arith, lookup-remove k j s.documents, c.named j w);
  backed = λ j w e. elim (Bool-cases (k == j)) [
    | inl same ↦ absurd (ground (arith, lookup-remove k j s.documents))
    | inr other ↦
        rw (lookup-remove k j s.chunks, other)
          (c.backed j w (ground (arith, lookup-remove k j s.documents)))
  ];
}

supersede-IsConsistent : (u : Upload) (s : Store) → IsConsistent s → IsConsistent (supersede u s)
unfolding supersede
supersede-IsConsistent u s = rewrite-IsConsistent _ _ s (λ m. (refl, refl))

place_version-IsConsistent :
    (u : Upload) (version : ℕ) (acl : List Text) (existing : Option Meta) (s : Store)
    → IsConsistent s
    → IsConsistent (place_version u version acl existing s)
unfolding place_version
place_version-IsConsistent u version acl none s =
    insert-IsConsistent (key_of u) (new_meta u version acl) u.result.chunks s refl refl
place_version-IsConsistent u version acl (some m) s =
    rewrite-IsConsistent _ (reinstate u version) s (λ m. (refl, refl))

store_upload-IsConsistent :
    (u : Upload) (existing : Option Meta) (s : Store)
    → IsConsistent s
    → IsConsistent (store_upload u existing s).1
unfolding store_upload new_version recheck
store_upload-IsConsistent u none s c =
    place_version-IsConsistent u (next_version u s) (new_acl u s) none (supersede u s)
      (supersede-IsConsistent u s c)
store_upload-IsConsistent u (some m) s c = elim (Bool-cases (is_ready m.status)) [
  | inl current ↦ rw current (rewrite-IsConsistent _ _ s (λ m. (refl, refl)) c)
  | inr old ↦ rw old (
      place_version-IsConsistent u (next_version u s) (new_acl u s) (some m) (supersede u s)
        (supersede-IsConsistent u s c))
]

persist-IsConsistent :
    (now : Instant) (result : IngestResult) (o : Options) (s : Store)
    → IsConsistent s
    → IsConsistent (stored s (persist now result o s))
unfolding persist
persist-IsConsistent now result o s c = by_chunks result.chunks
  where
    by_chunks : (cs : List Chunk) → IsConsistent (stored s (persist_chunks now result o s cs))
    by_chunks [] = c
    by_chunks (first ∷ rest) =
        let u = upload_of now result first o in
        store_upload-IsConsistent u (lookup (key_of u) s.documents) s c

edit-KeepsBody :
    (now : Instant) (acl : Option (List Text)) (name : Option Text) → KeepsBody (edit now acl name)
edit-KeepsBody now none none m = (refl, refl)
edit-KeepsBody now none (some n) m = (refl, refl)
edit-KeepsBody now (some a) none m = (refl, refl)
edit-KeepsBody now (some a) (some n) m = (refl, refl)

update_document-IsConsistent :
    (now : Instant) (tenant document_id : Text) (groups : List Text) (acl : Option (List Text))
    (name : Option Text) (s : Store)
    → IsConsistent s
    → IsConsistent (update_document now tenant document_id groups acl name s).1
unfolding update_document
update_document-IsConsistent now tenant document_id groups acl name s c =
    elim (Option-cases (if_visible groups (lookup (tenant, document_id) s.documents))) [
      | inl hidden ↦ rw (hidden, update_document) c
      | inr (m, seen) ↦
          rw (seen, update_document) (rewrite-IsConsistent _ _ s (edit-KeepsBody now acl name) c)
    ]

delete_document-IsConsistent :
    (tenant document_id : Text) (groups : List Text) (s : Store)
    → IsConsistent s
    → IsConsistent (delete_document tenant document_id groups s).1
unfolding delete_document
delete_document-IsConsistent tenant document_id groups s c =
    elim (Option-cases (if_visible groups (lookup (tenant, document_id) s.documents))) [
      | inl hidden ↦ rw (hidden, delete_document) c
      | inr (m, seen) ↦ rw (seen, delete_document) (remove-IsConsistent (tenant, document_id) s c)
    ]

-- Every call that writes keeps the store consistent, also one that raises.
pub step-IsConsistent : (s : Store) (c : Call) → IsConsistent s → IsConsistent (step s c)
unfolding step
step-IsConsistent s (persists now result o) = persist-IsConsistent now result o s
step-IsConsistent s (checks now tenant document_id) =
    unfold mark_checked in rewrite-IsConsistent _ _ s (λ m. (refl, refl))
step-IsConsistent s (updates now tenant document_id groups acl name) =
    update_document-IsConsistent now tenant document_id groups acl name s
step-IsConsistent s (deletes tenant document_id groups) =
    delete_document-IsConsistent tenant document_id groups s

run-IsConsistent : (s : Store) (cs : List Call) → IsConsistent s → IsConsistent (run s cs)
unfolding run
run-IsConsistent s [] c = c
run-IsConsistent s (call ∷ cs) c = run-IsConsistent (step s call) cs (step-IsConsistent s call c)

-- A new store is consistent after every sequence of calls.
pub run-new_store-IsConsistent : (cs : List Call) → IsConsistent (run new_store cs)
run-new_store-IsConsistent cs = run-IsConsistent new_store cs (record {
  unique = tt;
  named = λ k m e. unfold lookup in cc e;
  backed = λ k m e. unfold lookup in cc e;
})
