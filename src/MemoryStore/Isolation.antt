-- ===== src/MemoryStore/Isolation.antt =====
-- No call of one tenant touches a document or a chunk of another.
use production_rag.Base.{
  lookup-update_untouched, inr, ap, ℕ, ◌∙◌, inl, false, ◌≡◌, refl, ◌≢◌, Option, none, some, List,
  [], ◌∷◌, arith, Text, eq_iff, nat_eq, list_eq, pair_eq, ◌==◌, lookup, lookup-insert,
  lookup-remove, Option-cases, Bool-cases,
}
use production_rag.Documents.{Chunk, Instant, IngestResult}
use production_rag.MemoryStore.State.{Key, Meta, Store, is_ready, if_visible}
use production_rag.MemoryStore.Uploads.{
  Upload, Options, key_of, next_version, new_acl, supersede, place_version, new_version, recheck,
  store_upload, new_meta, upload_of, persist, persist_chunks,
}
use production_rag.MemoryStore.Edits.{mark_checked, update_document, delete_document}
use production_rag.MemoryStore.Calls.{Call, persists, checks, updates, deletes, stored, step}

abbrev pub chunks_tenant : List Chunk → Option Text
chunks_tenant [] = none
chunks_tenant (first ∷ rest) = some first.tenant_id

-- The tenant for whom a call is made: that of the first chunk, for an upload.
abbrev pub tenant_of : Call → Option Text
tenant_of (persists now result o) = chunks_tenant result.chunks
tenant_of (checks now tenant document_id) = some tenant
tenant_of (updates now tenant document_id groups acl name) = some tenant
tenant_of (deletes tenant document_id groups) = some tenant

-- The two stores hold the same under a key.
abbrev pub AgreeAt : Key → Store → Store → Type 0
AgreeAt k s t =
    (lookup k t.documents ≡ lookup k s.documents) × (lookup k t.chunks ≡ lookup k s.chunks)

module _ (k : Key) (u : Upload) (other : k.0 ≢ u.tenant_id) where
  supersede_elsewhere : (s : Store) → AgreeAt k s (supersede u s)
  unfolding supersede
  supersede_elsewhere s = (
    lookup-update_untouched _ _ k s.documents (λ m. ground (arith, eq_iff k.0 u.tenant_id)),
    refl,
  )

  key_elsewhere : (key_of u == k) ≡ false
  key_elsewhere = ground (arith, eq_iff u.tenant_id k.0)

  place_version_elsewhere :
      (version : ℕ) (acl : List Text) (existing : Option Meta) (s : Store)
      → AgreeAt k s (place_version u version acl existing s)
  unfolding place_version
  place_version_elsewhere version acl none s = (
    ground (arith, lookup-insert (key_of u) k (new_meta u version acl) s.documents, key_elsewhere),
    ground (arith, lookup-insert (key_of u) k u.result.chunks s.chunks, key_elsewhere),
  )
  place_version_elsewhere version acl (some m) s = (
    lookup-update_untouched _ _ k s.documents (λ m. ground (arith, eq_iff k.0 u.tenant_id)),
    refl,
  )

  new_version_elsewhere :
      (existing : Option Meta) (s : Store) → AgreeAt k s (new_version u existing s).1
  unfolding new_version
  new_version_elsewhere existing s =
      let (d, c) = supersede_elsewhere s in
      let (d', c') =
        place_version_elsewhere (next_version u s) (new_acl u s) existing (supersede u s) in
      (d' ∙ d, c' ∙ c)

  store_upload_elsewhere :
      (existing : Option Meta) (s : Store) → AgreeAt k s (store_upload u existing s).1
  unfolding store_upload recheck
  store_upload_elsewhere none s = new_version_elsewhere none s
  store_upload_elsewhere (some m) s = elim (Bool-cases (is_ready m.status)) [
    | inl current ↦ rw current (
      lookup-update_untouched _ _ k s.documents (λ m. ground (arith, eq_iff k.0 u.tenant_id)),
      refl,
    )
    | inr old ↦ rw old (new_version_elsewhere (some m) s)
  ]

persist_elsewhere :
    (now : Instant) (result : IngestResult) (o : Options) (s : Store) (k : Key) (cs : List Chunk)
    → some k.0 ≢ chunks_tenant cs
    → AgreeAt k s (stored s (persist_chunks now result o s cs))
unfolding persist_chunks
persist_elsewhere now result o s k [] other = (refl, refl)
persist_elsewhere now result o s k (first ∷ rest) other =
    let u = upload_of now result first o in
    store_upload_elsewhere k u (λ e. other (ap some e)) (lookup (key_of u) s.documents) s

module _ (k : Key) (tenant document_id : Text) (groups : List Text) (other : k.0 ≢ tenant) where
  update_elsewhere :
      (now : Instant) (acl : Option (List Text)) (name : Option Text) (s : Store)
      → AgreeAt k s (update_document now tenant document_id groups acl name s).1
  unfolding update_document
  update_elsewhere now acl name s =
      elim (Option-cases (if_visible groups (lookup (tenant, document_id) s.documents))) [
        | inl hidden ↦ rw (hidden, update_document) (refl, refl)
        | inr (m, seen) ↦
            rw (seen, update_document)
              (
                lookup-update_untouched _ _ k s.documents (λ m. ground (arith, eq_iff k.0 tenant)),
                refl,
              )
      ]

  delete_elsewhere : (s : Store) → AgreeAt k s (delete_document tenant document_id groups s).1
  unfolding delete_document
  delete_elsewhere s =
      elim (Option-cases (if_visible groups (lookup (tenant, document_id) s.documents))) [
        | inl hidden ↦ rw (hidden, delete_document) (refl, refl)
        | inr (m, seen) ↦
            rw (seen, delete_document)
              (
                ground
                    (arith, lookup-remove (tenant, document_id) k s.documents, eq_iff tenant k.0),
                ground (arith, lookup-remove (tenant, document_id) k s.chunks, eq_iff tenant k.0),
              )
      ]

-- A call leaves every document, and the chunks of every document, of any other tenant as they were.
pub step-AgreeAt :
    (s : Store) (c : Call) (k : Key) → some k.0 ≢ tenant_of c → AgreeAt k s (step s c)
unfolding step persist mark_checked
step-AgreeAt s (persists now result o) k other =
    persist_elsewhere now result o s k result.chunks other
step-AgreeAt s (checks now tenant document_id) k other =
    (lookup-update_untouched _ _ k s.documents (λ m. ground (arith, eq_iff k.0 tenant)), refl)
step-AgreeAt s (updates now tenant document_id groups acl name) k other =
    update_elsewhere k tenant document_id groups (λ e. other (ap some e)) now acl name s
step-AgreeAt s (deletes tenant document_id groups) k other =
    delete_elsewhere k tenant document_id groups (λ e. other (ap some e)) s
