-- ===== src/MemoryStore/Repeats.antt =====
-- The same document again, and whose access list an uploaded document has.
use production_rag.Base.{
  sym, ◌∙◌, ap, true, ◌≡◌, refl, Option, none, some, List, [], ◌∷◌, arith, Text, eq_refl, nat_eq,
  list_eq, pair_eq, ◌==◌, lookup, lookup-update_where, ok, if◌then◌else◌, filter,
}
use production_rag.Documents.{Instant, Chunk, IngestResult, PersistResult}
use production_rag.MemoryStore.State.{
  Status, Key, Meta, Store, ready, superseded, is_ready, versions,
}
use production_rag.MemoryStore.Uploads.{
  Upload, Options, key_of, upload_of, store_upload, new_version, recheck, persist, next_version,
  new_acl, inherit,
}
use production_rag.MemoryStore.Reads.{current_version, first_ready}
use production_rag.MemoryStore.Currency.{lookup-place_version, kept_acl, persist_of_chunks}

-- What stands under the key of an upload after it.
record Stands (u : Upload) (existing : Option Meta) (s : Store) (r : PersistResult) (s' : Store)
    : Type 0 where
  placed : Meta
  stands : lookup (key_of u) s'.documents ≡ some placed
  current : placed.status ≡ ready
  numbered : placed.version ≡ r.version
  reported : r.document_id ≡ u.result.document_id
  listed : placed.allowed_groups ≡ kept_acl existing (new_acl u s)

module _ (u : Upload) (s : Store) where
  new_version-Stands :
      (existing : Option Meta)
      → lookup (key_of u) s.documents ≡ existing
      → Stands u existing s (new_version u existing s).0 (new_version u existing s).1
  unfolding new_version
  new_version-Stands existing e =
      let (m, stands, current, numbered, titled, listed, _, _) =
        lookup-place_version u s (next_version u s) (new_acl u s) existing e in
      record {
        placed = m;
        stands = stands;
        current = current;
        numbered = numbered;
        reported = refl;
        listed = listed;
      }

  recheck-Stands :
      (m : Meta)
      → lookup (key_of u) s.documents ≡ some m
      → m.status ≡ ready
      → Stands u (some m) s (recheck u m s).0 (recheck u m s).1
  unfolding recheck
  recheck-Stands m e current = record {
    placed = record m { last_checked_at = u.now };
    stands = rw (
      lookup-update_where (λ k _. k == key_of u) _ (key_of u) s.documents,
      e,
      eq_refl (key_of u),
    );
    current = current;
    numbered = refl;
    reported = refl;
    listed = refl;
  }

  store_upload-Stands :
      (existing : Option Meta)
      → lookup (key_of u) s.documents ≡ existing
      → Stands u existing s (store_upload u existing s).0 (store_upload u existing s).1
  unfolding store_upload
  store_upload-Stands none e = new_version-Stands none e
  store_upload-Stands (some m) e = by_status m.status refl
    where
      by_status :
          (t : Status)
          → m.status ≡ t
          → Stands u (some m) s (store_upload u (some m) s).0 (store_upload u (some m) s).1
      by_status ready h = rw (ap is_ready h) (recheck-Stands m e h)
      by_status superseded h = rw (ap is_ready h) (new_version-Stands (some m) e)

-- An upload under the key of one that stands is only checked.
repeated :
    (u u' : Upload) (existing : Option Meta) (s : Store) (r : PersistResult) (s' : Store)
    → (p : Stands u existing s r s') → u'.result.document_id ≡ u.result.document_id
    → store_upload u' (some p.placed) s' ≡ (
      record r { chunks_written = 0; already_existed = true; superseded = [] },
      (recheck u' p.placed s').1,
    )
unfolding store_upload recheck
repeated u u' existing s r s' p same = rw (ap is_ready p.current) λ i. (
  record r {
    document_id = (same ∙ sym p.reported) i;
    chunks_written = 0;
    already_existed = true;
    version = p.numbered i;
    superseded = [];
  },
  (recheck u' p.placed s').1,
)

-- The access list that an upload asks for: its own, else the current version's, else none.
abbrev pub requested : Option (List Text) → Option Meta → List Text
requested (some acl) current = acl
requested none (some m) = m.allowed_groups
requested none none = []

inherit-first_ready :
    (acl : Option (List Text)) (ms : List Meta)
    → inherit acl (filter (λ m. is_ready m.status) ms) ≡ requested acl (first_ready ms)
inherit-first_ready (some acl) ms = refl
inherit-first_ready none [] = refl
inherit-first_ready none (m ∷ ms) = ground (arith, inherit-first_ready none ms)

module _ (now : Instant) (result : IngestResult) (o : Options) (s : Store) (first : Chunk)
    (rest : List Chunk) (e : result.chunks ≡ first ∷ rest) where
  abbrev pub uploaded : Upload
  uploaded = upload_of now result first o

  -- A new document has the access list that the upload asks for, where an omitted one is that of
  -- the source's current version as the uploader sees it. A document that was there, current or
  -- superseded, keeps its own access list, whatever the upload asks for.
  pub persist_acl :
      (r : PersistResult) × (s' : Store) × (placed : Meta) × (persist now result o s ≡ ok (r, s'))
      × (lookup (key_of uploaded) s'.documents ≡ some placed)
      × (placed.allowed_groups
          ≡ kept_acl (lookup (key_of uploaded) s.documents) (
              requested o.allowed_groups
                (current_version s first.tenant_id uploaded.source o.groups)))
  unfolding current_version
  persist_acl =
      let existing = lookup (key_of uploaded) s.documents in
      let p = store_upload-Stands uploaded s existing refl in
      (
        (store_upload uploaded existing s).0,
        (store_upload uploaded existing s).1,
        p.placed,
        persist_of_chunks now result o s first rest e,
        p.stands,
        p.listed
            ∙ ap (kept_acl existing) (
                inherit-first_ready o.allowed_groups
                  (versions s first.tenant_id uploaded.source.system uploaded.source.id o.groups)),
      )

  -- An upload that comes again directly, with no other call in between, but at any time and with
  -- any options, writes no chunk, supersedes nothing and reports the version of the first time; of the store only the
  -- time of the last check changes.
  pub persist_again :
      (later : Instant) (o' : Options)
      → (r : PersistResult) × (s' s'' : Store) × (persist now result o s ≡ ok (r, s'))
        × (persist later result o' s'
            ≡ ok (record r { chunks_written = 0; already_existed = true; superseded = [] }, s''))
        × (s''.chunks ≡ s'.chunks)
        × ((k : Key) (m : Meta)
            → lookup k s'.documents ≡ some m
            → lookup k s''.documents
              ≡ some (if k == key_of uploaded then record m { last_checked_at = later } else m))
  persist_again later o' =
      let existing = lookup (key_of uploaded) s.documents in
      let p = store_upload-Stands uploaded s existing refl in
      let s' = (store_upload uploaded existing s).1 in
      let again = upload_of later result first o' in
      (
        (store_upload uploaded existing s).0,
        s',
        (recheck again p.placed s').1,
        persist_of_chunks now result o s first rest e,
        persist_of_chunks later result o' s' first rest e
            ∙ ap (λ x. ok (store_upload again x s')) p.stands
            ∙ ap ok (repeated uploaded again existing s _ s' p refl),
        unfold recheck in refl,
        λ k m there.
            unfold recheck in
            rw (lookup-update_where (λ j _. j == key_of uploaded) _ k s'.documents, there),
      )
