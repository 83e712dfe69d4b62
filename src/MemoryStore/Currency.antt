-- ===== src/MemoryStore/Currency.antt =====
-- One current version: an upload supersedes the versions that the uploader sees.
use production_rag.Base.{
  if◌then◌else◌, ◌∙◌, eq_refl, sym, lookup-update_untouched, ap, inr, inl, ◌+◌, Bool, true, false,
  ◌≡◌, refl, ◌≢◌, ◌<◌, Option, none, some, List, [], ◌∷◌, arith, Text, eq_iff, nat_eq, list_eq,
  pair_eq, ◌==◌, Dict, lookup, update_where-lookup, lookup-update_where, lookup-insert, In,
  In_of_lookup, Bool-cases, ℕ, ok,
}
use production_rag.MemoryStore.Versions.{IsVersionOf, is_version_iff}
use production_rag.MemoryStore.State.{
  Key, Meta, Store, ready, superseded, is_ready, values_where, max_version,
}
use production_rag.Documents.{Chunk, IngestResult, Instant, PersistResult}
use production_rag.MemoryStore.Uploads.{
  persist_chunks, persist, upload_of, Options, Upload, key_of, next_version, new_acl, supersede,
  place_version, new_version, store_upload, is_sibling, is_ready_sibling, new_meta, reinstate,
}
use production_rag.MemoryStore.Consistent.{IsConsistent}

-- The document is a version of the uploaded source, and the uploader may see it.
abbrev pub IsVersion : Upload → Key → Meta → Type 0
IsVersion u = IsVersionOf u.tenant_id u.source.system u.source.id u.groups

module _ (u : Upload) (k : Key) (m : Meta) where
  -- A version that is no sibling is the document itself.
  itself : m.document_id ≡ k.1 → IsVersion u k m → is_sibling u k m ≡ false → k ≡ key_of u
  itself id v h = ground (
    arith,
    (is_version_iff u.tenant_id u.source.system u.source.id u.groups k m).1 v,
    eq_iff m.document_id u.result.document_id,
    v.0,
  )

  sibling : m.document_id ≡ k.1 → IsVersion u k m → k ≢ key_of u → is_sibling u k m ≡ true
  sibling id v other = elim (Bool-cases (is_sibling u k m)) [
    | inl yes_it_is ↦ yes_it_is
    | inr is_not ↦ absurd (other (itself id v is_not))
  ]

module _ (u : Upload) (version : ℕ) (acl : List Text) (k : Key) where
  -- Only the uploaded document is placed.
  lookup-place_version_ne :
      (existing : Option Meta) (s : Store)
      → k ≢ key_of u
      → lookup k (place_version u version acl existing s).documents ≡ lookup k s.documents
  unfolding place_version
  lookup-place_version_ne none s other =
      ground (
        arith,
        lookup-insert (key_of u) k (new_meta u version acl) s.documents,
        eq_iff (key_of u) k,
      )
  lookup-place_version_ne (some m) s other =
      lookup-update_untouched _ (reinstate u version) k s.documents
        (λ w. ground (arith, eq_iff k (key_of u)))

-- The greatest version bounds each.
max_version-le :
    (p : Key → Meta → Bool) (d : Dict Key Meta) (k : Key) (m : Meta)
    → In (k, m) d
    → p k m ≡ true
    → m.version < max_version (values_where p d) + 1
max_version-le p [] k m i h = absurd i
max_version-le p ((j, w) ∷ d) k m (inl e) h =
    ground (arith, ap (λ (t : Key × Meta). t.0) e, ap (λ (t : Key × Meta). t.1) e)
max_version-le p ((j, w) ∷ d) k m (inr i) h = ground (arith, max_version-le p d k m i h)

-- A document that was there is a version of the source that it had; a new one of the uploaded one.
abbrev pub kept_source : Option Meta → Upload → Text × Text
kept_source none u = (u.source.system, u.source.id)
kept_source (some m) u = (m.source_system, m.source_id)

-- What an upload that is not current yet leaves behind.
pub record IsCurrent (u : Upload) (r : PersistResult) (s s' : Store) : Type 0 where
  pub placed : Meta
  pub stands : lookup (key_of u) s'.documents ≡ some placed
  pub is_current : placed.status ≡ ready
  pub numbered : placed.version ≡ r.version
  pub titled : placed.source ≡ u.filename
  pub of_system : placed.source_system ≡ (kept_source (lookup (key_of u) s.documents) u).0
  pub of_source : placed.source_id ≡ (kept_source (lookup (key_of u) s.documents) u).1
  pub alone :
      (k : Key) (m : Meta)
      → lookup k s'.documents ≡ some m
      → IsVersion u k m
      → m.status ≡ ready
      → k ≡ key_of u
  pub newest :
      (k : Key) (m : Meta)
      → lookup k s.documents ≡ some m
      → IsVersion u k m
      → k ≢ key_of u
      → m.version < r.version

-- A document that was there keeps its access list; a new one takes the given list.
abbrev pub kept_acl : Option Meta → List Text → List Text
kept_acl none acl = acl
kept_acl (some m) acl = m.allowed_groups

module _ (u : Upload) (s : Store) where
  -- The uploaded document is placed as current.
  pub lookup-place_version :
      (version : ℕ) (acl : List Text) (existing : Option Meta)
      → lookup (key_of u) s.documents ≡ existing
      → (m : Meta) × (lookup
            (key_of u)
            (place_version u version acl existing (supersede u s)).documents
          ≡ some m)
        × (m.status ≡ ready)
        × (m.version ≡ version)
        × (m.source ≡ u.filename)
        × (m.allowed_groups ≡ kept_acl existing acl)
        × (m.source_system ≡ (kept_source existing u).0)
        × (m.source_id ≡ (kept_source existing u).1)
  unfolding place_version supersede
  lookup-place_version version acl none e = (
    new_meta u version acl,
    ground (
      arith,
      lookup-insert (key_of u) (key_of u) (new_meta u version acl) (supersede u s).documents,
      eq_refl (key_of u),
    ),
    refl,
    refl,
    refl,
    refl,
    refl,
    refl,
  )
  lookup-place_version version acl (some m) e = (
    reinstate u version (
        if is_ready_sibling u (key_of u) m
        then record m { status = superseded; updated_at = u.now }
        else m),
    rw (
      lookup-update_where (λ k _. k == key_of u) (reinstate u version) (key_of u)
          (supersede u s).documents,
      lookup-update_where (is_ready_sibling u) _ (key_of u) s.documents,
      e,
      eq_refl (key_of u),
    ),
    refl,
    refl,
    refl,
    ground arith,
    ground arith,
    ground arith,
  )

module _ (u : Upload) (s : Store) (v : IsConsistent s) where
  -- Of the versions that the uploader sees, only the document itself is left as current.
  supersede_alone :
      (k : Key) (m : Meta)
      → lookup k (supersede u s).documents ≡ some m
      → IsVersion u k m
      → m.status ≡ ready
      → k ≡ key_of u
  unfolding supersede
  supersede_alone k m e is current =
      let (w, there, same) = update_where-lookup _ _ k s.documents m e in
      elim (Bool-cases (is_ready_sibling u k w)) [
        | inl sib ↦ absurd (ground arith)
        | inr no_sib ↦
            let unchanged : m ≡ w = ground arith in
            itself u k m (cc (unchanged, v.named k w there)) is (rw unchanged (ground arith))
      ]

  new_version-IsCurrent :
      (existing : Option Meta)
      → lookup (key_of u) s.documents ≡ existing
      → IsCurrent u (new_version u existing s).0 s (new_version u existing s).1
  unfolding new_version
  new_version-IsCurrent existing e =
      let version = next_version u s in
      let acl = new_acl u s in
      let (m, stands, current, numbered, titled, _, of_system, of_source) =
        lookup-place_version u s version acl existing e in
      record {
        placed = m;
        stands = stands;
        is_current = current;
        numbered = numbered;
        titled = titled;
        of_system = of_system ∙ sym (ap (λ o. (kept_source o u).0) e);
        of_source = of_source ∙ sym (ap (λ o. (kept_source o u).1) e);
        alone = λ k w there is ready_now. elim (Bool-cases (k == key_of u)) [
          | inl same ↦ (eq_iff k (key_of u)).0 same
          | inr other ↦
              supersede_alone k w
                (sym (
                    lookup-place_version_ne u version acl k existing (supersede u s)
                      (λ q. ground (arith, eq_iff k (key_of u))))
                  ∙ there)
                is ready_now
        ];
        newest = λ k w there is other.
            max_version-le (is_sibling u) s.documents k w (In_of_lookup k w s.documents there)
              (sibling u k w (v.named k w there) is other);
      }

  -- An upload of a document that is not current yet, new or superseded, makes it current, and no
  -- other version of the uploaded source that the uploader sees.
  pub store_upload-IsCurrent :
      ((m : Meta) → lookup (key_of u) s.documents ≡ some m → m.status ≡ superseded)
      → IsCurrent u
          (store_upload u (lookup (key_of u) s.documents) s).0
          s
          (store_upload u (lookup (key_of u) s.documents) s).1
  store_upload-IsCurrent old = by_existing (lookup (key_of u) s.documents) refl
    where
      by_existing :
          (existing : Option Meta)
          → lookup (key_of u) s.documents ≡ existing
          → IsCurrent u (store_upload u existing s).0 s (store_upload u existing s).1
      by_existing none e = unfold store_upload in new_version-IsCurrent none e
      by_existing (some m) e =
          unfold store_upload in rw (ap is_ready (old m e)) (new_version-IsCurrent (some m) e)

-- An upload with chunks is stored for the tenant and under the name that its first chunk gives.
pub persist_of_chunks :
    (now : Instant) (result : IngestResult) (o : Options) (s : Store) (first : Chunk)
    (rest : List Chunk)
    → result.chunks ≡ first ∷ rest
    → persist now result o s
      ≡ ok (
          store_upload
            (upload_of now result first o)
            (lookup (key_of (upload_of now result first o)) s.documents)
            s)
unfolding persist
persist_of_chunks now result o s first rest e = ap (persist_chunks now result o s) e

-- On a consistent store, to persist a result with chunks whose document is not there or is
-- superseded makes the document current, under the uploaded name. A new document is a version of
-- the uploaded source, one that was there of the source that it had. No other version of the
-- uploaded source that the uploader sees is current, and those that they saw before have smaller
-- numbers.
pub persist-IsCurrent :
    (now : Instant) (result : IngestResult) (o : Options) (s : Store) (first : Chunk)
    (rest : List Chunk)
    → result.chunks ≡ first ∷ rest
    → IsConsistent s
    → ((m : Meta)
        → lookup (key_of (upload_of now result first o)) s.documents ≡ some m
        → m.status ≡ superseded)
    → (r : PersistResult) × (s' : Store) × (persist now result o s ≡ ok (r, s'))
      × IsCurrent (upload_of now result first o) r s s'
persist-IsCurrent now result o s first rest e v old =
    let u = upload_of now result first o in
    let stored = store_upload u (lookup (key_of u) s.documents) s in
    (
      stored.0,
      stored.1,
      persist_of_chunks now result o s first rest e,
      store_upload-IsCurrent u s v old,
    )
