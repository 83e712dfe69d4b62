-- ===== src/MemoryStore/Access.antt =====
-- What a caller can do to a document: nothing to one that they cannot see.
use production_rag.Base.{
  true, false, ◌≡◌, refl, ◌≢◌, ◌⊎◌, inl, inr, Option, none, some, List, arith, Text, eq_iff,
  eq_refl, nat_eq, list_eq, pair_eq, lookup, lookup-remove, remove, lookup-update_where, Bool-cases,
}
use production_rag.Documents.{Instant}
use production_rag.MemoryStore.State.{Key, Meta, Store, is_version, if_visible}
use production_rag.MemoryStore.Versions.{IsVersionOf, is_version_iff, CanSee, if_visible-cases}
use production_rag.MemoryStore.Edits.{edit, edit_versions, update_document, delete_document}
use production_rag.MemoryStore.Reads.{get_document}

-- The document and its chunks are gone, and everything else is as it was.
pub record Deleted (k : Key) (s s' : Store) : Type 0 where
  pub no_document : lookup k s'.documents ≡ none
  pub no_chunks : lookup k s'.chunks ≡ none
  pub others :
      (j : Key)
      → j ≢ k
      → (lookup j s'.documents ≡ lookup j s.documents) × (lookup j s'.chunks ≡ lookup j s.chunks)

abbrev pub given_or {ℓ} : {A : Type ℓ} → Option A → A → A
given_or none a = a
given_or (some given) a = given

-- The document `w` with the given access list and the given name, each if there is one; all else
-- is as it was.
pub record IsEdit (now : Instant) (acl : Option (List Text)) (name : Option Text) (w w' : Meta)
    : Type 0 where
  pub allowed_groups : w'.allowed_groups ≡ given_or acl w.allowed_groups
  pub source : w'.source ≡ given_or name w.source
  pub updated_at : w'.updated_at ≡ now
  pub rest :
      record w' { allowed_groups = w.allowed_groups; source = w.source; updated_at = w.updated_at }
      ≡ w

edit-IsEdit :
    (now : Instant) (acl : Option (List Text)) (name : Option Text) (w : Meta)
    → IsEdit now acl name w (edit now acl name w)
edit-IsEdit now none none w = record {
  allowed_groups = refl;
  source = refl;
  updated_at = refl;
  rest = refl;
}
edit-IsEdit now (some acl) none w = record {
  allowed_groups = refl;
  source = refl;
  updated_at = refl;
  rest = refl;
}
edit-IsEdit now none (some name) w = record {
  allowed_groups = refl;
  source = refl;
  updated_at = refl;
  rest = refl;
}
edit-IsEdit now (some acl) (some name) w = record {
  allowed_groups = refl;
  source = refl;
  updated_at = refl;
  rest = refl;
}

-- All that the caller sees of the source of `m` is edited, and everything else is as it was.
pub record Edited (now : Instant) (tenant : Text) (m : Meta) (groups : List Text)
    (acl : Option (List Text)) (name : Option Text) (s s' : Store) : Type 0 where
  pub versions :
      (k : Key) (w : Meta)
      → lookup k s.documents ≡ some w
      → IsVersionOf tenant m.source_system m.source_id groups k w
      → (w' : Meta) × (lookup k s'.documents ≡ some w') × IsEdit now acl name w w'
  pub others :
      (k : Key) (w : Meta)
      → lookup k s.documents ≡ some w
      → ¬ IsVersionOf tenant m.source_system m.source_id groups k w
      → lookup k s'.documents ≡ some w
  pub chunks : s'.chunks ≡ s.chunks

module _ (tenant document_id : Text) (groups : List Text) (s : Store) where
  abbrev pub key : Key
  key = (tenant, document_id)

  -- A delete removes a document that the caller can see, with its chunks and nothing else, and
  -- says so; otherwise it reports failure and changes nothing.
  pub delete_document_exact :
      ((m : Meta) × (s' : Store) × CanSee s key groups m
        × (delete_document tenant document_id groups s ≡ (true, s'))
        × Deleted key s s')
      ⊎ (((m : Meta) → ¬ CanSee s key groups m)
          × (delete_document tenant document_id groups s ≡ (false, s)))
  unfolding delete_document
  delete_document_exact = elim (if_visible-cases s key groups) [
    | inl (m, see, found) ↦ inl (
      m,
      without,
      see,
      (rw (found, delete_document)),
      record {
        no_document = rw (lookup-remove key key s.documents, eq_refl key);
        no_chunks = rw (lookup-remove key key s.chunks, eq_refl key);
        others = λ j other. (
          ground (arith, lookup-remove key j s.documents, eq_iff key j),
          ground (arith, lookup-remove key j s.chunks, eq_iff key j),
        );
      },
    )
    | inr (hidden, lost) ↦ inr (hidden, (rw (lost, delete_document)))
  ]
    where
      without : Store
      without = record { documents = remove key s.documents; chunks = remove key s.chunks }

  edit_versions-Edited :
      (now : Instant) (m : Meta) (acl : Option (List Text)) (name : Option Text)
      → Edited now tenant m groups acl name s (edit_versions now tenant m groups acl name s)
  edit_versions-Edited now m acl name = record {
    versions = λ k w there is. (
      edit now acl name w,
      rw (
        lookup-update_where (is_version tenant m.source_system m.source_id groups) _ k s.documents,
        there,
        (is_version_iff tenant m.source_system m.source_id groups k w).1 is,
      ),
      edit-IsEdit now acl name w,
    );
    others = λ k w there not_one.
        let test = is_version_iff tenant m.source_system m.source_id groups k w in
        rw
          (
            lookup-update_where (is_version tenant m.source_system m.source_id groups) _ k
                s.documents,
            there,
          )
          (elim (Bool-cases (is_version tenant m.source_system m.source_id groups k w)) [
            | inl is ↦ absurd (not_one (test.0 is))
            | inr no_test ↦ rw no_test
          ]);
    chunks = refl;
  }

  -- An update gives every version that the caller sees of a document that they can see the access
  -- list and the name that were asked for, each if there is one, and the time of the update, and
  -- changes nothing else of them and no other document; its row is the document as it stands then, if the caller still sees it. Of a
  -- document that the caller cannot see nothing changes, and nothing is reported.
  pub update_document_exact :
      (now : Instant) (acl : Option (List Text)) (name : Option Text)
      → ((m : Meta) × (s' : Store) × (row : Option Meta) × CanSee s key groups m
          × (update_document now tenant document_id groups acl name s ≡ ((true, row), s'))
          × (row ≡ get_document s' tenant document_id groups)
          × Edited now tenant m groups acl name s s')
        ⊎ (((m : Meta) → ¬ CanSee s key groups m)
            × (update_document now tenant document_id groups acl name s ≡ ((false, none), s)))
  unfolding update_document get_document
  update_document_exact now acl name = elim (if_visible-cases s key groups) [
    | inl (m, see, found) ↦
        let s' = edit_versions now tenant m groups acl name s in
        inl (
          m,
          s',
          if_visible groups (lookup key s'.documents),
          see,
          (rw (found, update_document)),
          refl,
          edit_versions-Edited now m acl name,
        )
    | inr (hidden, lost) ↦ inr (hidden, (rw (lost, update_document)))
  ]
