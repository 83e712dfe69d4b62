-- ===== src/MemoryStore/Edits.antt =====
-- `InMemoryStore.mark_checked`, `update_document` and `delete_document`.
use production_rag.Base.{
  remove, Bool, true, false, Option, none, some, List, Text, ◌==◌, nat_eq, list_eq, pair_eq, lookup,
  update_where,
}
use production_rag.Permissions.{}
use production_rag.Documents.{Instant}
use production_rag.MemoryStore.State.{is_version, if_visible, Meta, Store, Key}

unfoldable pub mark_checked : Instant → Text → Text → Store → Store
mark_checked now tenant document_id s = record s {
  documents =
      update_where (λ k _. k == (tenant, document_id)) (λ m. record m { last_checked_at = now })
        s.documents;
}

-- The two optional changes of `update_document`, and the new time of change.
abbrev pub edit : Instant → Option (List Text) → Option Text → Meta → Meta
edit now none none m = record m { updated_at = now }
edit now (some acl) none m = record m { allowed_groups = acl; updated_at = now }
edit now none (some name) m = record m { source = name; updated_at = now }
edit now (some acl) (some name) m = record m {
  allowed_groups = acl;
  source = name;
  updated_at = now;
}

abbrev pub edit_versions :
    Instant → Text → Meta → List Text → Option (List Text) → Option Text → Store → Store
edit_versions now tenant m groups acl name s = record s {
  documents =
      update_where (is_version tenant m.source_system m.source_id groups) (edit now acl name)
        s.documents;
}

-- The row is read again after the edit: the caller may have removed their own access.
update_found :
    Instant
    → Key
    → List Text
    → Option (List Text)
    → Option Text
    → Option Meta
    → Store
    → (Bool × Option Meta) × Store
update_found now (tenant, document_id) groups acl name none s = ((false, none), s)
update_found now (tenant, document_id) groups acl name (some m) s =
    let s' = edit_versions now tenant m groups acl name s in
    ((true, if_visible groups (lookup (tenant, document_id) s'.documents)), s')

unfoldable pub update_document :
    Instant
    → Text
    → Text
    → List Text
    → Option (List Text)
    → Option Text
    → Store
    → (Bool × Option Meta) × Store
unfolding update_found
update_document now tenant document_id groups acl name s =
    update_found now (tenant, document_id) groups acl name
      (if_visible groups (lookup (tenant, document_id) s.documents)) s

delete_found : Key → Option Meta → Store → Bool × Store
delete_found k none s = (false, s)
delete_found k (some m) s =
    (true, record { documents = remove k s.documents; chunks = remove k s.chunks })

unfoldable pub delete_document : Text → Text → List Text → Store → Bool × Store
unfolding delete_found
delete_document tenant document_id groups s =
    delete_found (tenant, document_id)
      (if_visible groups (lookup (tenant, document_id) s.documents)) s
