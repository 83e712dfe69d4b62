-- ===== src/MemoryStore/Listing.antt =====
-- `list_documents` shows what the caller may see, newest first.
use production_rag.Base.{◌≡◌, ◌⊎◌, Bool, true, List, Text, In, nat_eq, list_eq}
use production_rag.Permissions.Access.{Grants}
use production_rag.MemoryStore.State.{Key, ready, Meta, Store}

-- A row of the list is a document of the tenant that the caller's groups may see, and a current one
-- unless superseded ones are asked for.
abbrev pub IsListed : Store → Text → List Text → Bool → Meta → Type 0
IsListed s tenant groups include_superseded m =
    (k : Key) × In (k, m) s.documents
    × (k.0 ≡ tenant)
    × Grants m.allowed_groups groups
    × ((include_superseded ≡ true) ⊎ (m.status ≡ ready))
