-- ===== src/MemoryStore/Versions.antt =====
-- What the tests of memory_store.py mean: which documents are versions of a source, and which ones
-- a caller may see.
use production_rag.Base.{
  true, ◌≡◌, ◌↔◌, ◌⊎◌, inl, inr, none, some, List, arith, Text, eq_iff, nat_eq, list_eq, pair_eq,
  lookup, Option-cases, Bool-cases,
}
use production_rag.Permissions.Access.{Grants, allows_iff}
use production_rag.MemoryStore.State.{Key, Meta, Store, is_version, visible, if_visible}

-- The document is a version of one source of a tenant, and the caller's groups may see it.
abbrev pub IsVersionOf : Text → Text → Text → List Text → Key → Meta → Type 0
IsVersionOf tenant system source_id groups k m =
    (k.0 ≡ tenant)
    × (m.source_system ≡ system)
    × (m.source_id ≡ source_id)
    × Grants m.allowed_groups groups

pub is_version_iff :
    (tenant system source_id : Text) (groups : List Text) (k : Key) (m : Meta)
    → (is_version tenant system source_id groups k m ≡ true)
      ↔ IsVersionOf tenant system source_id groups k m
is_version_iff tenant system source_id groups k m = (
  λ h. (
    ground (arith, eq_iff k.0 tenant),
    ground (arith, eq_iff m.source_system system),
    ground (arith, eq_iff m.source_id source_id),
    (allows_iff m.allowed_groups groups).0 (ground arith),
  ),
  λ v. ground (
    arith,
    eq_iff k.0 tenant,
    eq_iff m.source_system system,
    eq_iff m.source_id source_id,
    (allows_iff m.allowed_groups groups).1 (v.3),
  ),
)

-- A document stands under a key, and the caller's groups may see it.
abbrev pub CanSee : Store → Key → List Text → Meta → Type 0
CanSee s k groups m = (lookup k s.documents ≡ some m) × Grants m.allowed_groups groups

-- What the lookups of the caller's methods find.
pub if_visible-cases :
    (s : Store) (k : Key) (groups : List Text)
    → ((m : Meta) × CanSee s k groups m × (if_visible groups (lookup k s.documents) ≡ some m))
      ⊎ (((m : Meta) → ¬ CanSee s k groups m) × (if_visible groups (lookup k s.documents) ≡ none))
if_visible-cases s k groups = elim (Option-cases (lookup k s.documents)) [
  | inl gone ↦ inr ((λ m see. cc (see.0, gone)), (rw gone))
  | inr (m, there) ↦ elim (Bool-cases (visible m groups)) [
    | inl seen ↦ inl (m, (there, (allows_iff m.allowed_groups groups).0 seen), (rw there (rw seen)))
    | inr hidden ↦ inr (
      (λ w see.
          let same : w ≡ m = ground (arith, see.0, there) in
          let allowed : Grants m.allowed_groups groups = rw same at (see.1) in
          cc (hidden, (allows_iff m.allowed_groups groups).1 allowed)),
      (rw there (rw hidden)),
    )
  ]
]
