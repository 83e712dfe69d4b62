-- ===== src/MemoryStore/State.antt =====
-- The state of `InMemoryStore`, and the versions of one source. `self._documents` and
-- `self._chunks` are dictionaries in insertion order. The lock makes each method atomic, so a
-- method is a function that returns the new store beside its result.
use production_rag.Base.{
  ℕ, max, Bool, true, false, ◌&&◌, ◌||◌, Option, none, some, List, [], ◌∷◌, Text, ◌==◌, nat_eq,
  list_eq, pair_eq, is_empty, Dict, if◌then◌else◌,
}
use production_rag.Permissions.{share}
use production_rag.Documents.{Instant, Chunk}

abbrev pub Key : Type 0
Key = Text × Text

pub data Status : Type 0 where
  ready superseded : Status

abbrev pub is_ready : Status → Bool
is_ready ready = true
is_ready superseded = false

pub record Meta : Type 0 where
  pub document_id : Text
  pub source : Text
  pub source_system : Text
  pub source_id : Text
  pub version : ℕ
  pub status : Status
  pub content_type : Text
  pub content_sha256 : Text
  pub chunk_count : ℕ
  pub allowed_groups : List Text
  pub source_version : Option Text
  pub source_modified_at : Option Instant
  pub last_checked_at : Instant
  pub created_at : Instant
  pub updated_at : Instant

pub record Store : Type 0 where
  pub documents : Dict Key Meta
  pub chunks : Dict Key (List Chunk)

abbrev pub new_store : Store
new_store = record { documents = []; chunks = [] }

abbrev pub visible : Meta → List Text → Bool
visible meta groups = is_empty meta.allowed_groups || share meta.allowed_groups groups

-- The test of the comprehension in `_versions`.
abbrev pub is_version : Text → Text → Text → List Text → Key → Meta → Bool
is_version tenant system source_id groups (owner, _) meta =
    owner == tenant
    && meta.source_system == system
    && meta.source_id == source_id
    && visible meta groups

-- The values of the entries that pass a test, in order.
abbrev pub values_where : (Key → Meta → Bool) → Dict Key Meta → List Meta
values_where p [] = []
values_where p ((k, m) ∷ d) = if p k m then m ∷ values_where p d else values_where p d

abbrev pub versions : Store → Text → Text → Text → List Text → List Meta
versions s tenant system source_id groups =
    values_where (is_version tenant system source_id groups) s.documents

abbrev pub head_or {ℓ} : {A : Type ℓ} → A → List A → A
head_or a [] = a
head_or a (x ∷ xs) = x

-- `max((meta["version"] for meta in siblings), default=0)`
abbrev pub max_version : List Meta → ℕ
max_version [] = 0
max_version (m ∷ ms) = max m.version (max_version ms)

abbrev pub if_visible : List Text → Option Meta → Option Meta
if_visible groups none = none
if_visible groups (some m) = if visible m groups then some m else none
