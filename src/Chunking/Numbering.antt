-- ===== src/Chunking/Numbering.antt =====
-- What `ingest_segments` accepts, and how it numbers its chunks.
use production_rag.Base.{
  ℕ, ◌≤◌, ◌≡◌, false, Option, some, List, [], ◌∷◌, ◌++◌, none, take, Text, text, All, is_empty,
  length, get_elem?, Result, ok, err,
}
use production_rag.Permissions.{ValueError}
use production_rag.Documents.{Chunk, IngestResult}
use production_rag.Chunking.{Pipeline, Library, Segment, trimmed, pieces_of}

abbrev pub IsPrintable : Text → Type 0
IsPrintable s = All (λ c. 32 ≤ c) s

module _ (lib : Library) where
  -- An identifier is not blank, and without the space around it has no control character.
  abbrev pub IsIdentifier : Text → Type 0
  IsIdentifier value = (is_empty (trimmed lib value) ≡ false) × IsPrintable (trimmed lib value)

  data Judged (value : Text) (r : Result ValueError Text) : Type 0 where
    good : IsIdentifier value → r ≡ ok (trimmed lib value) → Judged value r
    bad : ¬ (IsIdentifier value) → (e : ValueError) → r ≡ err e → Judged value r

  -- A chunk is the piece of its number, of the document, the tenant and the file.
  pub record IsNumbered (document_id filename tenant_id : Text) (index : ℕ) (piece : Segment)
      (c : Chunk) : Type 0 where
    pub number : c.index ≡ index
    pub page : c.page ≡ piece.0
    pub content : c.text ≡ piece.1
    pub document : c.document_id ≡ document_id
    pub tenant : c.tenant_id ≡ tenant_id
    pub file : c.source ≡ filename

  -- The id of a document: the start of its digest, or with an identity the start of the digest of
  -- the identity, a zero and the digest, which must be text that can be encoded.
  abbrev pub IsDocumentId : Option Text → List ℕ → Text → Type 0
  IsDocumentId none original id = id ≡ take 24 (lib.file_sha256 original)
  IsDocumentId (some []) original id = id ≡ take 24 (lib.file_sha256 original)
  IsDocumentId (some (c ∷ s)) original id =
      (bytes : List ℕ) × (lib.encode ((c ∷ s) ++ 0 ∷ lib.file_sha256 original) ≡ ok bytes)
      × (id ≡ take 24 (lib.file_sha256 bytes))

  data Identified (identity : Option Text) (original : List ℕ) (r : Result ValueError Text)
      : Type 0 where
    identified :
        (id : Text) → IsDocumentId identity original id → r ≡ ok id → Identified identity original r
    not_encoded :
        ((id : Text) → ¬ IsDocumentId identity original id)
        → (e : ValueError) → r ≡ err e
        → Identified identity original r

  pub record IsIngested (p : Pipeline) (original : List ℕ) (segments : List Segment)
      (filename tenant_id : Text) (identity : Option Text) (r : IngestResult) : Type 0 where
    pub named : IsDocumentId identity original r.document_id
    pub hashed : r.content_sha256 ≡ lib.file_sha256 original
    pub complete : length r.chunks ≡ length (pieces_of lib p segments)
    pub numbered :
        (i : ℕ) (piece : Segment)
        → get_elem? (pieces_of lib p segments) i ≡ some piece
        → (c : Chunk) × (get_elem? r.chunks i ≡ some c)
          × IsNumbered r.document_id (trimmed lib filename) (trimmed lib tenant_id) i piece c
