-- ===== src/Chunking.antt =====
-- `RagIngestionPipeline` of rag.py: how the text of a document becomes numbered chunks.
pub mod Tiling
pub mod Numbering
mod Tests
use production_rag.Base.{
  ℕ, zero, suc, ◌+◌, ◌-◌, ◌/◌, min, max, Bool, true, false, ◌||◌, Option, none, some, List, [], ◌∷◌,
  ◌++◌, map, Text, text, Unicode, strip, is_empty, length, take, drop, filter, any, ltb, leb, eqb,
  if◌then◌else◌, Result, ok, err, ◌>>=◌, ◌>>◌, raise_if,
}
use production_rag.Permissions.{ValueError, value_error}
use production_rag.Documents.{Instant, Chunk, IngestResult}

pub record Pipeline : Type 0 where
  pub chunk_size : ℕ
  pub overlap : ℕ

abbrev pub is_bad_window : ℕ → ℕ → Bool
is_bad_window size overlap = leb size 0 || leb size overlap

unfoldable pub new_pipeline : ℕ → ℕ → Result ValueError Pipeline
new_pipeline size overlap =
    if is_bad_window size overlap
    then err (value_error (text "chunk_size must be positive and overlap must be smaller"))
    else ok (record { chunk_size = size; overlap = overlap })

-- `token.endswith((".", "!", "?", ":"))`
unfoldable pub ends_sentence : Text → Bool
ends_sentence [] = false
ends_sentence (c ∷ []) = eqb c 46 || eqb c 33 || eqb c 63 || eqb c 58
ends_sentence (c ∷ d ∷ s) = ends_sentence (d ∷ s)

-- The list `boundaries`, for the tokens of a window that starts at `index`.
unfoldable pub boundaries : ℕ → List Text → List ℕ
unfolding ends_sentence
boundaries index [] = []
boundaries index (t ∷ ts) =
    let rest = boundaries (index + 1) ts in if ends_sentence t then (index + 1) ∷ rest else rest

-- `max(xs, default=d)`
unfoldable pub max_or : ℕ → List ℕ → ℕ
max_or d [] = d
max_or d (x ∷ xs) = max x (max_or x xs)

abbrev pub slice {ℓ} : {A : Type ℓ} → ℕ → ℕ → List A → List A
slice start end xs = take (end - start) (drop start xs)

-- The end of a full window is moved back to a boundary, if there is one.
unfoldable pub boundary : ℕ → List Text → ℕ → ℕ → ℕ
unfolding max_or boundaries
boundary size tokens start end =
    let found = boundaries start (slice start end tokens) in
    max_or (max_or end found) (filter (leb (start + max 1 (size / 2))) found)

unfoldable pub window_end : ℕ → List Text → ℕ → ℕ
unfolding boundary
window_end size tokens start =
    let end = min (start + size) (length tokens) in
    if ltb end (length tokens) then boundary size tokens start end else end

abbrev pub next_start : ℕ → ℕ → ℕ → ℕ
next_start overlap start end = max (end - overlap) (start + 1)

-- The loop of `_split`, as the windows that it cuts. The fuel is the number of tokens: each round
-- starts later than the one before.
unfoldable pub windows : Pipeline → List Text → ℕ → ℕ → List (ℕ × ℕ)
unfolding window_end
windows p tokens zero start = []
windows p tokens (suc fuel) start =
    let end = window_end p.chunk_size tokens start in
    let rest = windows p tokens fuel (next_start p.overlap start end) in
    if leb (length tokens) start
    then []
    else if eqb end (length tokens)
    then (start, end) ∷ []
    else (start, end) ∷ rest

-- `separator.join(parts)`
unfoldable pub join : Text → List Text → Text
join separator [] = []
join separator (t ∷ []) = t
join separator (t ∷ u ∷ ts) = t ++ separator ++ join separator (u ∷ ts)

unfoldable pub split_tokens : Pipeline → List Text → List Text
unfolding windows join
split_tokens p tokens =
    map (λ w. join (text " ") (slice w.0 w.1 tokens)) (windows p tokens (length tokens) 0)

-- What the standard library does: `str.splitlines`, the regular expressions `[ \t]+` by a space,
-- `\S+` and the labels of roles, `str.encode`, which raises a `UnicodeEncodeError`, a `ValueError`,
-- on a lone surrogate, and the hex digest of bytes.
pub record Library : Type 0 where
  pub unicode : Unicode
  pub splitlines : Text → List Text
  pub squeeze_blanks : Text → Text
  pub find_words : Text → List Text
  pub relabel : Text → Text
  pub encode : Text → Result ValueError (List ℕ)
  pub file_sha256 : List ℕ → Text
  -- `str(uuid4())`, by the number of the chunk.
  pub uuid : ℕ → Text

abbrev pub Segment : Type 0
Segment = Option ℕ × Text

abbrev pub concat {ℓ} : {A : Type ℓ} → List (List A) → List A
concat [] = []
concat (xs ∷ xss) = xs ++ concat xss

module _ (lib : Library) where
  abbrev trimmed : Text → Text
  trimmed s = strip lib.unicode.is_space s

  abbrev is_full : Text → Bool
  is_full [] = false
  is_full (c ∷ s) = true

  abbrev pub tokenize : Text → List Text
  tokenize t = lib.find_words (
      join (text "\n")
        (filter is_full (map (λ line. trimmed (lib.squeeze_blanks line)) (lib.splitlines t))))

  unfoldable pub split : Pipeline → Text → List Text
  unfolding split_tokens
  split p t = split_tokens p (tokenize t)

  unfoldable pub normalize_identifier : Text → Text → Result ValueError Text
  normalize_identifier value field =
      let normalized = trimmed value in
      if is_empty normalized
      then err (value_error (field ++ text " is required"))
      else if any (λ c. ltb c 32) normalized
      then err (value_error (field ++ text " contains control characters"))
      else ok normalized

  abbrev pub pieces_of : Pipeline → List Segment → List Segment
  pieces_of p segments =
      concat
        (map (λ (s : Segment). map (λ piece. (s.0, piece)) (split p (lib.relabel s.1))) segments)

  -- `if identity`: an empty identity counts as none.
  unfoldable pub document_id_of : Option Text → Text → Result ValueError Text
  document_id_of none digest = ok (take 24 digest)
  document_id_of (some []) digest = ok (take 24 digest)
  document_id_of (some (c ∷ s)) digest = do
    bytes ← lib.encode ((c ∷ s) ++ 0 ∷ digest)
    ok (take 24 (lib.file_sha256 bytes))

  unfoldable pub number_pieces : Instant → Text → Text → Text → ℕ → List Segment → List Chunk
  number_pieces now document_id filename tenant_id index [] = []
  number_pieces now document_id filename tenant_id index ((page, piece) ∷ rest) =
      record {
        text = piece;
        document_id = document_id;
        index = index;
        tenant_id = tenant_id;
        source = filename;
        id = lib.uuid index;
        created_at = now;
        page = page;
      }
      ∷ number_pieces now document_id filename tenant_id (index + 1) rest

  unfoldable pub ingest_segments :
      Pipeline
      → Instant
      → List ℕ
      → List Segment
      → Text
      → Text
      → Option Text
      → Result ValueError IngestResult
  unfolding normalize_identifier number_pieces document_id_of
  ingest_segments p now original segments filename tenant_id identity = do
    name ← normalize_identifier filename (text "filename")
    tenant ← normalize_identifier tenant_id (text "tenant_id")
    let digest = lib.file_sha256 original
    document_id ← document_id_of identity digest
    ok (record {
      document_id = document_id;
      content_sha256 = digest;
      chunks = number_pieces now document_id name tenant 0 (pieces_of p segments);
    })
