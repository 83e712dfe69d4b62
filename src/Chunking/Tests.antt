-- ===== src/Chunking/Tests.antt =====
-- Small windows over a few tokens, and the ingestion of a page.
use production_rag.Base.{
  ◌≡◌, refl, ◌||◌, none, some, List, [], ◌∷◌, arith, Text, text, Unicode, eqb, ok,
}
use production_rag.Chunking.{Pipeline, Library, Segment, windows, split_tokens}
use production_rag.Chunking.Tiling.{Windowed, split_exact}

abbrev small : Pipeline
small = record { chunk_size = 4; overlap = 1 }

abbrev words : List Text
words = text "one" ∷ text "two" ∷ text "three." ∷ text "four" ∷ text "five" ∷ text "six" ∷ []

cut_at_sentence : windows small words 6 0 ≡ (0, 3) ∷ (2, 6) ∷ []
unfolding windows
cut_at_sentence = refl

-- A sentence end in the overlap is found again, window after window.
long_run :
    windows
      (record { chunk_size = 4; overlap = 2 })
      (text "a" ∷ text "b" ∷ text "c." ∷ text "d" ∷ text "e" ∷ text "f" ∷ text "g" ∷ [])
      7
      0
    ≡ (0, 3) ∷ (1, 3) ∷ (2, 3) ∷ (3, 7) ∷ []
unfolding windows
long_run = refl

split_exact_example : Windowed small words (split_tokens small words)
split_exact_example = split_exact small words (omega arith)

abbrev plain : Unicode
plain = record { is_space = λ c. eqb c 32 || eqb c 10; digit_value = λ c. none }

abbrev library : Library
library = record {
  unicode = plain;
  splitlines = λ t. t ∷ [];
  squeeze_blanks = λ t. t;
  find_words = λ t. t ∷ [];
  relabel = λ t. t;
  encode = λ t. ok t;
  file_sha256 = λ bytes. bytes;
  uuid = λ n. n ∷ [];
}

abbrev pages : List Segment
pages = (some 1, text "first") ∷ (some 2, text "second") ∷ []
