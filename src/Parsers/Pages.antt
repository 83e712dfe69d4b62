-- ===== src/Parsers/Pages.antt =====
-- The segments that `parse_pdf` makes of the pages.
use production_rag.Base.{
  ℕ, ◌+◌, ◌≡◌, refl, ◌≤◌, inl, inr, Bool, true, false, Option, some, List, [], ◌∷◌, arith, Text,
  Unicode, is_empty, length, take, ltb, ok, >>=-eq-ok, ok-injective, Bool-cases,
}
use production_rag.Parsers.{
  Segment, max_pages, max_extracted_chars, page_text, read_pages, parse_pdf,
}

-- The characters of some segments.
unfoldable pub size : List Segment → ℕ
size [] = 0
size ((page, t) ∷ rest) = length t + size rest

module _ (u : Unicode) where
  -- The segments of the pages from `number` on: the trimmed texts that are not empty, in order and
  -- each under the number of its page.
  pub data Numbers : ℕ → List (Option Text) → List Segment → Type 0 where
    finished : {n : ℕ} → Numbers n [] []
    blank :
        {n : ℕ} {pages : List (Option Text)} {ss : List Segment} (page : Option Text)
        → is_empty (page_text u page) ≡ true
        → Numbers (n + 1) pages ss
        → Numbers n (page ∷ pages) ss
    filled :
        {n : ℕ} {pages : List (Option Text)} {ss : List Segment} (page : Option Text)
        → is_empty (page_text u page) ≡ false
        → Numbers (n + 1) pages ss
        → Numbers n (page ∷ pages) ((some n, page_text u page) ∷ ss)

  read_pages-Numbers :
      (n total : ℕ) (pages : List (Option Text)) (ss : List Segment)
      → total ≤ max_extracted_chars
      → read_pages u n total pages ≡ ok ss
      → Numbers n pages ss × (total + size ss ≤ max_extracted_chars)
  unfolding read_pages size
  read_pages-Numbers n total [] ss h e = rw (← ok-injective e) (finished, omega arith)
  read_pages-Numbers n total (page ∷ pages) ss h e =
      let found = page_text u page in
      elim (Bool-cases (ltb max_extracted_chars (total + length found))) [
        | inl over ↦ cc (rw over at e)
        | inr fits ↦
            let room : total + length found ≤ max_extracted_chars = ground arith in
            elim (Bool-cases (is_empty found)) [
              | inl empty ↦
                  let (ns, b) =
                    read_pages-Numbers (n + 1) (total + length found) pages ss room
                      (rw (fits, empty) at e) in
                  (blank page empty ns, omega (arith, b))
              | inr full ↦
                  let (more, e1, e2) =
                    >>=-eq-ok (read_pages u (n + 1) (total + length found) pages) _
                      (rw (fits, full) at e) in
                  let (ns, b) =
                    read_pages-Numbers (n + 1) (total + length found) pages more room e1 in
                  rw (← ok-injective e2) (filled page full ns, omega (arith, b))
            ]
      ]

  -- A PDF that is accepted is not encrypted; its segments are the trimmed texts of its first 500
  -- pages, without the empty ones, each under its page number from 1 on, and of 5,000,000
  -- characters at most together.
  pub parse_pdf-Numbers :
      (is_encrypted : Bool) (pages : List (Option Text)) (ss : List Segment)
      → parse_pdf u is_encrypted pages ≡ ok ss
      → (is_encrypted ≡ false)
        × Numbers 1 (take max_pages pages) ss
        × (size ss ≤ max_extracted_chars)
  unfolding parse_pdf
  parse_pdf-Numbers true pages ss e = cc e
  parse_pdf-Numbers false pages ss e =
      let (ns, b) = read_pages-Numbers 1 0 (take max_pages pages) ss (omega arith) e in
      (refl, ns, omega (arith, b))
