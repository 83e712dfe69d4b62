-- ===== src/Parsers/Tests.antt =====
-- An HTML page under a Markdown name, a page with a script, one whose head does not end, and a PDF
-- with a page that holds no text.
use production_rag.Base.{
  All, ◌≡◌, refl, ◌↔◌, ◌≤◌, true, false, none, some, List, [], ◌∷◌, text, Unicode, eqb, nat_eq,
  list_eq, ok, list_beq, strip, drop_while, take, All,
}
use production_rag.Parsers.{
  markdown, Library, timed_out, starts, new_extractor, is_skipped, is_block, handle_all, sniff,
  Segment, max_pages, max_extracted_chars, parse_pdf,
}
use production_rag.Parsers.Signs.{FitsExtension}
use production_rag.Parsers.Sniffing.{Shows, Declares, sniff_iff}
use production_rag.Parsers.Extraction.{
  Nodes, shown, void, element, finished, next, all_events, all_readable, AreClosed,
  handle_all-readable,
}
use production_rag.Parsers.Unclosed.{
  Piece, opened, ended, whole, piece_events, NeverEnds, IsLineBreak, handle_all-unclosed,
}
use production_rag.Parsers.Pages.{size, Numbers, parse_pdf-Numbers}

abbrev plain_ascii : Unicode
plain_ascii = record { is_space = λ c. eqb c 32; digit_value = λ c. none }

-- Every text starts like a page, and every name ends in ".md".
abbrev library : Library
library = record {
  unicode = plain_ascii;
  decode = λ bytes. some bytes;
  suffix = λ name. text ".md";
  lower = λ t. t;
  before_semicolon = λ t. t;
  is_html_head = λ bytes. true;
  sandbox = λ kind bytes. timed_out;
}

sniff_iff_example : (sniff library (text "<html>") (text "a.md") none ≡ ok markdown) ↔ (
    Shows library (text "<html>") (text "a.md") markdown
    × FitsExtension (library.lower (library.suffix (text "a.md"))) markdown
    × Declares library none markdown)
sniff_iff_example = sniff_iff library (text "<html>") (text "a.md") none markdown

abbrev page : Nodes
page =
    next
      (element (text "head")
        (next (element (text "title") (next (shown (text "T")) finished)) finished))
      (next
        (element (text "p")
          (next (shown (text "a")) (next (void (text "br")) (next (shown (text "b")) finished))))
        finished)

closed : AreClosed page
unfolding is_skipped list_beq
closed = (((tt, tt), tt), ((tt, (refl, (tt, tt))), tt))

what_is_read : all_readable page ≡ 10 ∷ 10 ∷ 10 ∷ 97 ∷ 10 ∷ 98 ∷ 10 ∷ []
unfolding all_readable is_skipped is_block list_beq
what_is_read = refl

handle_all-readable_example : (handle_all (all_events page) new_extractor).parts ≡ all_readable page
handle_all-readable_example = handle_all-readable page closed

-- A style element in the unclosed head is closed.
abbrev rest : List Piece
rest =
    whole (element (text "style") (next (shown (text "p {}")) finished))
    ∷ opened (text "body")
    ∷ whole (shown (text "all the text"))
    ∷ ended (text "body")
    ∷ []

never_ends : NeverEnds rest
unfolding is_skipped list_beq
never_ends = ((tt, tt), (tt, (refl, tt)))

head_is_skipped : is_skipped (text "head") ≡ true
unfolding is_skipped list_beq
head_is_skipped = refl

handle_all-unclosed_example :
    All IsLineBreak (handle_all (starts (text "head") ∷ piece_events rest) new_extractor).parts
handle_all-unclosed_example = handle_all-unclosed (text "head") rest head_is_skipped never_ends

abbrev read : List Segment
read = (some 2, text "two") ∷ []

three_pages : parse_pdf plain_ascii false (none ∷ some (text " two ") ∷ []) ≡ ok read
unfolding parse_pdf strip drop_while
three_pages = refl

parse_pdf-Numbers_example :
    (◌≡◌ false false)
    × Numbers plain_ascii 1 (take max_pages (none ∷ some (text " two ") ∷ [])) read
    × (size read ≤ max_extracted_chars)
parse_pdf-Numbers_example =
    parse_pdf-Numbers plain_ascii false (none ∷ some (text " two ") ∷ []) read three_pages
