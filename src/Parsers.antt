-- ===== src/Parsers.antt =====
-- parsers.py: the type of an upload, and the text of a page.
pub mod Signs
pub mod Sniffing
pub mod Extraction
pub mod Unclosed
pub mod Pages
mod Tests
use production_rag.Base.{
  ℕ, zero, suc, ◌+◌, ◌-◌, Bool, true, false, not, ◌&&◌, ◌||◌, Option, none, some, List, [], ◌∷◌,
  ◌++◌, map, Text, text, Unicode, strip, is_empty, length, take, any, contains, leb, ltb, eqb, ◌==◌,
  nat_eq, list_eq, if◌then◌else◌, Result, ok, err, ◌>>=◌, ◌>>◌, raise_if, Dict, lookup,
}
use production_rag.Permissions.{ValueError, value_error}

pub data Kind : Type 0 where
  pdf html markdown plain : Kind

-- PDF, HTML, MARKDOWN, TEXT
abbrev pub name_of : Kind → Text
name_of pdf = text "application/pdf"
name_of html = text "text/html"
name_of markdown = text "text/markdown"
name_of plain = text "text/plain"

abbrev pub extensions : Dict Text Kind
extensions =
    (text ".pdf", pdf)
    ∷ (text ".html", html)
    ∷ (text ".htm", html)
    ∷ (text ".md", markdown)
    ∷ (text ".markdown", markdown)
    ∷ (text ".txt", plain)
    ∷ []

abbrev pub content_types : Dict Text Kind
content_types =
    (name_of pdf, pdf)
    ∷ (name_of html, html)
    ∷ (name_of markdown, markdown)
    ∷ (name_of plain, plain)
    ∷ []

-- The first bytes of archives, executables, images and Office files.
abbrev pub rejected_signatures : List (List ℕ)
rejected_signatures =
    (80 ∷ 75 ∷ 3 ∷ 4 ∷ [])
    ∷ (77 ∷ 90 ∷ [])
    ∷ (127 ∷ 69 ∷ 76 ∷ 70 ∷ [])
    ∷ (137 ∷ 80 ∷ 78 ∷ 71 ∷ [])
    ∷ (71 ∷ 73 ∷ 70 ∷ 56 ∷ [])
    ∷ (255 ∷ 216 ∷ 255 ∷ [])
    ∷ []

abbrev pub max_pages : ℕ
max_pages = 500

abbrev pub max_extracted_chars : ℕ
max_extracted_chars = 5_000_000

abbrev pub Segment : Type 0
Segment = Option ℕ × Text

pub record ParsedDocument : Type 0 where
  pub content_type : Kind
  pub segments : List Segment

-- How the child process ends: it runs out of time, fails with a reason, or prints segments.
pub data Sandboxed : Type 0 where
  timed_out : Sandboxed
  failed : Text → Sandboxed
  printed : List Segment → Sandboxed

-- The standard library: strict UTF-8, `Path(…).suffix`, `str.lower`, `split(";")[0]`, the pattern of
-- an HTML head, and the child process with its JSON output.
pub record Library : Type 0 where
  pub unicode : Unicode
  pub decode : List ℕ → Option Text
  pub suffix : Text → Text
  pub lower : Text → Text
  pub before_semicolon : Text → Text
  pub is_html_head : List ℕ → Bool
  pub sandbox : Kind → List ℕ → Sandboxed

unfoldable pub starts_with : List ℕ → List ℕ → Bool
starts_with [] s = true
starts_with (p ∷ ps) [] = false
starts_with (p ∷ ps) (c ∷ s) = eqb p c && starts_with ps s

abbrev pub unsupported {ℓ} : {A : Type ℓ} → Text → Result ValueError A
unsupported message = err (value_error message)

abbrev pub complaint : Bool → Text → Result ValueError (Unit {0})
complaint test message = raise_if test (value_error message)

abbrev pub is_textual : Kind → Bool
is_textual plain = true
is_textual markdown = true
is_textual k = false

abbrev pub same_kind : Kind → Kind → Bool
same_kind a b = name_of a == name_of b

-- `a != kind and not {a, kind} <= textual`, negated.
abbrev pub agrees : Kind → Kind → Bool
agrees a kind = same_kind a kind || (is_textual a && is_textual kind)

abbrev pub is_given : Option Text → Bool
is_given none = false
is_given (some s) = not (is_empty s)

module _ (lib : Library) where
  abbrev pub extension : Text → Text
  extension filename = lib.lower (lib.suffix filename)

  abbrev pub text_kind : Text → Kind
  text_kind filename =
      if extension filename == text ".md" || extension filename == text ".markdown"
      then markdown
      else plain

  abbrev pub decoded_kind : Text → Option Text → Result ValueError Kind
  decoded_kind filename none = unsupported (text "text documents must be valid UTF-8")
  decoded_kind filename (some t) = ok (text_kind filename)

  -- The kind that the bytes show.
  unfoldable pub kind_of : List ℕ → Text → Result ValueError Kind
  kind_of content filename =
      if starts_with (text "%PDF-") content
      then ok pdf
      else if any (λ s. starts_with s content) rejected_signatures
      then unsupported (text "unsupported file type")
      else if lib.is_html_head (take 1024 content)
      then ok html
      else decoded_kind filename (lib.decode content)

  unfoldable pub check_extension : Option Kind → Kind → Result ValueError (Unit {0})
  check_extension none kind = ok tt
  check_extension (some k) kind =
      complaint (not (agrees k kind))
        (text "file extension does not match its " ++ name_of kind ++ text " content")

  abbrev pub declared_type : Text → Text
  declared_type declared = lib.lower (strip lib.unicode.is_space (lib.before_semicolon declared))

  unfoldable pub check_type : Text → Option Kind → Kind → Result ValueError (Unit {0})
  check_type name none kind = unsupported (text "unsupported content type " ++ name)
  check_type name (some k) kind =
      complaint (not (agrees k kind)) (text "declared content type does not match the content")

  -- `if declared:`
  unfoldable pub check_declared : Option Text → Kind → Result ValueError (Unit {0})
  unfolding check_type
  check_declared none kind = ok tt
  check_declared (some []) kind = ok tt
  check_declared (some (c ∷ s)) kind =
      check_type (declared_type (c ∷ s)) (lookup (declared_type (c ∷ s)) content_types) kind

  unfoldable pub sniff : List ℕ → Text → Option Text → Result ValueError Kind
  unfolding kind_of check_extension check_declared
  sniff content filename declared = do
    kind ← kind_of content filename
    check_extension (lookup (extension filename) extensions) kind
    check_declared declared kind
    ok kind

  abbrev pub run_sandboxed : Sandboxed → Result ValueError (List Segment)
  run_sandboxed timed_out = unsupported (text "document parsing timed out")
  run_sandboxed (failed reason) = unsupported (text "could not parse document: " ++ take 200 reason)
  run_sandboxed (printed segments) = ok segments

  abbrev pub whole_text : Option Text → Result ValueError (List Segment)
  whole_text none = unsupported (text "text documents must be valid UTF-8")
  whole_text (some t) = ok ((none, t) ∷ [])

  abbrev pub segments_of : Kind → List ℕ → Result ValueError (List Segment)
  segments_of kind content =
      if is_textual kind
      then whole_text (lib.decode content)
      else run_sandboxed (lib.sandbox kind content)

  unfoldable pub parse : List ℕ → Text → Option Text → Result ValueError ParsedDocument
  unfolding sniff
  parse content filename declared = do
    kind ← sniff content filename declared
    segments ← segments_of kind content
    ok (record { content_type = kind; segments = segments })

-- What `HTMLParser` calls, in the order of the page.
pub data Event : Type 0 where
  starts ends : Text → Event
  shows : Text → Event

unfoldable pub is_skipped : Text → Bool
is_skipped tag =
    contains
      (text "script"
        ∷ text "style"
        ∷ text "noscript"
        ∷ text "template"
        ∷ text "svg"
        ∷ text "head"
        ∷ [])
      tag

unfoldable pub is_block : Text → Bool
is_block tag =
    contains
      (text "p"
        ∷ text "div"
        ∷ text "br"
        ∷ text "li"
        ∷ text "tr"
        ∷ text "h1"
        ∷ text "h2"
        ∷ text "h3"
        ∷ text "h4"
        ∷ text "h5"
        ∷ text "h6"
        ∷ text "section"
        ∷ text "title"
        ∷ [])
      tag

-- `_TextExtractor`: `"".join(parts)`, and `_skip_depth`.
pub record Extractor : Type 0 where
  pub parts : Text
  pub skip_depth : ℕ

abbrev pub new_extractor : Extractor
new_extractor = record { parts = []; skip_depth = 0 }

abbrev pub add_part : Text → Extractor → Extractor
add_part t e = record e { parts = e.parts ++ t }

abbrev pub line_if_block : Text → Extractor → Extractor
line_if_block tag e = if is_block tag then add_part (10 ∷ []) e else e

unfoldable pub handle : Event → Extractor → Extractor
handle (starts tag) e =
    if is_skipped tag then record e { skip_depth = e.skip_depth + 1 } else line_if_block tag e
handle (ends tag) e =
    if is_skipped tag && not (eqb e.skip_depth 0)
    then record e { skip_depth = e.skip_depth - 1 }
    else line_if_block tag e
handle (shows t) e = if eqb e.skip_depth 0 then add_part t e else e

unfoldable pub handle_all : List Event → Extractor → Extractor
handle_all [] e = e
handle_all (x ∷ xs) e = handle_all xs (handle x e)

-- `parse_html`, from the events of the page; the pattern makes runs of blank lines one.
abbrev pub parse_html : Unicode → (Text → Text) → List Event → List Segment
parse_html u squeeze_lines events =
    (
      none,
      take max_extracted_chars
          (strip u.is_space (squeeze_lines (handle_all events new_extractor).parts)),
    )
    ∷ []

-- The loop of `parse_pdf`, over the texts that pypdf finds, `none` where it finds none.
abbrev pub page_text : Unicode → Option Text → Text
page_text u none = []
page_text u (some t) = strip u.is_space t

unfoldable pub read_pages : Unicode → ℕ → ℕ → List (Option Text) → Result ValueError (List Segment)
read_pages u number total [] = ok []
read_pages u number total (page ∷ pages) =
    let found = page_text u page in
    let rest = read_pages u (number + 1) (total + length found) pages in
    if ltb max_extracted_chars (total + length found)
    then unsupported (text "document has too much text")
    else if is_empty found
    then rest
    else do more ← rest; ok ((some number, found) ∷ more)

unfoldable pub parse_pdf : Unicode → Bool → List (Option Text) → Result ValueError (List Segment)
unfolding read_pages
parse_pdf u is_encrypted pages =
    if is_encrypted
    then unsupported (text "encrypted PDFs are not supported")
    else read_pages u 1 0 (take max_pages pages)
