-- ===== src/Parsers/Signs.antt =====
-- What the signatures, the extensions and the names of types in parsers.py mean.
use production_rag.Base.{
  ℕ, ◌≡◌, refl, sym, ap, ◌↔◌, inl, inr, Bool, true, false, Option, none, some, List, [], ◌∷◌, ◌++◌,
  arith, Text, text, ok, raise_if-false, not-false, lookup, nat_eq, list_eq, eq_iff, ◌==◌, any, In,
  In_of_lookup, All, Bool-cases, Dict, list_beq,
}
use production_rag.Parsers.{
  Kind, pdf, html, markdown, plain, agrees, Library, content_types, extensions, check_extension,
  starts_with,
}

abbrev pub StartsWith : List ℕ → List ℕ → Type 0
StartsWith prefix bytes = (rest : List ℕ) × (bytes ≡ prefix ++ rest)

pub starts_with_iff :
    (prefix bytes : List ℕ) → (starts_with prefix bytes ≡ true) ↔ StartsWith prefix bytes
unfolding starts_with
starts_with_iff [] bytes = ((λ h. (bytes, refl)), (λ h. refl))
starts_with_iff (p ∷ ps) [] = ((λ h. cc h), (λ (rest, e). cc e))
starts_with_iff (p ∷ ps) (b ∷ bs) = (
  (λ h.
      let (rest, e) = (starts_with_iff ps bs).0 (ground arith) in
      let same : p ≡ b = ground arith in (rest, rw (same, e) refl)),
  (λ (rest, e).
      let later = (starts_with_iff ps bs).1 (rest, cc e) in
      let same : p ≡ b = cc e in ground (arith, later, same)),
)

-- The first bytes of a ZIP archive, of executables for Windows and Unix, of PNG, GIF and JPEG.
abbrev pub IsForeign : List ℕ → Type 0
IsForeign bytes =
    (signature : List ℕ) × In signature (
      text "PK\u{3}\u{4}"
      ∷ text "MZ"
      ∷ (127 ∷ text "ELF")
      ∷ (137 ∷ text "PNG")
      ∷ text "GIF8"
      ∷ (255 ∷ 216 ∷ 255 ∷ [])
      ∷ [])
    × StartsWith signature bytes

pub any_iff :
    (bytes : List ℕ) (ss : List (List ℕ))
    → (any (λ s. starts_with s bytes) ss ≡ true) ↔ ((s : List ℕ) × In s ss × StartsWith s bytes)
any_iff bytes [] = ((λ h. cc h), (λ (s, i, w). absurd i))
any_iff bytes (s ∷ ss) = (
  (λ h. elim (Bool-cases (starts_with s bytes)) [
    | inl here ↦ (s, inl refl, (starts_with_iff s bytes).0 here)
    | inr other ↦ let (r, i, w) = (any_iff bytes ss).0 (ground arith) in (r, inr i, w)
  ]),
  (λ (r, i, w). elim i [
    | inl e ↦ let here = (starts_with_iff s bytes).1 (rw e at w) in rw here refl
    | inr j ↦ let later = (any_iff bytes ss).1 (r, j, w) in ground (arith, later)
  ]),
)

pub no_test : (b : Bool) → ¬ (b ≡ true) → b ≡ false
no_test true h = absurd (h refl)
no_test false h = refl

-- A type contradicts another, unless they are the same or both are text.
abbrev pub Agree : Kind → Kind → Type 0
Agree pdf pdf = Unit
Agree html html = Unit
Agree markdown markdown = Unit
Agree markdown plain = Unit
Agree plain markdown = Unit
Agree plain plain = Unit
Agree a b = ⊥

pub agrees_iff : (a b : Kind) → (agrees a b ≡ true) ↔ Agree a b
unfolding list_beq
agrees_iff pdf pdf = ((λ h. tt), (λ h. refl))
agrees_iff pdf html = ((λ h. cc h), (λ h. absurd h))
agrees_iff pdf markdown = ((λ h. cc h), (λ h. absurd h))
agrees_iff pdf plain = ((λ h. cc h), (λ h. absurd h))
agrees_iff html pdf = ((λ h. cc h), (λ h. absurd h))
agrees_iff html html = ((λ h. tt), (λ h. refl))
agrees_iff html markdown = ((λ h. cc h), (λ h. absurd h))
agrees_iff html plain = ((λ h. cc h), (λ h. absurd h))
agrees_iff markdown pdf = ((λ h. cc h), (λ h. absurd h))
agrees_iff markdown html = ((λ h. cc h), (λ h. absurd h))
agrees_iff markdown markdown = ((λ h. tt), (λ h. refl))
agrees_iff markdown plain = ((λ h. tt), (λ h. refl))
agrees_iff plain pdf = ((λ h. cc h), (λ h. absurd h))
agrees_iff plain html = ((λ h. cc h), (λ h. absurd h))
agrees_iff plain markdown = ((λ h. tt), (λ h. refl))
agrees_iff plain plain = ((λ h. tt), (λ h. refl))

-- No extension of the six contradicts the type.
abbrev pub FitsExtension : Text → Kind → Type 0
FitsExtension ext kind =
    All (λ (entry : Text × Kind). ext ≡ entry.0 → Agree entry.1 kind)
      ((text ".pdf", pdf)
        ∷ (text ".html", html)
        ∷ (text ".htm", html)
        ∷ (text ".md", markdown)
        ∷ (text ".markdown", markdown)
        ∷ (text ".txt", plain)
        ∷ [])

-- The name of the type.
abbrev pub IsNamed : Kind → Text → Type 0
IsNamed pdf t = t ≡ text "application/pdf"
IsNamed html t = t ≡ text "text/html"
IsNamed markdown t = t ≡ text "text/markdown"
IsNamed plain t = t ≡ text "text/plain"

pub Fits : Option Kind → Kind → Type 0
Fits none kind = Unit
Fits (some k) kind = Agree k kind

pub check_extension_iff :
    (lib : Library) (o : Option Kind) (kind : Kind)
    → (check_extension lib o kind ≡ ok tt) ↔ Fits o kind
unfolding check_extension Fits
check_extension_iff lib none kind = ((λ h. tt), (λ h. refl))
check_extension_iff lib (some k) kind = (
  (λ h. (agrees_iff k kind).0 (not-false _ (raise_if-false _ _ h))),
  (λ h. rw ((agrees_iff k kind).1 h) refl),
)

-- What the first entry of a table says, every entry does, if there is one for each key.
Fits-All :
    (ext : Text) (kind : Kind) (d : Dict Text Kind)
    → All (λ (entry : Text × Kind). ext ≡ entry.0 → Agree entry.1 kind) d
    → Fits (lookup ext d) kind
unfolding lookup Fits
Fits-All ext kind [] h = tt
Fits-All ext kind ((key, k) ∷ d) h = elim (Bool-cases (key == ext)) [
  | inl here ↦ rw here (h.0 (sym ((eq_iff key ext).0 here)))
  | inr other ↦ rw other (Fits-All ext kind d h.1)
]

pub FitsExtension-iff :
    (ext : Text) (kind : Kind) → Fits (lookup ext extensions) kind ↔ FitsExtension ext kind
unfolding lookup list_beq Fits
FitsExtension-iff ext kind = (
  (λ f. (
    (λ e. rw e at f),
    (
      (λ e. rw e at f),
      ((λ e. rw e at f), ((λ e. rw e at f), ((λ e. rw e at f), ((λ e. rw e at f), tt)))),
    ),
  )),
  Fits-All ext kind extensions,
)

IsNamed-of_table : (t : Text) (k : Kind) → In (t, k) content_types → IsNamed k t
IsNamed-of_table t k i = elim i [
  | inl e ↦ to k pdf (ap (λ (p : Text × Kind). p.1) e) (ap (λ (p : Text × Kind). p.0) e)
  | inr (inl e) ↦ to k html (ap (λ (p : Text × Kind). p.1) e) (ap (λ (p : Text × Kind). p.0) e)
  | inr (inr (inl e)) ↦
      to k markdown (ap (λ (p : Text × Kind). p.1) e) (ap (λ (p : Text × Kind). p.0) e)
  | inr (inr (inr (inl e))) ↦
      to k plain (ap (λ (p : Text × Kind). p.1) e) (ap (λ (p : Text × Kind). p.0) e)
  | inr (inr (inr (inr e))) ↦ absurd e
]
  where
    to : (a b : Kind) → a ≡ b → IsNamed b t → IsNamed a t
    to a b e h = rw e h

table-of_IsNamed : (t : Text) (k : Kind) → IsNamed k t → lookup t content_types ≡ some k
unfolding lookup list_beq
table-of_IsNamed t pdf e = rw e refl
table-of_IsNamed t html e = rw e refl
table-of_IsNamed t markdown e = rw e refl
table-of_IsNamed t plain e = rw e refl

pub IsNamed-iff : (t : Text) (k : Kind) → (lookup t content_types ≡ some k) ↔ IsNamed k t
IsNamed-iff t k =
    (λ h. IsNamed-of_table t k (In_of_lookup t k content_types h), table-of_IsNamed t k)
