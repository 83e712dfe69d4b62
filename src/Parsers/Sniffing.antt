-- ===== src/Parsers/Sniffing.antt =====
-- Which type an upload is given.
use production_rag.Base.{
  ℕ, ◌≡◌, refl, sym, ◌∙◌, ◌↔◌, ◌⊎◌, inl, inr, Bool, true, false, ◌||◌, Option, none, some, List, [],
  ◌∷◌, arith, Text, text, ok, >>=-eq-ok, >>-eq-ok, raise_if-false, not-false, ok-injective, lookup,
  nat_eq, list_eq, eq_iff, ◌==◌, strip, take, any, Bool-cases, if◌then◌else◌,
}
use production_rag.Parsers.{
  Kind, pdf, html, markdown, plain, Library, content_types, extensions, extension, kind_of,
  check_extension, declared_type, check_type, check_declared, sniff, starts_with,
  rejected_signatures, decoded_kind,
}
use production_rag.Parsers.Signs.{
  StartsWith, starts_with_iff, IsForeign, any_iff, no_test, Agree, agrees_iff, check_extension_iff,
  FitsExtension, FitsExtension-iff, IsNamed, IsNamed-iff,
}

check_type_iff :
    (lib : Library) (name : Text) (o : Option Kind) (kind : Kind)
    → (check_type lib name o kind ≡ ok tt) ↔ ((k : Kind) × (o ≡ some k) × Agree k kind)
unfolding check_type
check_type_iff lib name none kind = ((λ h. cc h), (λ (k, e, h). cc e))
check_type_iff lib name (some l) kind = (
  (λ h. (l, refl, (agrees_iff l kind).0 (not-false _ (raise_if-false _ _ h)))),
  (λ (k, e, h). let same : l ≡ k = cc e in rw (same, (agrees_iff k kind).1 h) refl),
)

module _ (lib : Library) where
  -- A type that the uploader declares, without parameters, is one of the four, and does not
  -- contradict the content's.
  abbrev pub Declares : Option Text → Kind → Type 0
  Declares none kind = Unit
  Declares (some []) kind = Unit
  Declares (some (c ∷ s)) kind =
      (k : Kind) × IsNamed k (lib.lower (strip lib.unicode.is_space (lib.before_semicolon (c ∷ s))))
      × Agree k kind

  check_declared_iff :
      (declared : Option Text) (kind : Kind)
      → (check_declared lib declared kind ≡ ok tt) ↔ Declares declared kind
  unfolding check_declared
  check_declared_iff none kind = ((λ h. tt), (λ h. refl))
  check_declared_iff (some []) kind = ((λ h. tt), (λ h. refl))
  check_declared_iff (some (c ∷ s)) kind =
      let t = declared_type lib (c ∷ s) in
      let checks = check_type_iff lib t (lookup t content_types) kind in
      (
        (λ h. let (k, e, a) = checks.0 h in (k, (IsNamed-iff t k).0 e, a)),
        (λ (k, n, a). checks.1 (k, (IsNamed-iff t k).1 n, a)),
      )

  abbrev pub IsMarkdownName : Text → Type 0
  IsMarkdownName filename =
      (lib.lower (lib.suffix filename) ≡ text ".md")
      ⊎ (lib.lower (lib.suffix filename) ≡ text ".markdown")

  -- The bytes are text: not a PDF, not of a foreign format, not an HTML page, but UTF-8.
  pub record IsText (content : List ℕ) : Type 0 where
    pub no_pdf : ¬ StartsWith (text "%PDF-") content
    pub not_foreign : ¬ IsForeign content
    pub no_page : lib.is_html_head (take 1024 content) ≡ false
    pub decodes : (t : Text) × (lib.decode content ≡ some t)

  -- What bytes and a name of each type look like.
  abbrev pub Shows : List ℕ → Text → Kind → Type 0
  Shows content filename pdf = StartsWith (text "%PDF-") content
  Shows content filename html =
      (¬ StartsWith (text "%PDF-") content)
      × (¬ IsForeign content)
      × (lib.is_html_head (take 1024 content) ≡ true)
  Shows content filename markdown = IsText content × IsMarkdownName filename
  Shows content filename plain = IsText content × (¬ IsMarkdownName filename)

  -- The test for a Markdown name.
  abbrev is_markdown : Text → Bool
  is_markdown ext = ext == text ".md" || ext == text ".markdown"

  is_markdown_iff :
      (ext : Text) → (is_markdown ext ≡ true) ↔ ((ext ≡ text ".md") ⊎ (ext ≡ text ".markdown"))
  is_markdown_iff ext = (
    (λ h. elim (Bool-cases (ext == text ".md")) [
      | inl short ↦ inl ((eq_iff ext (text ".md")).0 short)
      | inr other ↦ inr ((eq_iff ext (text ".markdown")).0 (rw other at h))
    ]),
    (λ m. elim m [
      | inl e ↦ let short = (eq_iff ext (text ".md")).1 e in rw short refl
      | inr e ↦ let long = (eq_iff ext (text ".markdown")).1 e in ground (arith, long)
    ]),
  )

  module _ (content : List ℕ) (filename : Text) where
    Shows-to : (a b : Kind) → a ≡ b → Shows content filename a → Shows content filename b
    Shows-to a b e h = rw (sym e) h

    text-Shows :
        IsText content
        → (kind : Kind) → (if is_markdown (extension lib filename) then markdown else plain) ≡ kind
        → Shows content filename kind
    text-Shows is kind e = elim (Bool-cases (is_markdown (extension lib filename))) [
      | inl md ↦
          Shows-to markdown kind (rw md at e) (is, (is_markdown_iff (extension lib filename)).0 md)
      | inr other ↦
          Shows-to plain kind (rw other at e)
            (is, λ m. cc (other, (is_markdown_iff (extension lib filename)).1 m))
    ]

    kind_of-Shows :
        (kind : Kind) → kind_of lib content filename ≡ ok kind → Shows content filename kind
    unfolding kind_of
    kind_of-Shows kind e =
        let is_pdf = starts_with_iff (text "%PDF-") content in
        let is_foreign = any_iff content rejected_signatures in
        elim (Bool-cases (starts_with (text "%PDF-") content)) [
          | inl p ↦ Shows-to pdf kind (ok-injective (rw p at e)) (is_pdf.0 p)
          | inr p ↦ elim (Bool-cases (any (λ s. starts_with s content) rejected_signatures)) [
            | inl f ↦ cc (rw (p, f) at e)
            | inr f ↦ elim (Bool-cases (lib.is_html_head (take 1024 content))) [
              | inl h ↦
                  Shows-to html kind (ok-injective (rw (p, f, h) at e))
                    ((λ q. cc (p, is_pdf.1 q)), (λ q. cc (f, is_foreign.1 q)), h)
              | inr h ↦ decoded (lib.decode content) refl (rw (p, f, h) at e) (λ d. record {
                no_pdf = λ q. cc (p, is_pdf.1 q);
                not_foreign = λ q. cc (f, is_foreign.1 q);
                no_page = h;
                decodes = d;
              })
            ]
          ]
        ]
      where
        decoded :
            (o : Option Text)
            → lib.decode content ≡ o
            → decoded_kind lib filename o ≡ ok kind
            → ((t : Text) × (lib.decode content ≡ some t) → IsText content)
            → Shows content filename kind
        decoded none d k is = cc k
        decoded (some t) d k is = text-Shows (is (t, d)) kind (ok-injective k)

    text_kind_of :
        IsText content
        → kind_of lib content filename
          ≡ ok (if is_markdown (extension lib filename) then markdown else plain)
    unfolding kind_of
    text_kind_of is =
        let p = no_test _ (λ h. is.no_pdf ((starts_with_iff (text "%PDF-") content).0 h)) in
        let f = no_test _ (λ h. is.not_foreign ((any_iff content rejected_signatures).0 h)) in
        rw (p, f, is.no_page, is.decodes.1) refl

    Shows-kind_of :
        (kind : Kind) → Shows content filename kind → kind_of lib content filename ≡ ok kind
    unfolding kind_of
    Shows-kind_of pdf h = let p = (starts_with_iff (text "%PDF-") content).1 h in rw p refl
    Shows-kind_of html (no_pdf, not_foreign, page) =
        let p = no_test _ (λ h. no_pdf ((starts_with_iff (text "%PDF-") content).0 h)) in
        let f = no_test _ (λ h. not_foreign ((any_iff content rejected_signatures).0 h)) in
        rw (p, f, page) refl
    Shows-kind_of markdown (is, md) =
        let m = (is_markdown_iff (extension lib filename)).1 md in text_kind_of is ∙ rw m refl
    Shows-kind_of plain (is, other) =
        let m = no_test _ (λ h. other ((is_markdown_iff (extension lib filename)).0 h)) in
        text_kind_of is ∙ rw m refl

  -- An upload gets a type exactly when its bytes show that type and neither the extension of its
  -- name nor the type that the uploader declares contradicts it. A PDF starts with %PDF-; what
  -- starts like an archive, an executable or an image gets none; then comes what has the head of
  -- an HTML page; the rest must be UTF-8 and is Markdown or plain text by its extension. Markdown
  -- and plain text do not contradict each other. What is declared must be one of the four.
  pub sniff_iff :
      (content : List ℕ) (filename : Text) (declared : Option Text) (kind : Kind)
      → (sniff lib content filename declared ≡ ok kind) ↔ (
          Shows content filename kind
          × FitsExtension (lib.lower (lib.suffix filename)) kind
          × Declares declared kind)
  unfolding sniff
  sniff_iff content filename declared kind =
      let fits = FitsExtension-iff (extension lib filename) kind in
      let checked = check_extension_iff lib (lookup (extension lib filename) extensions) kind in
      (
        (λ e.
            let (k, e0, e1) = >>=-eq-ok (kind_of lib content filename) _ e in
            let (x, e2, e3) =
              >>-eq-ok (check_extension lib (lookup (extension lib filename) extensions) k) _ e1 in
            let (y, e4, e5) = >>-eq-ok (check_declared lib declared k) _ e3 in
            let same : k ≡ kind = ok-injective e5 in
            (
              kind_of-Shows content filename kind (rw (← same) e0),
              fits.0 (checked.0 (rw (← same) e2)),
              (check_declared_iff declared kind).0 (rw (← same) e4),
            )),
        (λ (k, f, d).
            rw
              (
                Shows-kind_of content filename kind k,
                checked.1 (fits.1 f),
                (check_declared_iff declared kind).1 d,
              )
              refl),
      )
