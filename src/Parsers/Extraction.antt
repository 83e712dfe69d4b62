-- ===== src/Parsers/Extraction.antt =====
-- The text that `_TextExtractor` makes of a page.
use production_rag.Base.{
  ◌+◌, ◌-◌, ◌<◌, ◌≡◌, refl, sym, ap, ◌∙◌, true, false, List, [], ◌∷◌, ◌++◌, append_assoc,
  append-nil, arith, Text, eqb, Bool-cases, inl, inr, if◌then◌else◌,
}
use production_rag.Parsers.{
  Event, starts, ends, shows, is_skipped, is_block, Extractor, new_extractor, line_if_block, handle,
  handle_all,
}

-- A page whose elements are closed, but for those that have no end tag, like `br`.
mutual
  pub data Node : Type 0 where
    shown : Text → Node
    void : Text → Node
    element : Text → Nodes → Node

  pub data Nodes : Type 0 where
    finished : Nodes
    next : Node → Nodes → Nodes

unfoldable mutual
  pub events : Node → List Event
  events (shown t) = shows t ∷ []
  events (void tag) = starts tag ∷ []
  events (element tag ns) = starts tag ∷ (all_events ns ++ ends tag ∷ [])

  pub all_events : Nodes → List Event
  all_events finished = []
  all_events (next n ns) = events n ++ all_events ns

abbrev pub line : Text → Text
line tag = if is_block tag then 10 ∷ [] else []

-- The line breaks of the blocks in a part that is skipped.
unfoldable mutual
  pub breaks : Node → Text
  breaks (shown t) = []
  breaks (void tag) = line tag
  breaks (element tag ns) =
      if is_skipped tag then all_breaks ns else line tag ++ all_breaks ns ++ line tag

  pub all_breaks : Nodes → Text
  all_breaks finished = []
  all_breaks (next n ns) = breaks n ++ all_breaks ns

-- What a reader sees: the texts outside the skipped elements, and a line break at the start and at
-- the end of a block.
unfoldable mutual
  unfolding all_breaks

  pub readable : Node → Text
  readable (shown t) = t
  readable (void tag) = line tag
  readable (element tag ns) =
      if is_skipped tag then all_breaks ns else line tag ++ all_readable ns ++ line tag

  pub all_readable : Nodes → Text
  all_readable finished = []
  all_readable (next n ns) = readable n ++ all_readable ns

-- No element without an end tag is one that is skipped.
abbrev mutual
  pub IsClosed : Node → Type 0
  IsClosed (shown t) = Unit
  IsClosed (void tag) = is_skipped tag ≡ false
  IsClosed (element tag ns) = AreClosed ns

  pub AreClosed : Nodes → Type 0
  AreClosed finished = Unit
  AreClosed (next n ns) = IsClosed n × AreClosed ns

pub handle_all-append :
    (xs ys : List Event) (e : Extractor) → handle_all (xs ++ ys) e ≡ handle_all ys (handle_all xs e)
unfolding handle_all
handle_all-append [] ys e = refl
handle_all-append (x ∷ xs) ys e = handle_all-append xs ys (handle x e)

-- The extractor after a part of a page whose text is `t`.
abbrev pub with_text : Text → Extractor → Extractor
with_text t e = record e { parts = e.parts ++ t }

with_text-with_text :
    (s t : Text) (e : Extractor) → with_text t (with_text s e) ≡ with_text (s ++ t) e
with_text-with_text s t e = ap (λ (p : Text). record e { parts = p }) (append_assoc e.parts s t)

line_if_block_lem : (tag : Text) (e : Extractor) → line_if_block tag e ≡ with_text (line tag) e
line_if_block_lem tag e = elim (Bool-cases (is_block tag)) [
  | inl block ↦ rw block refl
  | inr other ↦ rw (other, append-nil e.parts) refl
]

abbrev pub deeper : Extractor → Extractor
deeper e = record e { skip_depth = e.skip_depth + 1 }

module _ (tag : Text) (e : Extractor) where
  pub start_skipped : is_skipped tag ≡ true → handle (starts tag) e ≡ deeper e
  unfolding handle
  start_skipped h = rw h refl

  pub start_kept : is_skipped tag ≡ false → handle (starts tag) e ≡ with_text (line tag) e
  unfolding handle
  start_kept h = rw h (line_if_block_lem tag e)

  pub end_kept : is_skipped tag ≡ false → handle (ends tag) e ≡ with_text (line tag) e
  unfolding handle
  end_kept h = rw h (line_if_block_lem tag e)

  end_skipped : is_skipped tag ≡ true → handle (ends tag) (deeper e) ≡ e
  unfolding handle
  end_skipped h =
      let back : e.skip_depth + 1 - 1 ≡ e.skip_depth = omega arith in
      let inside : eqb (e.skip_depth + 1) 0 ≡ false = ground arith in
      rw (h, inside) (ap (λ n. record e { skip_depth = n }) back)

module _ (tag : Text) (ns : Nodes) (x : Text) (e : Extractor) where
  -- The events of an element: its start, its content, its end.
  in_element :
      handle_all (events (element tag ns)) e
      ≡ handle (ends tag) (handle_all (all_events ns) (handle (starts tag) e))
  unfolding events handle_all
  in_element = handle_all-append (all_events ns) (ends tag ∷ []) (handle (starts tag) e)

  hidden :
      is_skipped tag ≡ true
      → handle_all (all_events ns) (deeper e) ≡ with_text x (deeper e)
      → handle_all (events (element tag ns)) e ≡ with_text x e
  hidden h inner =
      in_element
      ∙ ap (λ o. handle (ends tag) (handle_all (all_events ns) o)) (start_skipped tag e h)
      ∙ ap (handle (ends tag)) inner
      ∙ end_skipped tag (with_text x e) h

  wrapped :
      is_skipped tag ≡ false
      → handle_all (all_events ns) (with_text (line tag) e) ≡ with_text x (with_text (line tag) e)
      → handle_all (events (element tag ns)) e ≡ with_text (line tag ++ x ++ line tag) e
  wrapped h inner =
      in_element
      ∙ ap (λ o. handle (ends tag) (handle_all (all_events ns) o)) (start_kept tag e h)
      ∙ ap (handle (ends tag)) inner
      ∙ end_kept tag (with_text x (with_text (line tag) e)) h
      ∙ ap (with_text (line tag)) (with_text-with_text (line tag) x e)
      ∙ with_text-with_text (line tag ++ x) (line tag) e

nothing_added : (e : Extractor) → e ≡ with_text [] e
nothing_added e = ap (λ (p : Text). record e { parts = p }) (sym (append-nil e.parts))

-- In a skipped part only line breaks are added, and the depth is what it was.
mutual
  unfolding handle handle_all events breaks

  pub skipped_part :
      (n : Node) (e : Extractor)
      → IsClosed n
      → 0 < e.skip_depth
      → handle_all (events n) e ≡ with_text (breaks n) e
  skipped_part (shown t) e c h =
      let inside : eqb e.skip_depth 0 ≡ false = ground arith in rw inside (nothing_added e)
  skipped_part (void tag) e c h = rw c (line_if_block_lem tag e)
  skipped_part (element tag ns) e c h = elim (Bool-cases (is_skipped tag)) [
    | inl skip ↦
        rw skip (hidden tag ns (all_breaks ns) e skip (skipped_parts ns (deeper e) c (omega arith)))
    | inr keep ↦
        rw keep
          (wrapped tag ns (all_breaks ns) e keep (skipped_parts ns (with_text (line tag) e) c h))
  ]

  skipped_parts :
      (ns : Nodes) (e : Extractor)
      → AreClosed ns
      → 0 < e.skip_depth
      → handle_all (all_events ns) e ≡ with_text (all_breaks ns) e
  skipped_parts finished e c h = nothing_added e
  skipped_parts (next n ns) e c h =
      handle_all-append (events n) (all_events ns) e
      ∙ ap (handle_all (all_events ns)) (skipped_part n e c.0 h)
      ∙ skipped_parts ns (with_text (breaks n) e) c.1 h
      ∙ with_text-with_text (breaks n) (all_breaks ns) e

mutual
  unfolding handle handle_all events readable

  read_part :
      (n : Node) (e : Extractor)
      → IsClosed n
      → e.skip_depth ≡ 0
      → handle_all (events n) e ≡ with_text (readable n) e
  read_part (shown t) e c h =
      let outside : eqb e.skip_depth 0 ≡ true = ground arith in rw outside refl
  read_part (void tag) e c h = rw c (line_if_block_lem tag e)
  read_part (element tag ns) e c h = elim (Bool-cases (is_skipped tag)) [
    | inl skip ↦
        rw skip (hidden tag ns (all_breaks ns) e skip (skipped_parts ns (deeper e) c (omega arith)))
    | inr keep ↦
        rw keep
          (wrapped tag ns (all_readable ns) e keep (read_parts ns (with_text (line tag) e) c h))
  ]

  read_parts :
      (ns : Nodes) (e : Extractor)
      → AreClosed ns
      → e.skip_depth ≡ 0
      → handle_all (all_events ns) e ≡ with_text (all_readable ns) e
  read_parts finished e c h = nothing_added e
  read_parts (next n ns) e c h =
      handle_all-append (events n) (all_events ns) e
      ∙ ap (handle_all (all_events ns)) (read_part n e c.0 h)
      ∙ read_parts ns (with_text (readable n) e) c.1 h
      ∙ with_text-with_text (readable n) (all_readable ns) e

-- From a page whose elements are closed the extractor takes exactly the text that a reader sees:
-- every text outside the skipped elements, however deep, in order, with line breaks around blocks;
-- a skipped element leaves the line breaks of its blocks only.
pub handle_all-readable :
    (page : Nodes)
    → AreClosed page
    → (handle_all (all_events page) new_extractor).parts ≡ all_readable page
handle_all-readable page c = ap (λ (e : Extractor). e.parts) (read_parts page new_extractor c refl)
