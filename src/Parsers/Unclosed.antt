-- ===== src/Parsers/Unclosed.antt =====
-- What the extractor makes of a page that leaves out the end tag of a skipped element.
use production_rag.Base.{
  ◌<◌, ◌≡◌, refl, sym, ap, ◌∙◌, true, false, List, [], ◌∷◌, ◌++◌, append_assoc, append-nil, arith,
  Text, Bool-cases, inl, inr, ℕ, All,
}
use production_rag.Parsers.{
  Event, starts, ends, is_skipped, is_block, Extractor, new_extractor, handle, handle_all,
}
use production_rag.Parsers.Extraction.{
  Node, Nodes, shown, void, element, finished, next, events, line, breaks, all_breaks, IsClosed,
  handle_all-append, with_text, deeper, start_skipped, start_kept, end_kept, skipped_part,
}

-- What can follow the start of a skipped element that never ends: starts of elements, ends of ones
-- that are not skipped, and whole nodes, skipped or not.
pub data Piece : Type 0 where
  opened ended : Text → Piece
  whole : Node → Piece

unfoldable pub piece_events : List Piece → List Event
unfolding events
piece_events [] = []
piece_events (opened tag ∷ ps) = starts tag ∷ piece_events ps
piece_events (ended tag ∷ ps) = ends tag ∷ piece_events ps
piece_events (whole n ∷ ps) = events n ++ piece_events ps

-- No skipped element ends but those of the whole nodes.
abbrev pub NeverEnds : List Piece → Type 0
NeverEnds [] = Unit
NeverEnds (opened tag ∷ ps) = NeverEnds ps
NeverEnds (ended tag ∷ ps) = (is_skipped tag ≡ false) × NeverEnds ps
NeverEnds (whole n ∷ ps) = IsClosed n × NeverEnds ps

abbrev pub IsLineBreak : ℕ → Type 0
IsLineBreak c = c ≡ 10

All-append : (xs ys : Text) → All IsLineBreak xs → All IsLineBreak ys → All IsLineBreak (xs ++ ys)
All-append [] ys h k = k
All-append (x ∷ xs) ys h k = (h.0, All-append xs ys h.1 k)

line-All : (tag : Text) → All IsLineBreak (line tag)
line-All tag = elim (Bool-cases (is_block tag)) [
  | inl block ↦ rw block (refl, tt)
  | inr other ↦ rw other tt
]

mutual
  unfolding breaks

  breaks-All : (n : Node) → All IsLineBreak (breaks n)
  breaks-All (shown t) = tt
  breaks-All (void tag) = line-All tag
  breaks-All (element tag ns) = elim (Bool-cases (is_skipped tag)) [
    | inl skip ↦ rw skip (all_breaks-All ns)
    | inr keep ↦ rw keep (
        All-append (line tag ++ all_breaks ns) (line tag)
          (All-append (line tag) (all_breaks ns) (line-All tag) (all_breaks-All ns)) (line-All tag))
  ]

  all_breaks-All : (ns : Nodes) → All IsLineBreak (all_breaks ns)
  all_breaks-All finished = tt
  all_breaks-All (next n ns) =
      All-append (breaks n) (all_breaks ns) (breaks-All n) (all_breaks-All ns)

-- While an element is skipped, the extractor adds nothing but line breaks and stays inside.
data AddsBreaks (e after : Extractor) : Type 0 where
  adds :
      (x : Text)
      → after.parts ≡ e.parts ++ x
      → All IsLineBreak x
      → 0 < after.skip_depth
      → AddsBreaks e after

AddsBreaks-trans : (a b c : Extractor) → AddsBreaks a b → AddsBreaks b c → AddsBreaks a c
AddsBreaks-trans a b c (adds x p h d) (adds y q k f) =
    adds (x ++ y) (q ∙ ap (λ t. t ++ y) p ∙ append_assoc a.parts x y) (All-append x y h k) f

-- The first event and what it adds, and then the rest.
first_adds :
    (x : Event) (es : List Event) (e o : Extractor)
    → handle x e ≡ o
    → AddsBreaks e o
    → AddsBreaks o (handle_all es o)
    → AddsBreaks e (handle_all (x ∷ es) e)
first_adds x es e o q first rest =
    same (handle_all (x ∷ es) e) (unfold handle_all in ap (handle_all es) q)
      (AddsBreaks-trans e o (handle_all es o) first rest)
  where
    same :
        (after : Extractor)
        → after ≡ handle_all es o
        → AddsBreaks e (handle_all es o)
        → AddsBreaks e after
    same after r h = rw r h

piece-AddsBreaks :
    (ps : List Piece) (e : Extractor)
    → NeverEnds ps
    → 0 < e.skip_depth
    → AddsBreaks e (handle_all (piece_events ps) e)
unfolding piece_events handle_all
piece-AddsBreaks [] e h d = adds [] (sym (append-nil e.parts)) tt d
piece-AddsBreaks (opened tag ∷ ps) e h d = elim (Bool-cases (is_skipped tag)) [
  | inl skip ↦
      first_adds (starts tag) (piece_events ps) e (deeper e) (start_skipped tag e skip)
        (adds [] (sym (append-nil e.parts)) tt (omega arith))
        (piece-AddsBreaks ps (deeper e) h (omega arith))
  | inr keep ↦
      first_adds (starts tag) (piece_events ps) e (with_text (line tag) e) (start_kept tag e keep)
        (adds (line tag) refl (line-All tag) d) (piece-AddsBreaks ps (with_text (line tag) e) h d)
]
piece-AddsBreaks (ended tag ∷ ps) e h d =
    first_adds (ends tag) (piece_events ps) e (with_text (line tag) e) (end_kept tag e h.0)
      (adds (line tag) refl (line-All tag) d) (piece-AddsBreaks ps (with_text (line tag) e) h.1 d)
piece-AddsBreaks (whole n ∷ ps) e h d =
    rw (handle_all-append (events n) (piece_events ps) e, skipped_part n e h.0 d)
      (AddsBreaks-trans e (with_text (breaks n) e) _ (adds (breaks n) refl (breaks-All n) d)
        (piece-AddsBreaks ps (with_text (breaks n) e) h.1 d))

-- Of a page that starts with a skipped element whose end tag is left out, as HTML allows for
-- `head`, nothing but line breaks is extracted, if what follows are starts of elements, ends of
-- elements that are not skipped, and nodes, in which skipped elements may stand but are closed.
pub handle_all-unclosed :
    (tag : Text) (ps : List Piece)
    → is_skipped tag ≡ true
    → NeverEnds ps
    → All IsLineBreak (handle_all (starts tag ∷ piece_events ps) new_extractor).parts
handle_all-unclosed tag ps skip h = only_breaks _ (
    first_adds (starts tag) (piece_events ps) new_extractor (deeper new_extractor)
      (start_skipped tag new_extractor skip) (adds [] refl tt (omega arith))
      (piece-AddsBreaks ps (deeper new_extractor) h (omega arith)))
  where
    only_breaks : (after : Extractor) → AddsBreaks new_extractor after → All IsLineBreak after.parts
    only_breaks after (adds x p k d) = rw p k
