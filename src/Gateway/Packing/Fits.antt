-- ===== src/Gateway/Packing/Fits.antt =====
-- What a provider is given fits the budget, and is as much as fits.
use production_rag.Base.{
  ℕ, ◌+◌, ◌*◌, ◌≤◌, ◌<◌, ◌≡◌, refl, ◌⊎◌, inl, inr, List, [], ◌∷◌, ◌++◌, reverse, append_assoc,
  append-nil, arith, Text, take, length-take, ltb, Bool-cases, ap, sym, ◌∙◌,
}
use mathlib.Core.List.{reverse-append, reverse-reverse, reverse-cons}
use production_rag.History.{ChatTurn}
use production_rag.Gateway.Packing.{
  Budget, estimate_tokens, pack, pack_context, keep_fitting, trim_history,
}

-- The tokens of several texts, and of several turns.
abbrev pub tokens : List Text → ℕ
tokens [] = 0
tokens (t ∷ ts) = estimate_tokens t + tokens ts

abbrev pub turn_tokens : List ChatTurn → ℕ
turn_tokens [] = 0
turn_tokens (t ∷ ts) = estimate_tokens t.content + turn_tokens ts

turn_tokens-append :
    (xs ys : List ChatTurn) → turn_tokens (xs ++ ys) ≡ turn_tokens xs + turn_tokens ys
turn_tokens-append [] ys = omega arith
turn_tokens-append (x ∷ xs) ys = omega (arith, turn_tokens-append xs ys)

turn_tokens-reverse : (xs : List ChatTurn) → turn_tokens (reverse xs) ≡ turn_tokens xs
turn_tokens-reverse [] = refl
turn_tokens-reverse (x ∷ xs) =
    ap turn_tokens (reverse-cons x xs)
    ∙ omega (arith, turn_tokens-append (reverse xs) (x ∷ []), turn_tokens-reverse xs)

-- `kept` is a prefix of `all`; what is left over is nothing, or starts with a turn too many.
record Longest (limit used : ℕ) (kept all : List ChatTurn) : Type 0 where
  left : List ChatTurn
  split : all ≡ kept ++ left
  fits : used + turn_tokens kept ≤ limit
  full :
      (t : ChatTurn) (rest : List ChatTurn)
      → left ≡ t ∷ rest
      → limit < used + turn_tokens kept + estimate_tokens t.content

keep_fitting-Longest :
    (limit used : ℕ) (all : List ChatTurn)
    → used ≤ limit
    → Longest limit used (keep_fitting limit used all) all
unfolding keep_fitting
keep_fitting-Longest limit used [] h = record {
  left = [];
  split = refl;
  fits = omega arith;
  full = λ t rest e. cc e;
}
keep_fitting-Longest limit used (turn ∷ rest) h =
    elim (Bool-cases (ltb limit (used + estimate_tokens turn.content))) [
      | inl over ↦ rw over (record {
        left = turn ∷ rest;
        split = refl;
        fits = omega arith;
        full = λ t r e. ground arith;
      })
      | inr under ↦
          let more =
            keep_fitting-Longest limit (used + estimate_tokens turn.content) rest (ground arith) in
          rw under (record {
            left = more.left;
            split = ap (◌∷◌ turn) more.split;
            fits = omega (arith, more.fits);
            full = λ t r e. omega (arith, more.full t r e);
          })
    ]

-- The history that a provider is given is the end of the history, within its budget, and as long as
-- the budget allows: it is all of it, or the turn before it does not fit any more.
pub trim_history_exact :
    (b : Budget) (history : List ChatTurn)
    → (left : List ChatTurn) × (history ≡ reverse left ++ trim_history b history)
      × (turn_tokens (trim_history b history) ≤ b.max_history_tokens)
      × ((t : ChatTurn) (rest : List ChatTurn)
          → left ≡ t ∷ rest
          → b.max_history_tokens < turn_tokens (trim_history b history) + estimate_tokens t.content)
unfolding trim_history
trim_history_exact b history =
    let kept = keep_fitting b.max_history_tokens 0 (reverse history) in
    let l = keep_fitting-Longest b.max_history_tokens 0 (reverse history) (omega arith) in
    let same = turn_tokens-reverse kept in
    (
      l.left,
      sym (reverse-reverse history) ∙ ap reverse l.split ∙ reverse-append kept l.left,
      omega (arith, same, l.fits),
      λ t rest e. omega (arith, same, l.full t rest e),
    )

estimate_tokens-pos : (t : Text) → 1 ≤ estimate_tokens t
unfolding estimate_tokens
estimate_tokens-pos t = omega arith

-- A source that is too large fills the budget exactly when it is cut.
estimate_tokens-take :
    (limit : ℕ) (t : Text)
    → 0 < limit
    → limit < estimate_tokens t
    → estimate_tokens (take (limit * 4) t) ≡ limit
unfolding estimate_tokens
estimate_tokens-take limit t positive over = omega (arith, length-take (limit * 4) t)

-- Of `all`, `pack` adds `kept` to what is packed; what is left over starts with a source too many.
record Packs (limit used : ℕ) (packed all : List Text) : Type 0 where
  kept : List Text
  left : List Text
  result : pack limit packed used all ≡ packed ++ kept
  split : all ≡ kept ++ left
  fits : used + tokens kept ≤ limit
  full :
      (t : Text) (rest : List Text)
      → left ≡ t ∷ rest
      → limit < used + tokens kept + estimate_tokens t

pack-Packs :
    (limit used : ℕ) (p : Text) (ps all : List Text) → used ≤ limit → Packs limit used (p ∷ ps) all
unfolding pack
pack-Packs limit used p ps [] h = record {
  kept = [];
  left = [];
  result = sym (append-nil (p ∷ ps));
  split = refl;
  fits = omega arith;
  full = λ t rest e. cc e;
}
pack-Packs limit used p ps (text ∷ all) h =
    elim (Bool-cases (ltb limit (used + estimate_tokens text))) [
      | inl over ↦ record {
        kept = [];
        left = text ∷ all;
        result = rw over (sym (append-nil (p ∷ ps)));
        split = refl;
        fits = omega arith;
        full = λ t rest e. ground arith;
      }
      | inr under ↦
          let more =
            pack-Packs limit (used + estimate_tokens text) p (ps ++ text ∷ []) all (ground arith) in
          record {
            kept = text ∷ more.kept;
            left = more.left;
            result = rw under (more.result ∙ append_assoc (p ∷ ps) (text ∷ []) more.kept);
            split = ap (◌∷◌ text) more.split;
            fits = omega (arith, more.fits);
            full = λ t rest e. omega (arith, more.full t rest e);
          }
    ]

-- What `pack_context` makes of the best source and the others.
pub record IsPacked (limit : ℕ) (best : Text) (others result : List Text) : Type 0 where
  pub first : Text
  pub kept : List Text
  pub left : List Text
  pub is_result : result ≡ first ∷ kept
  pub split : others ≡ kept ++ left
  pub cut : (first ≡ best) ⊎ ((limit < estimate_tokens best) × (first ≡ take (limit * 4) best))
  pub fits : tokens result ≤ limit
  pub full :
      (t : Text) (rest : List Text) → left ≡ t ∷ rest → limit < tokens result + estimate_tokens t

IsPacked-of_Packs :
    (limit cost : ℕ) (best first : Text) (others result : List Text)
    → (first ≡ best) ⊎ ((limit < estimate_tokens best) × (first ≡ take (limit * 4) best))
    → cost ≡ estimate_tokens first
    → (p : Packs limit cost (first ∷ []) others) → result ≡ pack limit (first ∷ []) cost others
    → IsPacked limit best others result
IsPacked-of_Packs limit cost best first others result cut same p e =
    let is : result ≡ first ∷ p.kept = e ∙ p.result in
    record {
      first = first;
      kept = p.kept;
      left = p.left;
      is_result = is;
      split = p.split;
      cut = cut;
      fits = omega (arith, ap tokens is, same, p.fits);
      full = λ t rest q. omega (arith, ap tokens is, same, p.full t rest q);
    }

-- Under a positive limit the best source is always kept, cut to the limit if it alone is over it;
-- behind it stand the next ones, uncut and in order, as long as they fit; together they fit.
pub pack_context_exact :
    (b : Budget) (best : Text) (others : List Text)
    → 0 < b.max_context_tokens
    → IsPacked b.max_context_tokens best others (pack_context b (best ∷ others))
unfolding pack_context
pack_context_exact b best others positive =
    let limit = b.max_context_tokens in
    elim (Bool-cases (ltb limit (estimate_tokens best))) [
      | inl over ↦
          let is_over : limit < estimate_tokens best = ground arith in
          let cut = take (limit * 4) best in
          IsPacked-of_Packs limit limit best cut others _ (inr (is_over, refl))
            (sym (estimate_tokens-take limit best positive is_over))
            (pack-Packs limit limit cut [] others (omega arith))
            (rw over (ap (λ (n : ℕ). pack limit (cut ∷ []) n others) (omega arith)))
      | inr under ↦
          IsPacked-of_Packs limit (estimate_tokens best) best best others _ (inl refl) refl
            (pack-Packs limit (estimate_tokens best) best [] others (ground arith))
            (rw under (ap (λ (n : ℕ). pack limit (best ∷ []) n others) (omega arith)))
    ]
