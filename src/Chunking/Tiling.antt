-- ===== src/Chunking/Tiling.antt =====
-- The windows of `_split` cover the tokens without a gap.
use production_rag.Base.{
  drop, ℕ, zero, suc, ◌+◌, ◌-◌, ◌/◌, ◌≤◌, ◌<◌, ◌≡◌, refl, min, max, ◌⊎◌, inl, inr, false, List, [],
  ◌∷◌, arith, Text, text, map, length-map, In, In-filter, length, length-take, length-drop, filter,
  leb, ltb, eqb, Bool-cases,
}
use production_rag.Chunking.{
  Pipeline, boundaries, max_or, slice, boundary, window_end, next_start, windows, split_tokens,
  join,
}

-- The windows from `start` on: each is nonempty and not longer than `size`, the next one starts
-- later, at most `overlap` before the end of this one and not behind it, and the last ends with the
-- last token.
pub data Tiles (size overlap count : ℕ) : ℕ → List (ℕ × ℕ) → Type 0 where
  last :
      {start end : ℕ}
      → start < end
      → end ≤ start + size
      → end ≡ count
      → Tiles size overlap count start ((start, end) ∷ [])
  more :
      {start next end : ℕ} {ws : List (ℕ × ℕ)}
      → end ≤ start + size
      → end < count
      → start < next
      → next ≤ end
      → end ≤ next + overlap
      → Tiles size overlap count next ws
      → Tiles size overlap count start ((start, end) ∷ ws)

lt_or_ge : (i n : ℕ) → (i < n) ⊎ (n ≤ i)
lt_or_ge i n = omega arith

boundaries_within :
    (i : ℕ) (ts : List Text) (b : ℕ) → In b (boundaries i ts) → (i < b) × (b ≤ i + length ts)
unfolding boundaries
boundaries_within i [] b m = absurd m
boundaries_within i (t ∷ ts) b m = ground (arith, boundaries_within (i + 1) ts b)

max_or_within :
    (lo hi d : ℕ) (xs : List ℕ)
    → lo < d
    → d ≤ hi
    → ((x : ℕ) → In x xs → (lo < x) × (x ≤ hi))
    → (lo < max_or d xs) × (max_or d xs ≤ hi)
unfolding max_or
max_or_within lo hi d [] l h all = (l, h)
max_or_within lo hi d (x ∷ xs) l h all =
    let (a, b) = all x (inl refl) in
    let (c, e) = max_or_within lo hi x xs a b (λ y m. all y (inr m)) in (omega arith, omega arith)

module _ (size : ℕ) (tokens : List Text) (start : ℕ) (positive : 0 < size)
    (inside : start < length tokens) where
  boundary_within :
      (end : ℕ)
      → start < end
      → end ≤ length tokens
      → (start < boundary size tokens start end) × (boundary size tokens start end ≤ end)
  unfolding boundary
  boundary_within end l h =
      let found = boundaries start (slice start end tokens) in
      let all : (b : ℕ) → In b found → (start < b) × (b ≤ end) = λ b m.
        let (above, below) = boundaries_within start (slice start end tokens) b m in
        (
          above,
          omega (arith, length-take (end - start) (drop start tokens), length-drop start tokens),
        ) in
      let (c, e) = max_or_within start end end found l (omega arith) all in
      max_or_within start end (max_or end found) (filter (leb (start + max 1 (size / 2))) found) c e
        (λ b m. all b ((In-filter _ b found).0 m).0)

  window_end_within :
      (start < window_end size tokens start)
      × (window_end size tokens start ≤ start + size)
      × (window_end size tokens start ≤ length tokens)
  unfolding window_end
  window_end_within =
      let end = min (start + size) (length tokens) in
      let (a, b) = boundary_within end (omega arith) (omega arith) in
      elim (Bool-cases (ltb end (length tokens))) [
        | inl full ↦ rw full (a, omega arith, omega arith)
        | inr ends ↦ rw ends (omega arith, omega arith, omega arith)
      ]

windows-Tiles :
    (p : Pipeline) (tokens : List Text) (fuel start : ℕ)
    → p.overlap < p.chunk_size
    → start < length tokens
    → length tokens ≤ start + fuel
    → Tiles p.chunk_size p.overlap (length tokens) start (windows p tokens fuel start)
unfolding windows
windows-Tiles p tokens zero start o h f = absurd (omega arith)
windows-Tiles p tokens (suc fuel) start o h f =
    let end = window_end p.chunk_size tokens start in
    let (a, b, c) = window_end_within p.chunk_size tokens start (omega arith) h in
    let later : leb (length tokens) start ≡ false = ground arith in
    elim (Bool-cases (eqb end (length tokens))) [
      | inl done ↦ rw (later, done) (last a b (ground arith))
      | inr on ↦
          let short : end < length tokens = ground arith in
          rw (later, on)
            (more b short (omega arith) (omega arith) (omega arith) (
              windows-Tiles p tokens fuel (next_start p.overlap start end) o (omega arith)
                (omega arith)))
    ]

module _ {size overlap count : ℕ} where
  -- Every token from the start on is in a window.
  Tiles-cover :
      {start : ℕ} {ws : List (ℕ × ℕ)}
      → Tiles size overlap count start ws
      → (i : ℕ) → start ≤ i
      → i < count
      → (w : ℕ × ℕ) × In w ws × (w.0 ≤ i) × (i < w.1)
  Tiles-cover (last {start} {end} a b c) i l h = ((start, end), inl refl, l, omega (arith, c))
  Tiles-cover (more {start} {next} {end} b short later behind near rest) i l h =
      elim (lt_or_ge i end) [
        | inl here ↦ ((start, end), inl refl, l, here)
        | inr there ↦
            let (w, m, from, to) = Tiles-cover rest i (omega (arith, behind)) h in
            (w, inr m, from, to)
      ]

  Tiles-length :
      {start : ℕ} {ws : List (ℕ × ℕ)}
      → Tiles size overlap count start ws
      → start + length ws ≤ count
  Tiles-length (last a b c) = omega (arith, a, c)
  Tiles-length (more b short later behind near rest) = omega (arith, later, Tiles-length rest)

-- What `_split` makes of the tokens: the pieces are the texts of windows.
pub record Windowed (p : Pipeline) (tokens pieces : List Text) : Type 0 where
  pub cut : List (ℕ × ℕ)
  pub texts : pieces ≡ map (λ w. join (text " ") (slice w.0 w.1 tokens)) cut
  pub tiles : (tokens ≡ []) ⊎ Tiles p.chunk_size p.overlap (length tokens) 0 cut
  pub covered : (i : ℕ) → i < length tokens → (w : ℕ × ℕ) × In w cut × (w.0 ≤ i) × (i < w.1)
  pub few : length pieces ≤ length tokens

-- With an overlap smaller than the chunk size, `_split` ends within as many rounds as there are
-- tokens. Its pieces are the texts of nonempty windows of at most `chunk_size` tokens, each starting
-- later than the one before and not behind its end, with at most `overlap` tokens in common; the
-- first starts with the first token and the last ends with the last one, so no token is lost.
pub split_exact :
    (p : Pipeline) (tokens : List Text)
    → p.overlap < p.chunk_size
    → Windowed p tokens (split_tokens p tokens)
unfolding split_tokens
split_exact p [] h = record {
  cut = [];
  texts = refl;
  tiles = inl refl;
  covered = λ i l. absurd (omega arith);
  few = omega arith;
}
split_exact p (t ∷ ts) h =
    let tokens = t ∷ ts in
    let tiles = windows-Tiles p tokens (length tokens) 0 h (omega arith) (omega arith) in
    record {
      cut = windows p tokens (length tokens) 0;
      texts = refl;
      tiles = inr tiles;
      covered = λ i l. Tiles-cover tiles i (omega arith) l;
      few = omega (
        arith,
        Tiles-length tiles,
        length-map (λ (w : ℕ × ℕ). join (text " ") (slice w.0 w.1 tokens))
            (windows p tokens (length tokens) 0),
      );
    }
