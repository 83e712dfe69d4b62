-- ===== src/Observability/Histogram.antt =====
-- `Metrics.observe_latency`: the counts per bucket of one series, then the sum and the count.
use mathlib.Core.Path.{fun_ext}
use production_rag.Base.{
  ℕ, ◌+◌, ◌≡◌, refl, ap, ◌∙◌, List, [], ◌∷◌, map, arith, leb, if◌then◌else◌, length,
}

-- The buckets' counts, in the order of the bounds.
pub record Series : Type 0 where
  pub buckets : List ℕ
  pub sum : ℕ
  pub count : ℕ

-- `LATENCY_BUCKETS`, in milliseconds.
abbrev pub latency_buckets : List ℕ
latency_buckets = 5 ∷ 10 ∷ 25 ∷ 50 ∷ 100 ∷ 250 ∷ 500 ∷ 1000 ∷ 2500 ∷ 5000 ∷ 10000 ∷ 30000 ∷ []

abbrev pub new_series : List ℕ → Series
new_series bounds = record { buckets = map (λ b. 0) bounds; sum = 0; count = 0 }

-- One more in each bucket that the value fits.
unfoldable pub add_to_buckets : ℕ → List ℕ → List ℕ → List ℕ
add_to_buckets x [] counts = counts
add_to_buckets x (b ∷ bounds) [] = []
add_to_buckets x (b ∷ bounds) (n ∷ counts) =
    (if leb x b then n + 1 else n) ∷ add_to_buckets x bounds counts

unfoldable pub observe : List ℕ → ℕ → Series → Series
observe bounds x s = record {
  buckets = add_to_buckets x bounds s.buckets;
  sum = s.sum + x;
  count = s.count + 1;
}

unfoldable pub observe_all : List ℕ → List ℕ → Series → Series
observe_all bounds [] s = s
observe_all bounds (x ∷ xs) s = observe_all bounds xs (observe bounds x s)

-- How many of the values fit a bucket, and their sum.
unfoldable pub fitting : ℕ → List ℕ → ℕ
fitting bound [] = 0
fitting bound (x ∷ xs) = (if leb x bound then 1 else 0) + fitting bound xs

unfoldable pub total : List ℕ → ℕ
total [] = 0
total (x ∷ xs) = x + total xs

add_to_buckets-map :
    (x : ℕ) (f : ℕ → ℕ) (bounds : List ℕ)
    → add_to_buckets x bounds (map f bounds) ≡ map (λ b. if leb x b then f b + 1 else f b) bounds
unfolding add_to_buckets
add_to_buckets-map x f [] = refl
add_to_buckets-map x f (b ∷ bounds) =
    ap (◌∷◌ (if leb x b then f b + 1 else f b)) (add_to_buckets-map x f bounds)

-- After values have been observed, on top of counts, a sum and a number of observations.
record Observed (bounds xs : List ℕ) (f : ℕ → ℕ) (old new : Series) : Type 0 where
  buckets : new.buckets ≡ map (λ b. f b + fitting b xs) bounds
  sum : new.sum ≡ old.sum + total xs
  count : new.count ≡ old.count + length xs

observe_all-Observed :
    (bounds xs : List ℕ) (f : ℕ → ℕ) (old : Series)
    → old.buckets ≡ map f bounds
    → Observed bounds xs f old (observe_all bounds xs old)
unfolding observe_all observe fitting total
observe_all-Observed bounds [] f old e = record {
  buckets = e ∙ ap (λ (g : ℕ → ℕ). map g bounds) (fun_ext (λ b. omega arith));
  sum = omega arith;
  count = omega arith;
}
observe_all-Observed bounds (x ∷ xs) f old e =
    let g = λ (b : ℕ). if leb x b then f b + 1 else f b in
    let added : (observe bounds x old).buckets ≡ map g bounds =
      ap (add_to_buckets x bounds) e ∙ add_to_buckets-map x f bounds in
    let more = observe_all-Observed bounds xs g (observe bounds x old) added in
    record {
      buckets = more.buckets ∙ ap (λ (h : ℕ → ℕ). map h bounds) (fun_ext (λ b. ground arith));
      sum = omega (arith, more.sum);
      count = omega (arith, more.count);
    }

-- The series of some observations holds, for each bound, how many of them were within it, and the
-- sum and the number of all.
pub observe_all_exact :
    (bounds xs : List ℕ)
    → ((observe_all bounds xs (new_series bounds)).buckets ≡ map (λ b. fitting b xs) bounds)
      × ((observe_all bounds xs (new_series bounds)).sum ≡ total xs)
      × ((observe_all bounds xs (new_series bounds)).count ≡ length xs)
observe_all_exact bounds xs =
    let o = observe_all-Observed bounds xs (λ b. 0) (new_series bounds) refl in
    (
      o.buckets ∙ ap (λ (g : ℕ → ℕ). map g bounds) (fun_ext (λ b. omega arith)),
      omega (arith, o.sum),
      omega (arith, o.count),
    )
