-- ===== src/Base/Dicts.antt =====
-- Python's `dict` as an association list in insertion order.
use mathlib.Core.Path.{◌∙◌, ◌≡◌, refl, ap}
use mathlib.Core.Logic.{◌⊎◌, inl, inr}
use mathlib.Core.Bool.{false, Bool}
use mathlib.Core.Option.{Option, none, some}
use mathlib.Core.List.{List, [], ◌∷◌, map}
use native.Mathlib.Omega.{arith}
use production_rag.Base.Tests.{if◌then◌else◌, Eq, ◌==◌, eq_iff, Bool-cases, Option-cases}
use production_rag.Base.Lists.{In, Distinct, In-map}

abbrev pub Dict : Type 0 → Type 0 → Type 0
Dict K V = List (K × V)

abbrev pub keys : {K V : Type 0} → Dict K V → List K
keys = map (λ e. e.0)

module _ {K V : Type 0} ⦃e : Eq K⦄ where
  -- `d.get(k)`
  unfoldable pub lookup : K → Dict K V → Option V
  lookup k [] = none
  lookup k ((j, v) ∷ d) = if j == k then some v else lookup k d

  -- `d[k] = v`: an old key keeps its place, a new one goes to the end.
  unfoldable pub insert : K → V → Dict K V → Dict K V
  insert k v [] = (k, v) ∷ []
  insert k v ((j, w) ∷ d) = if j == k then (j, v) ∷ d else (j, w) ∷ insert k v d

  -- `del d[k]`, `d.pop(k, None)`
  unfoldable pub remove : K → Dict K V → Dict K V
  remove k [] = []
  remove k ((j, w) ∷ d) = let rest = remove k d in if j == k then rest else (j, w) ∷ rest

  -- The values of the entries that pass a test, rewritten in place.
  unfoldable pub update_where : (K → V → Bool) → (V → V) → Dict K V → Dict K V
  update_where p f [] = []
  update_where p f ((j, w) ∷ d) = (j, if p j w then f w else w) ∷ update_where p f d

  pub lookup-insert :
      (k j : K) (v : V) (d : Dict K V)
      → lookup j (insert k v d) ≡ (if k == j then some v else lookup j d)
  unfolding lookup insert
  lookup-insert k j v [] = refl
  lookup-insert k j v ((i, w) ∷ d) =
      ground (arith, eq_iff k j, eq_iff i k, eq_iff i j, lookup-insert k j v d)

  pub lookup-insert_other :
      (k j : K) (v : V) (d : Dict K V) → (k == j) ≡ false → lookup j (insert k v d) ≡ lookup j d
  lookup-insert_other k j v d other = lookup-insert k j v d ∙ rw other refl

  pub lookup-remove :
      (k j : K) (d : Dict K V) → lookup j (remove k d) ≡ (if k == j then none else lookup j d)
  unfolding lookup remove
  lookup-remove k j [] = ground arith
  lookup-remove k j ((i, w) ∷ d) =
      ground (arith, eq_iff k j, eq_iff i k, eq_iff i j, lookup-remove k j d)

  abbrev pub update_found : (K → V → Bool) → (V → V) → K → Option V → Option V
  update_found p f k none = none
  update_found p f k (some v) = some (if p k v then f v else v)

  pub lookup-update_where :
      (p : K → V → Bool) (f : V → V) (k : K) (d : Dict K V)
      → lookup k (update_where p f d) ≡ update_found p f k (lookup k d)
  unfolding lookup update_where
  lookup-update_where p f k [] = refl
  lookup-update_where p f k ((i, w) ∷ d) = ground (arith, eq_iff i k, lookup-update_where p f k d)

  pub keys-update_where :
      (p : K → V → Bool) (f : V → V) (d : Dict K V) → keys (update_where p f d) ≡ keys d
  unfolding update_where
  keys-update_where p f [] = refl
  keys-update_where p f ((i, w) ∷ d) = ap (◌∷◌ i) (keys-update_where p f d)

  pub In_of_lookup : (k : K) (v : V) (d : Dict K V) → lookup k d ≡ some v → In (k, v) d
  unfolding lookup
  In_of_lookup k v [] h = cc
  In_of_lookup k v ((i, w) ∷ d) h = ground (arith, eq_iff i k, In_of_lookup k v d)

  pub lookup_of_In :
      (k : K) (v : V) (d : Dict K V) → Distinct (keys d) → In (k, v) d → lookup k d ≡ some v
  unfolding lookup
  lookup_of_In k v [] u m = absurd m
  lookup_of_In k v ((i, w) ∷ d) u (inl same) =
      ground (arith, eq_iff i k, ap (λ (t : K × V). t.0) same, ap (λ (t : K × V). t.1) same)
  lookup_of_In k v ((i, w) ∷ d) u (inr m) = elim (Bool-cases (i == k)) [
    | inl same ↦
        let here : i ≡ k = (eq_iff i k).0 same in
        absurd (u.0 (rw here (In-map (λ (t : K × V). t.0) (k, v) d m)))
    | inr other ↦ rw other (lookup_of_In k v d u.1 m)
  ]

  In-keys-insert :
      (i k : K) (v : V) (d : Dict K V) → In i (keys (insert k v d)) → (i ≡ k) ⊎ In i (keys d)
  unfolding insert
  In-keys-insert i k v [] h = ground arith
  In-keys-insert i k v ((j, w) ∷ d) h = ground (arith, In-keys-insert i k v d)

  In-keys-remove : (i k : K) (d : Dict K V) → In i (keys (remove k d)) → In i (keys d)
  unfolding remove
  In-keys-remove i k [] h = h
  In-keys-remove i k ((j, w) ∷ d) h = ground (arith, In-keys-remove i k d)

  pub keys-insert-Distinct :
      (k : K) (v : V) (d : Dict K V) → Distinct (keys d) → Distinct (keys (insert k v d))
  unfolding insert
  keys-insert-Distinct k v [] u = ((λ m. m), tt)
  keys-insert-Distinct k v ((j, w) ∷ d) u = elim (Bool-cases (j == k)) [
    | inl same ↦ rw same u
    | inr other ↦ rw other (
      (λ m. ground (arith, In-keys-insert j k v d m, eq_iff j k)),
      keys-insert-Distinct k v d u.1,
    )
  ]

  pub keys-remove-Distinct :
      (k : K) (d : Dict K V) → Distinct (keys d) → Distinct (keys (remove k d))
  unfolding remove
  keys-remove-Distinct k [] u = u
  keys-remove-Distinct k ((j, w) ∷ d) u = elim (Bool-cases (j == k)) [
    | inl same ↦ rw same (keys-remove-Distinct k d u.1)
    | inr other ↦ rw other ((λ m. u.0 (In-keys-remove j k d m)), keys-remove-Distinct k d u.1)
  ]

module _ {K V : Type 0} ⦃e : Eq K⦄ where
  -- What stands under a key after a rewrite stood there before it, rewritten if it passed the test.
  pub update_where-lookup :
      (p : K → V → Bool) (f : V → V) (k : K) (d : Dict K V) (v : V)
      → lookup k (update_where p f d) ≡ some v
      → (w : V) × (lookup k d ≡ some w) × (v ≡ (if p k w then f w else w))
  update_where-lookup p f k d v h = elim (Option-cases (lookup k d)) [
    | inl gone ↦ absurd (ground (arith, lookup-update_where p f k d))
    | inr (w, there) ↦ (w, there, ground (arith, lookup-update_where p f k d))
  ]

  -- A key none of whose values passes the test keeps its value.
  pub lookup-update_untouched :
      (p : K → V → Bool) (f : V → V) (k : K) (d : Dict K V)
      → ((v : V) → p k v ≡ false)
      → lookup k (update_where p f d) ≡ lookup k d
  lookup-update_untouched p f k d no_match = elim (Option-cases (lookup k d)) [
    | inl gone ↦ ground (arith, lookup-update_where p f k d)
    | inr (m, there) ↦ ground (arith, lookup-update_where p f k d, no_match m)
  ]
