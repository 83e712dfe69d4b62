-- ===== src/Base/Sorting.antt =====
-- Python's stable `sorted`, over a Boolean order of the entries.
use mathlib.Core.Path.{◌≡◌, refl}
use mathlib.Core.Logic.{◌⊎◌, ◌↔◌, inl, inr}
use mathlib.Core.Bool.{Bool, true, false, ◌&&◌, ◌||◌}
use mathlib.Core.List.{List, [], ◌∷◌, Perm}
use mathlib.Core.List.Perm
use native.Mathlib.Omega.{arith}
use production_rag.Base.Tests.{ltb, eqb, if◌then◌else◌, Bool-cases}
use production_rag.Base.Lists.{In, Distinct}
use Prim.Native.Nat.{ℕ}

module _ {A : Type 0} (le : A → A → Bool) where
  -- An entry goes before those that it is not above, so equal entries keep their order.
  unfoldable pub place : A → List A → List A
  place x [] = x ∷ []
  place x (y ∷ ys) = if le x y then x ∷ y ∷ ys else y ∷ place x ys

  unfoldable pub sort : List A → List A
  unfolding place
  sort [] = []
  sort (x ∷ xs) = place x (sort xs)

  abbrev pub IsSorted : List A → Type 0
  IsSorted [] = Unit
  IsSorted (x ∷ []) = Unit
  IsSorted (x ∷ y ∷ ys) = (le x y ≡ true) × IsSorted (y ∷ ys)

  place-Perm : (x : A) (ys : List A) → Perm (place x ys) (x ∷ ys)
  unfolding place
  place-Perm x [] = Perm.refl (x ∷ [])
  place-Perm x (y ∷ ys) = elim (Bool-cases (le x y)) [
    | inl h ↦ rw h (Perm.refl (x ∷ y ∷ ys))
    | inr h ↦ rw h (Perm.trans (Perm.cons y (place-Perm x ys)) (Perm.swap x y ys))
  ]

  -- Sorting loses and makes up no entry.
  pub sort-Perm : (xs : List A) → Perm (sort xs) xs
  unfolding sort
  sort-Perm [] = Perm.refl []
  sort-Perm (x ∷ xs) = Perm.trans (place-Perm x (sort xs)) (Perm.cons x (sort-Perm xs))

  module _ (total : (x y : A) → le x y ≡ false → le y x ≡ true) where
    place-IsSorted : (x : A) (ys : List A) → IsSorted ys → IsSorted (place x ys)
    unfolding place
    place-IsSorted x [] s = tt
    place-IsSorted x (y ∷ []) s = ground (arith, total x y)
    place-IsSorted x (y ∷ z ∷ zs) s =
        ground (arith, total x y, total x z, place-IsSorted x (z ∷ zs))

    pub sort-IsSorted : (xs : List A) → IsSorted (sort xs)
    unfolding sort
    sort-IsSorted [] = tt
    sort-IsSorted (x ∷ xs) = place-IsSorted x (sort xs) (sort-IsSorted xs)

module _ {A : Type 0} (le : A → A → Bool) where
  In-place : (a x : A) (ys : List A) → In a (place le x ys) ↔ ((a ≡ x) ⊎ In a ys)
  unfolding place
  In-place a x [] = (λ h. h, λ h. h)
  In-place a x (y ∷ ys) =
      (λ h. ground (arith, (In-place a x ys).0), λ h. ground (arith, (In-place a x ys).1))

  pub In-sort : (a : A) (xs : List A) → In a (sort le xs) ↔ In a xs
  unfolding sort
  In-sort a [] = (λ h. h, λ h. h)
  In-sort a (x ∷ xs) = (
    λ h. ground (arith, (In-place a x (sort le xs)).0 h, (In-sort a xs).0),
    λ h. ground (arith, (In-place a x (sort le xs)).1, (In-sort a xs).1),
  )

  place-Distinct : (x : A) (ys : List A) → ¬ (In x ys) → Distinct ys → Distinct (place le x ys)
  unfolding place
  place-Distinct x [] n d = (n, d)
  place-Distinct x (y ∷ ys) n d = elim (Bool-cases (le x y)) [
    | inl h ↦ rw h (n, d)
    | inr h ↦
        rw h
          ((λ m. ground (arith, (In-place y x ys).0 m)), place-Distinct x ys (λ m. n (inr m)) d.1)
  ]

  pub sort-Distinct : (xs : List A) → Distinct xs → Distinct (sort le xs)
  unfolding sort
  sort-Distinct [] d = d
  sort-Distinct (x ∷ xs) d =
      place-Distinct x (sort le xs) (λ m. d.0 ((In-sort x xs).0 m)) (sort-Distinct xs d.1)

-- The order of Python's texts, by code point.
unfoldable pub text_leb : List ℕ → List ℕ → Bool
text_leb [] t = true
text_leb (a ∷ s) [] = false
text_leb (a ∷ s) (b ∷ t) = ltb a b || (eqb a b && text_leb s t)

pub text_leb_total : (s t : List ℕ) → text_leb s t ≡ false → text_leb t s ≡ true
unfolding text_leb
text_leb_total [] t h = cc
text_leb_total (a ∷ s) [] h = refl
text_leb_total (a ∷ s) (b ∷ t) h = ground (arith, text_leb_total s t)

pub text_leb_antisymm : (s t : List ℕ) → text_leb s t ≡ true → text_leb t s ≡ true → s ≡ t
unfolding text_leb
text_leb_antisymm [] [] h k = refl
text_leb_antisymm [] (b ∷ t) h k = cc
text_leb_antisymm (a ∷ s) [] h k = cc
text_leb_antisymm (a ∷ s) (b ∷ t) h k = ground (arith, text_leb_antisymm s t)
