-- ===== src/Shared/Sort.antt =====
-- `array.sort(compare)`: a stable sort.
pub mod Pairs
use gitedge.Shared.Tests.{if◌then◌else◌, Bool-cases}
use gitedge.Shared.Lists.{All, All-map, All-drop, length, keep, take, drop}
use Prim.Native.Nat.{ℕ, zero, suc}
use mathlib.Core.Logic.{inl, inr}
use mathlib.Core.Path.{◌≡◌, refl, ap, ◌∙◌}
use mathlib.Core.Bool.{Bool, true, false}
use mathlib.Core.List.{List, [], ◌∷◌, Perm}
use mathlib.Core.List.Perm
use native.Mathlib.Omega.{arith}

module _ {ℓ} {A : Type ℓ} (le : A → A → Bool) where
  pub insert_sorted : A → List A → List A
  insert_sorted x [] = x ∷ []
  insert_sorted x (y ∷ ys) = if le x y then x ∷ y ∷ ys else y ∷ insert_sorted x ys

  -- The insertion of an element before its equals, from the last to the first, is stable.
  unfoldable pub sort_by : List A → List A
  unfolding insert_sorted
  sort_by [] = []
  sort_by (x ∷ xs) = insert_sorted x (sort_by xs)

  insert_sorted-All {κ} :
      (P : A → Type κ) (x : A) (xs : List A) → P x → All P xs → All P (insert_sorted x xs)
  unfolding insert_sorted
  insert_sorted-All P x [] p h = (p, tt)
  insert_sorted-All P x (y ∷ ys) p (q, h) =
      elim (le x y) as (λ b. All P (if b then x ∷ y ∷ ys else y ∷ insert_sorted x ys)) [
        | true ↦ (p, (q, h))
        | false ↦ (q, insert_sorted-All P x ys p h)
      ]

  pub sort_by-All {κ} : (P : A → Type κ) (xs : List A) → All P xs → All P (sort_by xs)
  unfolding sort_by
  sort_by-All P [] h = tt
  sort_by-All P (x ∷ xs) (p, h) = insert_sorted-All P x (sort_by xs) p (sort_by-All P xs h)

  count_insert :
      (p : A → Bool) (x : A) (xs : List A)
      → length (keep p (insert_sorted x xs)) ≡ length (keep p (x ∷ xs))
  unfolding insert_sorted
  count_insert p x [] = refl
  count_insert p x (y ∷ ys) = ground (arith, count_insert p x ys)

  -- What a test counts is not changed by sorting.
  pub count-sort_by :
      (p : A → Bool) (xs : List A) → length (keep p (sort_by xs)) ≡ length (keep p xs)
  unfolding sort_by
  count-sort_by p [] = refl
  count-sort_by p (x ∷ xs) = count_insert p x (sort_by xs) ∙ ground (arith, count-sort_by p xs)

  insert_sorted-Perm : (x : A) (xs : List A) → Perm (insert_sorted x xs) (x ∷ xs)
  unfolding insert_sorted
  insert_sorted-Perm x [] = Perm.refl (x ∷ [])
  insert_sorted-Perm x (y ∷ ys) = elim (Bool-cases (le x y)) [
    | inl e ↦ rw e (Perm.refl (x ∷ y ∷ ys))
    | inr e ↦ rw e (Perm.trans (Perm.cons y (insert_sorted-Perm x ys)) (Perm.swap x y ys))
  ]

  -- Sorting only rearranges.
  pub sort_by-Perm : (xs : List A) → Perm (sort_by xs) xs
  unfolding sort_by
  sort_by-Perm [] = Perm.refl []
  sort_by-Perm (x ∷ xs) =
      Perm.trans (insert_sorted-Perm x (sort_by xs)) (Perm.cons x (sort_by-Perm xs))

  pub length-sort_by : (xs : List A) → length (sort_by xs) ≡ length xs
  unfolding sort_by
  length-sort_by [] = refl
  length-sort_by (x ∷ xs) = length_insert x (sort_by xs) ∙ ap suc (length-sort_by xs)
    where
      length_insert : (x : A) (ys : List A) → length (insert_sorted x ys) ≡ suc (length ys)
      length_insert x [] = refl
      length_insert x (y ∷ ys) = ground (arith, length_insert x ys)

-- Each element stands before all that follow it.
abbrev pub IsSorted {ℓ} : {A : Type ℓ} → (A → A → Bool) → List A → Type 0
IsSorted le [] = Unit
IsSorted le (x ∷ xs) = All (λ y. le x y ≡ true) xs × IsSorted le xs

module _ {ℓ} {A : Type ℓ} (le : A → A → Bool) (total : (x y : A) → le x y ≡ false → le y x ≡ true)
    (trans : (x y z : A) → le x y ≡ true → le y z ≡ true → le x z ≡ true) where
  insert_sorted-IsSorted :
      (x : A) (xs : List A) → IsSorted le xs → IsSorted le (insert_sorted le x xs)
  unfolding insert_sorted
  insert_sorted-IsSorted x [] h = (tt, tt)
  insert_sorted-IsSorted x (y ∷ ys) (h, t) = elim (Bool-cases (le x y)) [
    | inl e ↦ rw e ((e, All-map _ (λ z. le x z ≡ true) (λ z k. trans x y z e k) ys h), (h, t))
    | inr e ↦ rw e (
      insert_sorted-All le (λ z. le y z ≡ true) x ys (total x y e) h,
      insert_sorted-IsSorted x ys t,
    )
  ]

  pub sort_by-IsSorted : (xs : List A) → IsSorted le (sort_by le xs)
  unfolding sort_by
  sort_by-IsSorted [] = tt
  sort_by-IsSorted (x ∷ xs) = insert_sorted-IsSorted x (sort_by le xs) (sort_by-IsSorted xs)

-- In a sorted list what is taken stands before what is left.
pub take-before-drop {ℓ} :
    {A : Type ℓ} (le : A → A → Bool) (n : ℕ) (xs : List A)
    → IsSorted le xs
    → All (λ x. All (λ y. le x y ≡ true) (drop n xs)) (take n xs)
take-before-drop le zero xs h = tt
take-before-drop le (suc n) [] h = tt
take-before-drop le (suc n) (x ∷ xs) (h, t) =
    (All-drop (λ y. le x y ≡ true) n xs h, take-before-drop le n xs t)
