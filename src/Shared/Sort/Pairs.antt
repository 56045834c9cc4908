-- ===== src/Shared/Sort/Pairs.antt =====
-- Sorting by an order that is one on the elements at hand, and relations between all pairs.
use gitedge.Shared.Tests.{Bool-cases}
use gitedge.Shared.Lists.{All}
use mathlib.Core.Logic.{inl, inr}
use mathlib.Core.Path.{◌≡◌}
use mathlib.Core.Bool.{Bool, true, false}
use mathlib.Core.List.{List, [], ◌∷◌}
use gitedge.Shared.Sort.{IsSorted, insert_sorted, insert_sorted-All, sort_by, sort_by-All}

-- A sort by an order that is transitive on the elements at hand.
module _ {ℓ κ} {A : Type ℓ} (le : A → A → Bool) (P : A → Type κ)
    (total : (x y : A) → P x → P y → le x y ≡ false → le y x ≡ true)
    (trans : (x y z : A) → P x → P y → P z → le x y ≡ true → le y z ≡ true → le x z ≡ true) where
  above-All :
      (x y : A) (ys : List A)
      → P x
      → P y
      → All P ys
      → le x y ≡ true
      → All (λ z. le y z ≡ true) ys
      → All (λ z. le x z ≡ true) ys
  above-All x y [] px py h e k = tt
  above-All x y (z ∷ zs) px py (pz, h) e (q, k) =
      (trans x y z px py pz e q, above-All x y zs px py h e k)

  insert_IsSorted :
      (x : A) (xs : List A) → P x → All P xs → IsSorted le xs → IsSorted le (insert_sorted le x xs)
  unfolding insert_sorted
  insert_IsSorted x [] px h s = (tt, tt)
  insert_IsSorted x (y ∷ ys) px (py, h) (a, s) = elim (Bool-cases (le x y)) [
    | inl e ↦ rw e ((e, above-All x y ys px py h e a), (a, s))
    | inr e ↦ rw e (
      insert_sorted-All le (λ z. le y z ≡ true) x ys (total x y px py e) a,
      insert_IsSorted x ys px h s,
    )
  ]

  pub sort_by-IsSorted_on : (xs : List A) → All P xs → IsSorted le (sort_by le xs)
  unfolding sort_by
  sort_by-IsSorted_on [] h = tt
  sort_by-IsSorted_on (x ∷ xs) (p, h) =
      insert_IsSorted x (sort_by le xs) p (sort_by-All le P xs h) (sort_by-IsSorted_on xs h)

-- Sorting keeps that all pairs are related, for a symmetric relation.
module _ {ℓ} {A : Type ℓ} (le : A → A → Bool) (r : A → A → Bool)
    (symmetric : (x y : A) → r x y ≡ true → r y x ≡ true) where
  insert-pairs :
      (x : A) (xs : List A)
      → All (λ y. r x y ≡ true) xs
      → IsSorted r xs
      → IsSorted r (insert_sorted le x xs)
  unfolding insert_sorted
  insert-pairs x [] h s = (tt, tt)
  insert-pairs x (y ∷ ys) (p, h) (a, s) = elim (Bool-cases (le x y)) [
    | inl e ↦ rw e ((p, h), (a, s))
    | inr e ↦
        rw e
          (insert_sorted-All le (λ z. r y z ≡ true) x ys (symmetric x y p) a, insert-pairs x ys h s)
  ]

  pub sort_by-pairs : (xs : List A) → IsSorted r xs → IsSorted r (sort_by le xs)
  unfolding sort_by
  sort_by-pairs [] s = tt
  sort_by-pairs (x ∷ xs) (a, s) =
      insert-pairs x (sort_by le xs) (sort_by-All le (λ y. r x y ≡ true) xs a) (sort_by-pairs xs s)
