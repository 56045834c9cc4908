-- ===== src/Patch/Table.antt =====
-- The table of directions that `diffLines` fills holds what the specification says of each cell.
use gitedge.Shared.{
  ℕ, zero, suc, ◌+◌, ◌*◌, ◌<◌, ◌≡◌, refl, ap, ◌∙◌, List, [], ◌∷◌, ◌++◌, length, get_or, arith,
}
use gitedge.Shared.Positions.{get_or-left, get_or-right}
use gitedge.Patch.{
  cell_value, cell_direction, row_values, row_directions, directions_loop, zeros, directions_of,
}
use gitedge.Patch.Lcs.{same_line, lcs, lcs-bound, lcs_zero}

abbrev values_from : (ℕ → ℕ) → ℕ → ℕ → List ℕ
values_from f j zero = []
values_from f j (suc n) = f j ∷ values_from f (suc j) n

values_from-get : (f : ℕ → ℕ) (j n k : ℕ) → k < n → get_or (values_from f j n) k 0 ≡ f (j + k)
values_from-get f j zero k h = absurd (omega arith)
values_from-get f j (suc n) zero h = ap f (omega arith)
values_from-get f j (suc n) (suc k) h =
    values_from-get f (suc j) n k (omega arith) ∙ ap f (omega arith)

length-values_from : (f : ℕ → ℕ) (j n : ℕ) → length (values_from f j n) ≡ n
length-values_from f j zero = refl
length-values_from f j (suc n) = ap suc (length-values_from f (suc j) n)

zeros_lem : (f : ℕ → ℕ) (j n : ℕ) → ((k : ℕ) → f k ≡ 0) → zeros n ≡ values_from f j n
zeros_lem f j zero h = refl
zeros_lem f j (suc n) h = rw (h j) (ap (◌∷◌ 0) (zeros_lem f (suc j) n h))

-- The list holds the lines from `j` on.
abbrev pub Agrees : List (List ℕ) → ℕ → List (List ℕ) → Type 0
Agrees xs j [] = Unit
Agrees xs j (l ∷ ls) = (l ≡ get_or xs j []) × Agrees xs (suc j) ls

Agrees-cons :
    (x : List ℕ) (xs : List (List ℕ)) (j : ℕ) (ls : List (List ℕ))
    → Agrees xs j ls
    → Agrees (x ∷ xs) (suc j) ls
Agrees-cons x xs j [] h = tt
Agrees-cons x xs j (l ∷ ls) (e, h) = (e, Agrees-cons x xs (suc j) ls h)

Agrees-self : (xs : List (List ℕ)) → Agrees xs 0 xs
Agrees-self [] = tt
Agrees-self (x ∷ xs) = (refl, Agrees-cons x xs 0 xs (Agrees-self xs))

module _ (olds news : List (List ℕ)) where
  abbrev pub direction : ℕ → ℕ → ℕ
  direction i j =
      cell_direction (same_line olds news i j) (lcs olds news i (suc j)) (lcs olds news (suc i) j)

  cell-lcs :
      (i j : ℕ)
      → j + 1 < 65536
      → cell_value
          (same_line olds news i j)
          (lcs olds news i j)
          (lcs olds news i (suc j))
          (lcs olds news (suc i) j)
        ≡ lcs olds news (suc i) (suc j)
  unfolding cell_value lcs
  cell-lcs i j h = ground (arith, lcs-bound olds news i j)

  row-lcs :
      (i j : ℕ) (ns : List (List ℕ))
      → Agrees news j ns
      → j + length ns < 65536
      → row_values
          (get_or olds i [])
          ns
          (values_from (lcs olds news i) j (suc (length ns)))
          (lcs olds news (suc i) j)
        ≡ values_from (lcs olds news (suc i)) (suc j) (length ns)
  unfolding row_values
  row-lcs i j [] a h = refl
  row-lcs i j (n ∷ ns) (e, a) h =
      rw (e, cell-lcs i j (omega arith))
        (ap (◌∷◌ (lcs olds news (suc i) (suc j))) (row-lcs i (suc j) ns a (omega arith)))

  row-direction :
      (i j : ℕ) (ns : List (List ℕ))
      → Agrees news j ns
      → j + length ns < 65536
      → row_directions
          (get_or olds i [])
          ns
          (values_from (lcs olds news i) j (suc (length ns)))
          (lcs olds news (suc i) j)
        ≡ values_from (direction i) j (length ns)
  unfolding row_directions
  row-direction i j [] a h = refl
  row-direction i j (n ∷ ns) (e, a) h =
      rw (e, cell-lcs i j (omega arith))
        (ap (◌∷◌ (direction i j)) (row-direction i (suc j) ns a (omega arith)))

  -- The rows of the specification from row `i` on.
  abbrev rows : ℕ → ℕ → List ℕ
  rows i zero = []
  rows i (suc k) = values_from (direction i) 0 (length news) ++ rows (suc i) k

  directions_loop-rows :
      (i : ℕ) (os : List (List ℕ))
      → Agrees olds i os
      → length news < 65536
      → directions_loop os news (values_from (lcs olds news i) 0 (suc (length news)))
        ≡ rows i (length os)
  unfolding directions_loop
  directions_loop-rows i [] a h = refl
  directions_loop-rows i (o ∷ os) (e, a) h =
      let width : 0 + length news < 65536 = omega arith in
      let edge : lcs olds news (suc i) 0 ≡ 0 = lcs_zero olds news (suc i) in
      let values = rw edge at (row-lcs i 0 news (Agrees-self news) width) in
      let directions = rw edge at (row-direction i 0 news (Agrees-self news) width) in
      rw (e, directions, values)
        (ap (◌++◌ (values_from (direction i) 0 (length news)))
          (rw edge at (directions_loop-rows (suc i) os a h)))

  rows-get :
      (i k a b : ℕ)
      → a < k
      → b < length news
      → get_or (rows i k) (a * length news + b) 0 ≡ direction (i + a) b
  rows-get i zero a b h l = absurd (omega arith)
  rows-get i (suc k) zero b h l =
      let row = values_from (direction i) 0 (length news) in
      let at : 0 * length news + b ≡ b = omega arith in
      ap (λ n. get_or (rows i (suc k)) n 0) at
      ∙ get_or-left row (rows (suc i) k) b 0
          (omega (arith, length-values_from (direction i) 0 (length news)))
      ∙ values_from-get (direction i) 0 (length news) b l
      ∙ ap (direction i) {x = 0 + b} {y = b} (omega arith)
      ∙ ap (λ n. direction n b) {x = i} {y = i + 0} (omega arith)
  rows-get i (suc k) (suc a) b h l =
      let row = values_from (direction i) 0 (length news) in
      let at : suc a * length news + b ≡ length row + (a * length news + b) =
        grind (arith, length-values_from (direction i) 0 (length news)) in
      ap (λ n. get_or (rows i (suc k)) n 0) at
      ∙ get_or-right row (rows (suc i) k) (a * length news + b) 0
      ∙ rows-get (suc i) k a b (omega arith) l
      ∙ ap (λ n. direction n b) (omega arith)

  pub directions-get :
      (a b : ℕ)
      → a < length olds
      → b < length news
      → length news < 65536
      → get_or (directions_of olds news) (a * length news + b) 0 ≡ direction a b
  unfolding directions_of
  directions-get a b h l small =
      let start : zeros (length news + 1) ≡ values_from (lcs olds news 0) 0 (suc (length news)) =
        ap zeros {y = suc (length news)} (omega arith)
        ∙ zeros_lem (lcs olds news 0) 0 (suc (length news)) (λ k. unfold lcs in refl) in
      rw (start, directions_loop-rows 0 olds (Agrees-self olds) small)
        (rows-get 0 (length olds) a b h l ∙ ap (λ n. direction n b) (omega arith))
