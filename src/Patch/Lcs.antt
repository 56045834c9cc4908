-- ===== src/Patch/Lcs.antt =====
-- The specification of the table of `diffLines`: the best length for the first lines of both sides,
-- and what is known of it.
use gitedge.Shared.{
  ℕ, zero, suc, ◌+◌, ◌≤◌, ◌≡◌, refl, Bool, true, false, List, [], max, leb, if◌then◌else◌, get_or,
  arith,
}
use gitedge.Shared.Text.{codes_eq}

module _ (olds news : List (List ℕ)) where
  -- Whether line `i` of the one side is line `j` of the other.
  abbrev pub same_line : ℕ → ℕ → Bool
  same_line i j = codes_eq (get_or olds i []) (get_or news j [])

  unfoldable pub lcs : ℕ → ℕ → ℕ
  lcs zero j = 0
  lcs (suc i) zero = 0
  lcs (suc i) (suc j) =
      let corner = lcs i j in
      let above = lcs i (suc j) in
      let left = lcs (suc i) j in if same_line i j then corner + 1 else max above left

  pub lcs-bound : (i j : ℕ) → lcs i j ≤ j
  unfolding lcs
  lcs-bound zero j = omega arith
  lcs-bound (suc i) zero = omega arith
  lcs-bound (suc i) (suc j) =
      ground (arith, lcs-bound i j, lcs-bound i (suc j), lcs-bound (suc i) j)

  pub lcs_zero : (i : ℕ) → lcs i 0 ≡ 0
  unfolding lcs
  lcs_zero zero = refl
  lcs_zero (suc i) = refl

  -- One line more, on either side, adds at most one, and takes nothing away.
  pub lcs_step :
      (i j : ℕ)
      → (lcs i j ≤ lcs (suc i) j)
        × (lcs (suc i) j ≤ lcs i j + 1)
        × (lcs i j ≤ lcs i (suc j))
        × (lcs i (suc j) ≤ lcs i j + 1)
  unfolding lcs
  lcs_step zero zero = omega arith
  lcs_step zero (suc j) = ground (arith, lcs_step zero j)
  lcs_step (suc i) zero = ground (arith, lcs_step i zero, lcs_zero i, lcs_zero (suc i))
  lcs_step (suc i) (suc j) = ground (arith, lcs_step (suc i) j, lcs_step i (suc j))

  -- The three cases of a cell.
  pub lcs-both : (i j : ℕ) → same_line i j ≡ true → lcs (suc i) (suc j) ≡ lcs i j + 1
  unfolding lcs
  lcs-both i j h = ground (arith, h)

  pub lcs-above :
      (i j : ℕ)
      → same_line i j ≡ false
      → leb (lcs (suc i) j) (lcs i (suc j)) ≡ true
      → lcs (suc i) (suc j) ≡ lcs i (suc j)
  unfolding lcs
  lcs-above i j n h = rw n (ground (arith, h))

  pub lcs-left :
      (i j : ℕ)
      → same_line i j ≡ false
      → leb (lcs (suc i) j) (lcs i (suc j)) ≡ false
      → lcs (suc i) (suc j) ≡ lcs (suc i) j
  unfolding lcs
  lcs-left i j n h = rw n (ground (arith, h))
