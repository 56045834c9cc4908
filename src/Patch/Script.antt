-- ===== src/Patch/Script.antt =====
-- The walk back through the table yields an edit script: what it keeps and removes are the old lines,
-- what it keeps and adds are the new ones.
use gitedge.Shared.{
  ℕ, zero, suc, ◌+◌, ◌-◌, ◌≤◌, ◌<◌, ◌≡◌, refl, sym, ap, ◌∙◌, ◌⊎◌, List, [], ◌∷◌, ◌++◌, map, leb,
  length, get_or, take, Bool-cases, inl, inr, arith,
}
use mathlib.Core.List.{append-nil}
use gitedge.Shared.Text.{codes_eq_iff}
use gitedge.Patch.{
  same, added, removed, PatchOp, op_of, cell_direction, Move, finish, take_both, take_old, take_new,
  plain_move, move_of, move_at, walk_back, directions_of, diff_lines,
}
use gitedge.Patch.Lcs.{same_line, lcs, lcs_zero, lcs-both, lcs-above, lcs-left}
use gitedge.Patch.Table.{direction, directions-get}

-- The lines that a script has on the old and on the new side, and how many it keeps.
unfoldable pub old_side : List PatchOp → List (List ℕ)
old_side [] = []
old_side (op ∷ ops) = elim op.kind [
  | same ↦ op.line ∷ old_side ops
  | removed ↦ op.line ∷ old_side ops
  | added ↦ old_side ops
]

unfoldable pub new_side : List PatchOp → List (List ℕ)
new_side [] = []
new_side (op ∷ ops) = elim op.kind [
  | same ↦ op.line ∷ new_side ops
  | added ↦ op.line ∷ new_side ops
  | removed ↦ new_side ops
]

unfoldable pub kept : List PatchOp → ℕ
kept [] = 0
kept (op ∷ ops) = elim op.kind [ same ↦ kept ops + 1 | _ ↦ kept ops ]

take-get :
    (xs ys : List (List ℕ)) (i : ℕ)
    → 0 < i
    → i ≤ length xs
    → take (i - 1) xs ++ (get_or xs (i - 1) [] ∷ ys) ≡ take i xs ++ ys
take-get [] ys i p h = absurd (omega arith)
take-get (x ∷ xs) ys zero p h = absurd (omega arith)
take-get (x ∷ xs) ys (suc zero) p h = refl
take-get (x ∷ xs) ys (suc (suc i)) p h =
    let down : suc (suc i) - 1 ≡ suc i = omega arith in
    let down' : suc i - 1 ≡ i = omega arith in
    rw down (ap (◌∷◌ x) (rw down' at (take-get xs ys (suc i) (omega arith) (omega arith))))

take-all : (xs : List (List ℕ)) → take (length xs) xs ≡ xs
take-all [] = refl
take-all (x ∷ xs) = ap (◌∷◌ x) (take-all xs)

module _ (olds news : List (List ℕ)) where
  -- What a round's choice means for the specification.
  abbrev MoveMeans : ℕ → ℕ → Move → Type 0
  MoveMeans i j finish = (i ≡ 0) × (j ≡ 0)
  MoveMeans i j take_both =
      (0 < i)
      × (0 < j)
      × (get_or olds (i - 1) [] ≡ get_or news (j - 1) [])
      × (lcs olds news i j ≡ lcs olds news (i - 1) (j - 1) + 1)
  MoveMeans i j take_old = (0 < i) × (lcs olds news i j ≡ lcs olds news (i - 1) j)
  MoveMeans i j take_new = (0 < j) × (lcs olds news i j ≡ lcs olds news i (j - 1))

  plain_move-MoveMeans : (i j : ℕ) → (i ≡ 0) ⊎ (j ≡ 0) → MoveMeans i j (plain_move i j)
  unfolding plain_move
  plain_move-MoveMeans zero zero h = (refl, refl)
  plain_move-MoveMeans (suc i) j (inl h) = absurd (omega arith)
  plain_move-MoveMeans (suc i) j (inr h) =
      rw h (omega arith, lcs_zero olds news (suc i) ∙ sym (lcs_zero olds news (suc i - 1)))
  plain_move-MoveMeans zero (suc j) h = (omega arith, unfold lcs in refl)

  direction-MoveMeans : (i j : ℕ) → MoveMeans (suc i) (suc j) (move_of (direction olds news i j))
  direction-MoveMeans i j =
      let down : (k : ℕ) → suc k - 1 ≡ k = λ k. omega arith in
      elim (Bool-cases (same_line olds news i j)) [
        | inl y ↦
            let both : move_of (direction olds news i j) ≡ take_both =
              unfold cell_direction move_of in rw (y, move_of) refl in
            rw (both, down i, down j)
              (
                omega arith,
                omega arith,
                (codes_eq_iff (get_or olds i []) (get_or news j [])).0 y,
                lcs-both olds news i j y,
              )
        | inr n ↦ elim (Bool-cases (leb (lcs olds news (suc i) j) (lcs olds news i (suc j)))) [
          | inl le ↦
              let old : move_of (direction olds news i j) ≡ take_old =
                unfold cell_direction move_of in rw (n, le, move_of) refl in
              rw (old, down i) (omega arith, lcs-above olds news i j n le)
          | inr gt ↦
              let new : move_of (direction olds news i j) ≡ take_new =
                unfold cell_direction move_of in rw (n, gt, move_of) refl in
              rw (new, down j) (omega arith, lcs-left olds news i j n gt)
        ]
      ]

  module _ (small : length news < 65536) where
    abbrev table : List ℕ
    table = directions_of olds news

    move_at-MoveMeans :
        (i j : ℕ)
        → i ≤ length olds
        → j ≤ length news
        → MoveMeans i j (move_at table (length news) i j)
    unfolding move_at
    move_at-MoveMeans zero j h k = plain_move-MoveMeans zero j (inl refl)
    move_at-MoveMeans (suc i) zero h k = plain_move-MoveMeans (suc i) zero (inr refl)
    move_at-MoveMeans (suc i) (suc j) h k =
        rw (directions-get olds news i j (omega arith) (omega arith) small)
          (direction-MoveMeans i j)

    -- What a walk from cell (i, j) puts in front of `ops`.
    abbrev Walked : ℕ → ℕ → List PatchOp → List PatchOp → Type 0
    Walked i j ops result =
        (old_side result ≡ take i olds ++ old_side ops)
        × (new_side result ≡ take j news ++ new_side ops)
        × (kept result ≡ lcs olds news i j + kept ops)

    walk_move :
        (f i j : ℕ) (ops : List PatchOp) (move : Move)
        → i ≤ length olds
        → j ≤ length news
        → i + j ≤ suc f
        → move_at table (length news) i j ≡ move
        → MoveMeans i j move
        → ((i' j' : ℕ) (ops' : List PatchOp)
            → i' ≤ length olds
            → j' ≤ length news
            → i' + j' ≤ f
            → Walked i' j' ops' (walk_back olds news table f i' j' ops'))
        → Walked i j ops (walk_back olds news table (suc f) i j ops)
    unfolding walk_back old_side new_side kept
    walk_move f i j ops finish h k l e (a, b) ih =
        rw (e, walk_back, a, b) (refl, refl, unfold lcs in omega arith)
    walk_move f i j ops take_both h k l e (p, q, eq, best) ih =
        let op = op_of same (get_or olds (i - 1) []) in
        let (o, n, c) = ih (i - 1) (j - 1) (op ∷ ops) (omega arith) (omega arith) (omega arith) in
        rw (e, walk_back)
          (
            o ∙ take-get olds (old_side ops) i p h,
            n ∙ rw eq (take-get news (new_side ops) j q k),
            omega (arith, c, best),
          )
    walk_move f i j ops take_old h k l e (p, best) ih =
        let op = op_of removed (get_or olds (i - 1) []) in
        let (o, n, c) = ih (i - 1) j (op ∷ ops) (omega arith) (omega arith) (omega arith) in
        rw (e, walk_back) (o ∙ take-get olds (old_side ops) i p h, n, omega (arith, c, best))
    walk_move f i j ops take_new h k l e (q, best) ih =
        let op = op_of added (get_or news (j - 1) []) in
        let (o, n, c) = ih i (j - 1) (op ∷ ops) (omega arith) (omega arith) (omega arith) in
        rw (e, walk_back) (o, n ∙ take-get news (new_side ops) j q k, omega (arith, c, best))

    walk-Walked :
        (f i j : ℕ) (ops : List PatchOp)
        → i ≤ length olds
        → j ≤ length news
        → i + j ≤ f
        → Walked i j ops (walk_back olds news table f i j ops)
    unfolding walk_back
    walk-Walked zero i j ops h k l =
        let a : i ≡ 0 = omega arith in
        let b : j ≡ 0 = omega arith in rw (a, b) (refl, refl, unfold lcs in omega arith)
    walk-Walked (suc f) i j ops h k l =
        walk_move f i j ops (move_at table (length news) i j) h k l refl (move_at-MoveMeans i j h k)
          (walk-Walked f)

-- All lines on one side, for the short cuts.
all_added :
    (news : List (List ℕ))
    → (old_side (map (op_of added) news) ≡ [])
      × (new_side (map (op_of added) news) ≡ news)
      × (kept (map (op_of added) news) ≡ 0)
unfolding old_side new_side kept
all_added [] = (refl, refl, refl)
all_added (n ∷ ns) = let (o, w, c) = all_added ns in (o, ap (◌∷◌ n) w, c)

all_removed :
    (olds : List (List ℕ))
    → (old_side (map (op_of removed) olds) ≡ olds)
      × (new_side (map (op_of removed) olds) ≡ [])
      × (kept (map (op_of removed) olds) ≡ 0)
unfolding old_side new_side kept
all_removed [] = (refl, refl, refl)
all_removed (n ∷ ns) = let (o, w, c) = all_removed ns in (ap (◌∷◌ n) o, w, c)

pub diff-Script :
    (olds news : List (List ℕ))
    → length news < 65536
    → (old_side (diff_lines olds news) ≡ olds)
      × (new_side (diff_lines olds news) ≡ news)
      × (kept (diff_lines olds news) ≡ lcs olds news (length olds) (length news))
unfolding diff_lines
diff-Script [] [] h = unfold old_side new_side kept lcs in (refl, refl, refl)
diff-Script [] (n ∷ ns) h = let (o, w, c) = all_added (n ∷ ns) in (o, w, c ∙ unfold lcs in refl)
diff-Script (o ∷ os) [] h =
    let (a, w, c) = all_removed (o ∷ os) in (a, w, c ∙ sym (lcs_zero (o ∷ os) [] (length (o ∷ os))))
diff-Script (o ∷ os) (n ∷ ns) h =
    let (a, w, c) =
      walk-Walked (o ∷ os) (n ∷ ns) h (length (o ∷ os) + length (n ∷ ns)) (length (o ∷ os))
        (length (n ∷ ns)) [] (omega arith) (omega arith) (omega arith) in
    unfold old_side new_side kept in
    (a ∙ append-nil _ ∙ take-all (o ∷ os), w ∙ append-nil _ ∙ take-all (n ∷ ns), omega (arith, c))
