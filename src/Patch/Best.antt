-- ===== src/Patch/Best.antt =====
-- `diffLines` against every other edit script.
use gitedge.Shared.{
  ℕ, zero, suc, ◌+◌, ◌≤◌, ◌<◌, ◌≡◌, sym, ap, ◌∙◌, List, [], ◌∷◌, length, get_or, drop, arith,
}
use gitedge.Shared.Text.{codes_eq_iff}
use gitedge.Patch.{Kind, same, added, removed, PatchOp, op_of, diff_lines}
use gitedge.Patch.Lcs.{lcs, lcs_step, lcs-both}
use gitedge.Patch.Script.{old_side, new_side, kept, diff-Script}

drop_cons :
    (xs : List (List ℕ)) (i : ℕ) (l : List ℕ) (ls : List (List ℕ))
    → l ∷ ls ≡ drop i xs
    → (l ≡ get_or xs i []) × (ls ≡ drop (suc i) xs) × (i < length xs)
drop_cons [] zero l ls e = absurd (ground arith)
drop_cons [] (suc i) l ls e = absurd (ground arith)
drop_cons (x ∷ xs) zero l ls e = (ground (arith, e), ground (arith, e), omega arith)
drop_cons (x ∷ xs) (suc i) l ls e = let (a, b, c) = drop_cons xs i l ls e in (a, b, omega arith)

drop_nil : (xs : List (List ℕ)) (i : ℕ) → i ≤ length xs → [] ≡ drop i xs → i ≡ length xs
drop_nil [] i h e = omega arith
drop_nil (x ∷ xs) zero h e = absurd (ground arith)
drop_nil (x ∷ xs) (suc i) h e = ap suc (drop_nil xs i (omega arith) e)

module _ (olds news : List (List ℕ)) where
  abbrev Bounded : List PatchOp → Type 0
  Bounded ops =
      (i j : ℕ)
      → i ≤ length olds
      → j ≤ length news
      → old_side ops ≡ drop i olds
      → new_side ops ≡ drop j news
      → lcs olds news i j + kept ops ≤ lcs olds news (length olds) (length news)

  op_Bounded :
      (k : Kind) (l : List ℕ) (ops : List PatchOp) → Bounded ops → Bounded (op_of k l ∷ ops)
  unfolding old_side new_side kept
  op_Bounded same l ops ih i j h k o n =
      let (a, as_rest, c) = drop_cons olds i l (old_side ops) o in
      let (b, bs_rest, d) = drop_cons news j l (new_side ops) n in
      omega (
        arith,
        ih (suc i) (suc j) (omega arith) (omega arith) as_rest bs_rest,
        lcs-both olds news i j ((codes_eq_iff (get_or olds i []) (get_or news j [])).1 (sym a ∙ b)),
      )
  op_Bounded removed l ops ih i j h k o n =
      let (a, rest, c) = drop_cons olds i l (old_side ops) o in
      omega (arith, ih (suc i) j (omega arith) k rest n, (lcs_step olds news i j).0)
  op_Bounded added l ops ih i j h k o n =
      let (b, rest, d) = drop_cons news j l (new_side ops) n in
      omega (arith, ih i (suc j) h (omega arith) o rest, (lcs_step olds news i j).2)

  script-Bounded : (ops : List PatchOp) → Bounded ops
  unfolding old_side new_side kept
  script-Bounded [] i j h k o n =
      let a : i ≡ length olds = drop_nil olds i h o in
      let b : j ≡ length news = drop_nil news j k n in rw (a, b) (omega arith)
  script-Bounded (op ∷ ops) i j h k o n =
      op_Bounded op.kind op.line ops (script-Bounded ops) i j h k o n

-- A script that turns the old lines into the new ones.
abbrev pub IsScript : List (List ℕ) → List (List ℕ) → List PatchOp → Type 0
IsScript olds news ops = (old_side ops ≡ olds) × (new_side ops ≡ news)

-- If the new text has fewer than 65536 lines, then what `diffLines` keeps and removes are exactly the
-- old lines in their order, what it keeps and adds are exactly the new ones, and no script that turns
-- the old lines into the new ones keeps more of them.
pub diff-IsBest :
    (olds news : List (List ℕ))
    → length news < 65536
    → IsScript olds news (diff_lines olds news)
      × ((ops : List PatchOp) → IsScript olds news ops → kept ops ≤ kept (diff_lines olds news))
diff-IsBest olds news h =
    let (o, n, c) = diff-Script olds news h in
    (
      (o, n),
      λ ops (script : IsScript olds news ops). omega (
        arith,
        c,
        script-Bounded olds news ops 0 0 (omega arith) (omega arith) script.0 script.1,
      ),
    )
