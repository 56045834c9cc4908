-- ===== src/Patch/Numbers.antt =====
-- The numbers in the header of a hunk name the lines that it is about.
use gitedge.Shared.{
  ℕ, zero, suc, ◌+◌, ◌-◌, ◌%◌, ◌^◌, ◌≤◌, ◌<◌, ◌≡◌, refl, sym, ap, ◌∙◌, List, [], ◌∷◌, ◌++◌, map,
  length, get_or, take, drop, take-append-drop, take-length, drop-length, All, arith,
}
use gitedge.Patch.{Kind, same, added, removed, PatchOp, op_of, diff_lines}
use gitedge.Patch.Script.{old_side, new_side, diff-Script}
use gitedge.Patch.Unified.{
  Range, old_weight, new_weight, line_starts, count_lines, Hunk, slice, hunk_of, ranges_of,
  hunks_of,
}
use gitedge.Patch.Hunks.{IsApart, ranges-AreHunks}

old_op :
    (k : Kind) (l : List ℕ) (xs ys : List PatchOp)
    → old_side (xs ++ ys) ≡ old_side xs ++ old_side ys
    → old_side ((op_of k l ∷ xs) ++ ys) ≡ old_side (op_of k l ∷ xs) ++ old_side ys
unfolding old_side
old_op same l xs ys h = ap (◌∷◌ l) h
old_op removed l xs ys h = ap (◌∷◌ l) h
old_op added l xs ys h = h

new_op :
    (k : Kind) (l : List ℕ) (xs ys : List PatchOp)
    → new_side (xs ++ ys) ≡ new_side xs ++ new_side ys
    → new_side ((op_of k l ∷ xs) ++ ys) ≡ new_side (op_of k l ∷ xs) ++ new_side ys
unfolding new_side
new_op same l xs ys h = ap (◌∷◌ l) h
new_op added l xs ys h = ap (◌∷◌ l) h
new_op removed l xs ys h = h

old_side-append : (xs ys : List PatchOp) → old_side (xs ++ ys) ≡ old_side xs ++ old_side ys
old_side-append [] ys = unfold old_side in refl
old_side-append (op ∷ xs) ys = old_op op.kind op.line xs ys (old_side-append xs ys)

new_side-append : (xs ys : List PatchOp) → new_side (xs ++ ys) ≡ new_side xs ++ new_side ys
new_side-append [] ys = unfold new_side in refl
new_side-append (op ∷ xs) ys = new_op op.kind op.line xs ys (new_side-append xs ys)

old_weigh :
    (k : Kind) (l : List ℕ) (ops : List PatchOp)
    → length (old_side (op_of k l ∷ ops)) ≡ old_weight k + length (old_side ops)
unfolding old_side
old_weigh same l ops = omega arith
old_weigh removed l ops = omega arith
old_weigh added l ops = omega arith

new_weigh :
    (k : Kind) (l : List ℕ) (ops : List PatchOp)
    → length (new_side (op_of k l ∷ ops)) ≡ new_weight k + length (new_side ops)
unfolding new_side
new_weigh same l ops = omega arith
new_weigh removed l ops = omega arith
new_weigh added l ops = omega arith

old_count-length : (ops : List PatchOp) → count_lines old_weight ops ≡ length (old_side ops)
unfolding count_lines
old_count-length [] = unfold old_side in refl
old_count-length (op ∷ ops) = omega (arith, old_weigh op.kind op.line ops, old_count-length ops)

new_count-length : (ops : List PatchOp) → count_lines new_weight ops ≡ length (new_side ops)
unfolding count_lines
new_count-length [] = unfold new_side in refl
new_count-length (op ∷ ops) = omega (arith, new_weigh op.kind op.line ops, new_count-length ops)

-- Each operation counts on one side at least.
length-le :
    (ops : List PatchOp) → length ops ≤ count_lines old_weight ops + count_lines new_weight ops
unfolding count_lines
length-le [] = omega arith
length-le (op ∷ ops) = omega (arith, length-le ops, either op.kind)
  where
    either : (k : Kind) → 1 ≤ old_weight k + new_weight k
    either same = omega arith
    either added = omega arith
    either removed = omega arith

module _ (weight : Kind → ℕ) (light : (k : Kind) → weight k ≤ 1) where
  starts-count :
      (n k : ℕ) (ops : List PatchOp)
      → k ≤ length ops
      → n + length ops < 4294967296
      → get_or (line_starts weight n ops) k 0 ≡ n + count_lines weight (take k ops)
  unfolding line_starts count_lines
  starts-count n zero [] h l = omega arith
  starts-count n (suc k) [] h l = absurd (omega arith)
  starts-count n zero (op ∷ ops) h l = omega arith
  starts-count n (suc k) (op ∷ ops) h l =
      let next : (n + weight op.kind) % 2 ^ 32 ≡ n + weight op.kind =
        omega (arith, light op.kind) in
      rw next (
        starts-count (n + weight op.kind) k ops (omega arith) (omega (arith, light op.kind))
        ∙ omega arith)

-- A slice of a script has on a side the lines that its counts say.
module _ (side : List PatchOp → List (List ℕ)) (weight : Kind → ℕ)
    (side_append : (xs ys : List PatchOp) → side (xs ++ ys) ≡ side xs ++ side ys)
    (count : (xs : List PatchOp) → count_lines weight xs ≡ length (side xs)) where
  slice-side :
      (ops : List PatchOp) (start end : ℕ)
      → side (slice start end ops)
        ≡ take
            (count_lines weight (slice start end ops))
            (drop (count_lines weight (take start ops)) (side ops))
  unfolding slice
  slice-side ops start end =
      let rest = drop start ops in
      let part = take (end - start) rest in
      let behind : drop (count_lines weight (take start ops)) (side ops) ≡ side rest =
        ap (λ o. drop (count_lines weight (take start ops)) (side o))
          (sym (take-append-drop start ops))
        ∙ rw (side_append, count (take start ops))
            (drop-length (side (take start ops)) (side rest)) in
      rw behind (
        sym (
          ap (λ o. take (count_lines weight part) (side o))
            (sym (take-append-drop (end - start) rest))
          ∙ rw (side_append part (drop (end - start) rest), count part)
              (take-length (side part) (side (drop (end - start) rest)))))

-- A hunk replaces the old lines that its header names by the new ones that it names. Lines count
-- from 1.
abbrev pub IsTrue : List (List ℕ) → List (List ℕ) → Hunk → Type 0
IsTrue olds news h =
    (old_side h.ops ≡ take h.old_count (drop (h.old_start - 1) olds))
    × (new_side h.ops ≡ take h.new_count (drop (h.new_start - 1) news))
    × (h.old_count ≡ length (old_side h.ops))
    × (h.new_count ≡ length (new_side h.ops))

old_light : (k : Kind) → old_weight k ≤ 1
old_light same = omega arith
old_light added = omega arith
old_light removed = omega arith

new_light : (k : Kind) → new_weight k ≤ 1
new_light same = omega arith
new_light added = omega arith
new_light removed = omega arith

module _ (ops : List PatchOp) (small : 1 + length ops < 4294967296) where
  hunk-IsTrue :
      (r : Range) → r.start ≤ length ops → IsTrue (old_side ops) (new_side ops) (hunk_of ops r)
  unfolding hunk_of
  hunk-IsTrue r h =
      let old = starts-count old_weight old_light 1 r.start ops h small in
      let new = starts-count new_weight new_light 1 r.start ops h small in
      let less : (n : ℕ) → 1 + n - 1 ≡ n = λ n. omega arith in
      (
        slice-side old_side old_weight old_side-append old_count-length ops r.start r.end
            ∙ rw (old, less) refl,
        slice-side new_side new_weight new_side-append new_count-length ops r.start r.end
            ∙ rw (new, less) refl,
        old_count-length (slice r.start r.end ops),
        new_count-length (slice r.start r.end ops),
      )

  hunks-IsTrue :
      (from : ℕ) (rs : List Range)
      → IsApart (length ops) from rs
      → All (IsTrue (old_side ops) (new_side ops)) (map (hunk_of ops) rs)
  hunks-IsTrue from [] h = tt
  hunks-IsTrue from (r ∷ rs) (a, b, c, h) =
      (hunk-IsTrue r (omega arith), hunks-IsTrue (suc r.end) rs h)

-- If the new text has fewer than 65536 lines and both have fewer than 2^32 - 1 together, then in each
-- hunk of the patch between two texts the old and the new lines are those that the header names by
-- their first line and their number, on both sides, and the numbers count the hunk's lines.
pub hunks_of-IsTrue :
    (olds news : List (List ℕ))
    → length news < 65536
    → length olds + length news < 4294967295
    → All (IsTrue olds news) (hunks_of (diff_lines olds news))
unfolding hunks_of
hunks_of-IsTrue olds news h sum =
    let ops = diff_lines olds news in
    let (o, n, _) = diff-Script olds news h in
    let short : 1 + length ops < 4294967296 = omega (
      arith,
      length-le ops,
      old_count-length ops,
      new_count-length ops,
      ap length o,
      ap length n,
    ) in
    rw (o, n) at (hunks-IsTrue ops short 0 (ranges_of ops) (ranges-AreHunks ops).0)
