-- ===== src/Patch/Hunks.antt =====
-- The ranges of the hunks: apart from one another, in order, and around every change.
use gitedge.Shared.{
  ℕ, zero, suc, ◌+◌, ◌-◌, ◌≤◌, ◌<◌, ◌≡◌, refl, sym, ap, ◌∙◌, ◌⊎◌, Bool, if◌then◌else◌, inl, inr,
  true, false, List, [], ◌∷◌, some, leb, min, length, get_elem?, All, All-map, Bool-cases, arith,
}
use mathlib.Core.Path.{subst}
use mathlib.Core.Option.{some-injective, none-ne-some}
use gitedge.Patch.{PatchOp}
use gitedge.Patch.Unified.{
  Range, is_change, changes_from, range_at, widen, ranges_loop, ranges_of_changes, ranges_of,
}

module _ (count : ℕ) where
  -- Each range lies in the script, and begins behind the end of the one before it.
  abbrev pub IsApart : ℕ → List Range → Type 0
  IsApart from [] = Unit
  IsApart from (r ∷ rs) =
      (from ≤ r.start) × (r.start < r.end) × (r.end ≤ count) × IsApart (suc r.end) rs

  -- A range that holds the change and its context, cut off at the ends of the script.
  abbrev pub Holds : ℕ → Range → Type 0
  Holds index r = (r.start ≤ index - 3) × (min count (index + 4) ≤ r.end)

  abbrev pub IsCovered : ℕ → List Range → Type 0
  IsCovered index [] = ⊥
  IsCovered index (r ∷ rs) = Holds index r ⊎ IsCovered index rs

  -- Indexes in ascending order.
  abbrev Ascending : ℕ → List ℕ → Type 0
  Ascending from [] = Unit
  Ascending from (x ∷ xs) = (from ≤ x) × (x < count) × Ascending (suc x) xs

  loop-IsApart :
      (last : Range) (xs : List ℕ) (from lo : ℕ)
      → from ≤ last.start
      → last.start < last.end
      → last.end ≤ count
      → last.start ≤ lo - 3
      → Ascending lo xs
      → IsApart from (ranges_loop count last xs)
  unfolding ranges_loop range_at widen
  loop-IsApart last [] from lo a b c d h = (a, b, c, tt)
  loop-IsApart last (x ∷ xs) from lo a b c d (p, q, h) = elim (Bool-cases (leb (x - 3) last.end)) [
    | inl near ↦
        rw (near, ranges_loop)
          (loop-IsApart (widen last (range_at count x).end) xs from (suc x) a (omega arith)
            (omega arith) (omega arith) h)
    | inr far ↦
        rw (far, ranges_loop)
          (
            a,
            b,
            c,
            loop-IsApart (range_at count x) xs (suc last.end) (suc x) (ground arith) (omega arith)
                (omega arith) (omega arith) h,
          )
  ]

  -- What the last range holds stays held.
  loop-Holds :
      (index : ℕ) (last : Range) (xs : List ℕ)
      → Holds index last
      → IsCovered index (ranges_loop count last xs)
  unfolding ranges_loop range_at widen
  loop-Holds index last [] h = inl h
  loop-Holds index last (x ∷ xs) h = elim (Bool-cases (leb (x - 3) last.end)) [
    | inl near ↦
        rw (near, ranges_loop)
          (loop-Holds index (widen last (range_at count x).end) xs (h.0, omega arith))
    | inr far ↦ rw (far, ranges_loop) (inl h)
  ]

  loop-IsCovered :
      (last : Range) (xs : List ℕ) (lo : ℕ)
      → last.start ≤ lo - 3
      → Ascending lo xs
      → All (λ index. IsCovered index (ranges_loop count last xs)) xs
  unfolding ranges_loop range_at widen
  loop-IsCovered last [] lo s h = tt
  loop-IsCovered last (x ∷ xs) lo s (p, q, h) = elim (Bool-cases (leb (x - 3) last.end)) [
    | inl near ↦
        let wide = widen last (range_at count x).end in
        let e : ranges_loop count last (x ∷ xs) ≡ ranges_loop count wide xs =
          rw (near, ranges_loop) refl in
        subst (λ rs. IsCovered x rs × All (λ i. IsCovered i rs) xs) (sym e)
          (
            loop-Holds x wide xs (omega arith, omega arith),
            loop-IsCovered wide xs (suc x) (omega arith) h,
          )
    | inr far ↦
        let new = range_at count x in
        let e : ranges_loop count last (x ∷ xs) ≡ last ∷ ranges_loop count new xs =
          rw (far, ranges_loop) refl in
        subst (λ rs. IsCovered x rs × All (λ i. IsCovered i rs) xs) (sym e)
          (
            inr (loop-Holds x new xs (omega arith, omega arith)),
            All-map _ _ (λ i c. inr c) xs (loop-IsCovered new xs (suc x) (omega arith) h),
          )
  ]

  Ascending-weaken : (a b : ℕ) (xs : List ℕ) → a ≤ b → Ascending b xs → Ascending a xs
  Ascending-weaken a b [] h k = tt
  Ascending-weaken a b (x ∷ xs) h (p, q, r) = (omega arith, q, r)

  changes-Ascending :
      (index : ℕ) (ops : List PatchOp)
      → index + length ops ≤ count
      → Ascending index (changes_from index ops)
  unfolding changes_from
  changes-Ascending index [] h = tt
  changes-Ascending index (op ∷ ops) h =
      let rest = changes-Ascending (suc index) ops (omega arith) in
      elim (Bool-cases (is_change op.kind)) [
        | inl y ↦ rw y (omega arith, omega arith, rest)
        | inr n ↦ rw n (Ascending-weaken index (suc index) _ (omega arith) rest)
      ]

  changes-IsApart : (xs : List ℕ) → Ascending 0 xs → IsApart 0 (ranges_of_changes count xs)
  unfolding ranges_of_changes range_at
  changes-IsApart [] h = tt
  changes-IsApart (x ∷ xs) (p, q, h) =
      loop-IsApart (range_at count x) xs 0 (suc x) (omega arith) (omega arith) (omega arith)
        (omega arith) h

  changes-IsCovered :
      (xs : List ℕ)
      → Ascending 0 xs
      → All (λ index. IsCovered index (ranges_of_changes count xs)) xs
  unfolding ranges_of_changes range_at
  changes-IsCovered [] h = tt
  changes-IsCovered (x ∷ xs) (p, q, h) = (
    loop-Holds x (range_at count x) xs (omega arith, omega arith),
    loop-IsCovered (range_at count x) xs (suc x) (omega arith) h,
  )

-- A change stands among the indexes.
change-All {κ} :
    (P : ℕ → Type κ) (index i : ℕ) (ops : List PatchOp) (op : PatchOp)
    → get_elem? ops i ≡ some op
    → is_change op.kind ≡ true
    → All P (changes_from index ops)
    → P (index + i)
unfolding changes_from
change-All P index i [] op e c h = absurd (none-ne-some op e)
change-All P index zero (o ∷ ops) op e c h =
    let same_op : o ≡ op = some-injective o op e in
    let y : is_change o.kind ≡ true = ap (λ p. is_change p.kind) same_op ∙ c in
    subst P {x = index} {y = index + 0} (omega arith) (rw y at h).0
change-All P index (suc i) (o ∷ ops) op e c h =
    subst P {x = suc index + i} {y = index + suc i} (omega arith)
      (change-All P (suc index) i ops op e c (tail_of (is_change o.kind) h))
  where
    tail_of :
        (b : Bool)
        → All P (if b then index ∷ changes_from (suc index) ops else changes_from (suc index) ops)
        → All P (changes_from (suc index) ops)
    tail_of true (_, t) = t
    tail_of false t = t

-- The ranges of the hunks lie in the script, in order, with at least one line between two of them, and
-- every removed or added line lies in one of them together with the three lines before and behind it,
-- as far as the script has these.
pub ranges-AreHunks :
    (ops : List PatchOp)
    → IsApart (length ops) 0 (ranges_of ops)
      × ((i : ℕ) (op : PatchOp)
          → get_elem? ops i ≡ some op
          → is_change op.kind ≡ true
          → IsCovered (length ops) i (ranges_of ops))
unfolding ranges_of
ranges-AreHunks ops =
    let ascending = changes-Ascending (length ops) 0 ops (omega arith) in
    (
      changes-IsApart (length ops) (changes_from 0 ops) ascending,
      λ i op e c.
          subst (λ k. IsCovered (length ops) k (ranges_of ops)) {x = 0 + i} {y = i} (omega arith)
            (change-All (λ k. IsCovered (length ops) k (ranges_of ops)) 0 i ops op e c
              (changes-IsCovered (length ops) (changes_from 0 ops) ascending)),
    )
