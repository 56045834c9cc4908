-- ===== src/Idx/Bisect.antt =====
-- Binary search over a range on which the comparison goes from `less` over `hit` to `more`.
use gitedge.Shared.{
  ℕ, zero, suc, ◌+◌, ◌-◌, ◌/◌, ◌≤◌, ◌<◌, ◌≡◌, ◌≢◌, refl, Option, none, some, ltb, ltb→lt,
  Bool-cases, inl, inr, arith,
}
use gitedge.Idx.{Probe, hit, less, more, bisect}

-- What is before an element that comes too early comes too early, and so on the other side.
pub record IsMonotone (probe : ℕ → Probe) (lo high : ℕ) : Type 0 where
  pub below : (i j : ℕ) → lo ≤ i → i ≤ j → j < high → probe j ≡ less → probe i ≡ less
  pub above : (i j : ℕ) → lo ≤ i → i ≤ j → j < high → probe i ≡ more → probe j ≡ more

-- What the two answers of a search mean.
abbrev pub Finds : (ℕ → Probe) → ℕ → ℕ → Option ℕ → Type 0
Finds probe lo high (some m) = (lo ≤ m) × (m < high) × (probe m ≡ hit)
Finds probe lo high none = (m : ℕ) → lo ≤ m → m < high → probe m ≢ hit

wider :
    (probe : ℕ → Probe) (lo lo' high high' : ℕ) (r : Option ℕ)
    → lo ≤ lo'
    → high' ≤ high
    → ((m : ℕ) → lo ≤ m → m < lo' → probe m ≢ hit)
    → ((m : ℕ) → high' ≤ m → m < high → probe m ≢ hit)
    → Finds probe lo' high' r
    → Finds probe lo high r
wider probe lo lo' high high' none a b left right h = λ m l u. elim (Bool-cases (ltb m lo')) [
  | inl y ↦ left m l (ground arith)
  | inr n ↦ elim (Bool-cases (ltb m high')) [
    | inl y ↦ h m (ground arith) (ground arith)
    | inr k ↦ right m (ground arith) u
  ]
]
wider probe lo lo' high high' (some m) a b left right h = (omega arith, omega arith, h.2)

narrow :
    (probe : ℕ → Probe) (lo lo' high high' : ℕ)
    → lo ≤ lo'
    → high' ≤ high
    → IsMonotone probe lo high
    → IsMonotone probe lo' high'
narrow probe lo lo' high high' a b mono = record {
  below = λ i j l h u p. mono.below i j (omega arith) h (omega arith) p;
  above = λ i j l h u p. mono.above i j (omega arith) h (omega arith) p;
}

bisect_step :
    (probe : ℕ → Probe) (f lo high : ℕ) (p : Probe)
    → probe ((lo + (high - 1)) / 2) ≡ p
    → lo < high
    → high ≤ lo + suc f
    → IsMonotone probe lo high
    → ((lo' high' : ℕ)
        → high' ≤ lo' + f
        → IsMonotone probe lo' high'
        → Finds probe lo' high' (bisect probe f lo' high'))
    → Finds probe lo high (bisect probe (suc f) lo high)
bisect_step probe f lo high hit e ne fuel mono rest =
    let r : bisect probe (suc f) lo high ≡ some ((lo + (high - 1)) / 2) =
      unfold bisect in ground (arith, e) in
    rw r (omega arith, omega arith, e)
bisect_step probe f lo high less e ne fuel mono rest =
    let mid = (lo + (high - 1)) / 2 in
    let r : bisect probe (suc f) lo high ≡ bisect probe f (mid + 1) high =
      unfold bisect in ground (arith, e) in
    rw r (
      wider probe lo (mid + 1) high high (bisect probe f (mid + 1) high) (omega arith) (omega arith)
        (λ m l u h. not_hit (mono.below m mid l (omega arith) (omega arith) e) h)
        (λ m l u. absurd (omega arith))
        (rest (mid + 1) high (omega arith)
          (narrow probe lo (mid + 1) high high (omega arith) (omega arith) mono)))
  where
    not_hit : {p : Probe} → p ≡ less → p ≡ hit → ⊥
    not_hit a b = cc
bisect_step probe f lo high more e ne fuel mono rest =
    let mid = (lo + (high - 1)) / 2 in
    let r : bisect probe (suc f) lo high ≡ bisect probe f lo mid =
      unfold bisect in ground (arith, e) in
    rw r (
      wider probe lo lo high mid (bisect probe f lo mid) (omega arith) (omega arith)
        (λ m l u. absurd (omega arith))
        (λ m l u h. not_hit (mono.above mid m (omega arith) l u e) h)
        (rest lo mid (omega arith) (narrow probe lo lo high mid (omega arith) (omega arith) mono)))
  where
    not_hit : {p : Probe} → p ≡ more → p ≡ hit → ⊥
    not_hit a b = cc

-- With at least as many rounds as elements, the search on a monotone comparison finds an element that
-- compares as equal, and finds none only if there is none.
pub bisect-Finds :
    (probe : ℕ → Probe) (f lo high : ℕ)
    → high ≤ lo + f
    → IsMonotone probe lo high
    → Finds probe lo high (bisect probe f lo high)
bisect-Finds probe zero lo high fuel mono = unfold bisect in λ m l u. absurd (omega arith)
bisect-Finds probe (suc f) lo high fuel mono = elim (Bool-cases (ltb lo high)) [
  | inl y ↦
      bisect_step probe f lo high (probe ((lo + (high - 1)) / 2)) refl (ltb→lt lo high y) fuel mono
        (λ lo' high' h m. bisect-Finds probe f lo' high' h m)
  | inr n ↦
      let r : bisect probe (suc f) lo high ≡ none = unfold bisect in ground arith in
      rw r (λ m l u. absurd (ground arith))
]
