-- ===== src/Shared/Positions.antt =====
-- Elements by their positions.
use gitedge.Shared.{
  ℕ, zero, suc, ◌+◌, ◌≤◌, ◌<◌, ◌≡◌, refl, ap, ◌∙◌, ◌++◌, Bool, true, List, [], ◌∷◌, map, ◌==◌,
  length, get_or, keep, All, Bool-cases, inl, inr, arith,
}
use gitedge.Shared.Sort.{IsSorted}

pub get_or-map {ℓ κ} :
    {A : Type ℓ} {B : Type κ} (f : A → B) (xs : List A) (m : ℕ) (d : B) (e : A)
    → m < length xs
    → get_or (map f xs) m d ≡ f (get_or xs m e)
get_or-map f [] m d e h = absurd (omega arith)
get_or-map f (x ∷ xs) zero d e h = refl
get_or-map f (x ∷ xs) (suc m) d e h = get_or-map f xs m d e (omega arith)

-- Elements of two lists one behind the other.
pub get_or-left {ℓ} :
    {A : Type ℓ} (xs ys : List A) (k : ℕ) (d : A)
    → k < length xs
    → get_or (xs ++ ys) k d ≡ get_or xs k d
get_or-left [] ys k d h = absurd (omega arith)
get_or-left (x ∷ xs) ys zero d h = refl
get_or-left (x ∷ xs) ys (suc k) d h = get_or-left xs ys k d (omega arith)

pub get_or-right {ℓ} :
    {A : Type ℓ} (xs ys : List A) (k : ℕ) (d : A)
    → get_or (xs ++ ys) (length xs + k) d ≡ get_or ys k d
get_or-right [] ys k d = ap (λ i. get_or ys i d) {x = 0 + k} {y = k} (omega arith)
get_or-right (x ∷ xs) ys k d =
    let shifted : suc (length xs) + k ≡ suc (length xs + k) = omega arith in
    ap (λ i. get_or (x ∷ (xs ++ ys)) i d) shifted ∙ get_or-right xs ys k d

pub length-map {ℓ κ} :
    {A : Type ℓ} {B : Type κ} (f : A → B) (xs : List A) → length (map f xs) ≡ length xs
length-map f [] = refl
length-map f (x ∷ xs) = omega (arith, length-map f xs)

pub All-get {ℓ κ} :
    {A : Type ℓ} (P : A → Type κ) (xs : List A) (m : ℕ) (d : A)
    → All P xs
    → m < length xs
    → P (get_or xs m d)
All-get P [] m d h l = absurd (omega arith)
All-get P (x ∷ xs) zero d (p, h) l = p
All-get P (x ∷ xs) (suc m) d (p, h) l = All-get P xs m d h (omega arith)

pub sorted-get {ℓ} :
    {A : Type ℓ} (le : A → A → Bool) (xs : List A) (i j : ℕ) (d : A)
    → IsSorted le xs
    → i < j
    → j < length xs
    → le (get_or xs i d) (get_or xs j d) ≡ true
sorted-get le [] i j d s h l = absurd (omega arith)
sorted-get le (x ∷ xs) i zero d s h l = absurd (omega arith)
sorted-get le (x ∷ xs) zero (suc j) d (a, s) h l =
    All-get (λ y. le x y ≡ true) xs j d a (omega arith)
sorted-get le (x ∷ xs) (suc i) (suc j) d (a, s) h l =
    sorted-get le xs i j d s (omega arith) (omega arith)

-- What a test counts stands somewhere.
pub keep-position {ℓ} :
    {A : Type ℓ} (p : A → Bool) (xs : List A) (d : A)
    → 0 < length (keep p xs)
    → (m : ℕ) × (m < length xs) × (p (get_or xs m d) ≡ true)
keep-position p [] d h = absurd (omega arith)
keep-position p (x ∷ xs) d h = elim (Bool-cases (p x)) [
  | inl y ↦ (0, omega arith, y)
  | inr n ↦ let (m, l, e) = keep-position p xs d (rw n at h) in (suc m, omega arith, e)
]

-- The numbers from `from` on, `n` of them.
abbrev pub upto : ℕ → ℕ → List ℕ
upto from zero = []
upto from (suc n) = from ∷ upto (from + 1) n

pub length-upto : (from n : ℕ) → length (upto from n) ≡ n
length-upto from zero = refl
length-upto from (suc n) = omega (arith, length-upto (from + 1) n)

pub upto-All : (from n bound : ℕ) → from + n ≤ bound → All (λ i. i < bound) (upto from n)
upto-All from zero bound h = tt
upto-All from (suc n) bound h = (omega arith, upto-All (from + 1) n bound (omega arith))

pub upto-counts :
    (from n i : ℕ) → from ≤ i → i < from + n → 0 < length (keep (λ x. x == i) (upto from n))
upto-counts from zero i l h = absurd (omega arith)
upto-counts from (suc n) i l h = elim (Bool-cases (from == i)) [
  | inl y ↦ rw y (omega arith)
  | inr k ↦ rw k (upto-counts (from + 1) n i (ground arith) (omega arith))
]
