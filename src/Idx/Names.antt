-- ===== src/Idx/Names.antt =====
-- The search for an object name in an index whose name table is sorted and whose fanout fits it.
use gitedge.Shared.{
  ℕ, zero, suc, ◌+◌, ◌-◌, ◌*◌, ◌≤◌, ◌<◌, ◌≡◌, ◌≢◌, refl, sym, ◌∙◌, ap, false, List, [], ◌∷◌, Option,
  none, some, ltb, ◌==◌, if◌then◌else◌, length, length-take, length-drop, take, drop, get_or,
  Bool-cases, inl, inr, arith,
}
use gitedge.Idx.{
  IdxView, hit, less, more, bisect, compare_bytes, compare_oid_at, find_oid_index_from_bytes,
}
use gitedge.Idx.Bisect.{IsMonotone, Finds, bisect-Finds}

pub compare_refl : (xs : List ℕ) → compare_bytes xs xs ≡ hit
unfolding compare_bytes
compare_refl [] = refl
compare_refl (x ∷ xs) = ground (arith, compare_refl xs)

pub compare-hit : (xs ys : List ℕ) → length xs ≡ length ys → compare_bytes xs ys ≡ hit → xs ≡ ys
unfolding compare_bytes
compare-hit [] [] l h = refl
compare-hit [] (y ∷ ys) l h = absurd (omega arith)
compare-hit (x ∷ xs) [] l h = absurd (omega arith)
compare-hit (x ∷ xs) (y ∷ ys) l h = ground (arith, compare-hit xs ys)

pub compare_trans :
    (xs ys zs : List ℕ)
    → length xs ≡ length ys
    → length ys ≡ length zs
    → compare_bytes xs ys ≡ less
    → compare_bytes ys zs ≡ less
    → compare_bytes xs zs ≡ less
unfolding compare_bytes
compare_trans [] ys zs l m h k = absurd (ground arith)
compare_trans (x ∷ xs) [] zs l m h k = absurd (omega arith)
compare_trans (x ∷ xs) (y ∷ ys) [] l m h k = absurd (omega arith)
compare_trans (x ∷ xs) (y ∷ ys) (z ∷ zs) l m h k = ground (arith, compare_trans xs ys zs)

compare_after :
    (xs ys zs : List ℕ)
    → length xs ≡ length ys
    → length ys ≡ length zs
    → compare_bytes xs ys ≡ less
    → compare_bytes xs zs ≡ more
    → compare_bytes ys zs ≡ more
unfolding compare_bytes
compare_after [] ys zs l m h k = absurd (ground arith)
compare_after (x ∷ xs) [] zs l m h k = absurd (omega arith)
compare_after (x ∷ xs) (y ∷ ys) [] l m h k = absurd (omega arith)
compare_after (x ∷ xs) (y ∷ ys) (z ∷ zs) l m h k = ground (arith, compare_after xs ys zs)

-- The name of an entry.
abbrev pub name_at : IdxView → ℕ → List ℕ
name_at view i = take 20 (drop (i * 20) view.raw_names)

-- Where the names with a first byte begin.
abbrev pub bucket_start : IdxView → ℕ → ℕ
bucket_start view b = if b == 0 then 0 else get_or view.fanout (b - 1) 0

-- What the format of an index promises: full names, in strictly ascending order, and a fanout that
-- tells for each first byte where its names are.
pub record HasNameTable (view : IdxView) : Type 0 where
  pub full : length view.raw_names ≡ view.count * 20
  pub ascending :
      (i j : ℕ) → i < j → j < view.count → compare_bytes (name_at view i) (name_at view j) ≡ less
  pub buckets :
      (i : ℕ)
      → i < view.count
      → (bucket_start view (get_or (name_at view i) 0 0) ≤ i)
        × (i < get_or view.fanout (get_or (name_at view i) 0 0) 0)
  pub bounded : (b : ℕ) → get_or view.fanout b 0 ≤ view.count

-- The answer of the search means: the entry has the name, or no entry has it.
abbrev pub FindsName : IdxView → List ℕ → Option ℕ → Type 0
FindsName view name (some i) = (i < view.count) × (name_at view i ≡ name)
FindsName view name none = (i : ℕ) → i < view.count → name_at view i ≢ name

length-name_at :
    (view : IdxView) (i : ℕ) → HasNameTable view → i < view.count → length (name_at view i) ≡ 20
length-name_at view i table h =
    let full = table.full in
    omega
      (arith, length-take 20 (drop (i * 20) view.raw_names), length-drop (i * 20) view.raw_names)

names-IsMonotone :
    (view : IdxView) (needle : List ℕ) (lo high : ℕ)
    → HasNameTable view
    → length needle ≡ 20
    → high ≤ view.count
    → IsMonotone (compare_oid_at view needle) lo high
unfolding compare_oid_at
names-IsMonotone view needle lo high table n bound = record {
  below = λ i j l h u p. elim (Bool-cases (ltb i j)) [
    | inl y ↦
        compare_trans (name_at view i) (name_at view j) needle
          (length-name_at view i table (omega arith)
            ∙ sym (length-name_at view j table (omega arith)))
          (length-name_at view j table (omega arith) ∙ sym n)
          (table.ascending i j (ground arith) (omega arith)) p
    | inr k ↦ let e : i ≡ j = ground arith in rw e p
  ];
  above = λ i j l h u p. elim (Bool-cases (ltb i j)) [
    | inl y ↦
        compare_after (name_at view i) (name_at view j) needle
          (length-name_at view i table (omega arith)
            ∙ sym (length-name_at view j table (omega arith)))
          (length-name_at view j table (omega arith) ∙ sym n)
          (table.ascending i j (ground arith) (omega arith)) p
    | inr k ↦ let e : i ≡ j = ground arith in rw⁻¹ e p
  ];
}

get-first :
    (start : ℕ) (bytes : List ℕ) → get_or (take 20 (drop start bytes)) 0 0 ≡ get_or bytes start 0
get-first zero [] = refl
get-first zero (b ∷ bytes) = refl
get-first (suc start) [] = refl
get-first (suc start) (b ∷ bytes) = get-first start bytes

finds_name :
    (view : IdxView) (needle : List ℕ) (first : ℕ) (r : Option ℕ)
    → HasNameTable view
    → length needle ≡ 20
    → get_or needle 0 0 ≡ first
    → Finds (compare_oid_at view needle) (bucket_start view first) (get_or view.fanout first 0) r
    → FindsName view needle r
unfolding compare_oid_at
finds_name view needle first none table n e h = λ i l same.
    let at_first : get_or (name_at view i) 0 0 ≡ first = ap (λ w. get_or w 0 0) same ∙ e in
    let (low, high) = table.buckets i l in
    h i (rw at_first at low) (rw at_first at high) (rw same (compare_refl needle))
finds_name view needle first (some i) table n e (low, high, p) =
    let l : i < view.count = omega (arith, table.bounded first) in
    (l, compare-hit (name_at view i) needle (length-name_at view i table l ∙ sym n) p)

-- In an index whose name table is as its format promises, the search for the twenty bytes at a place
-- of a buffer that has them gives the entry with this name, and gives none only if no entry has it.
pub find_oid-FindsName :
    (view : IdxView) (bytes : List ℕ) (start : ℕ)
    → HasNameTable view
    → start + 20 ≤ length bytes
    → FindsName view (take 20 (drop start bytes)) (find_oid_index_from_bytes view bytes start)
find_oid-FindsName view bytes start table h =
    let needle = take 20 (drop start bytes) in
    let first = get_or bytes start 0 in
    let n : length needle ≡ 20 =
      omega (arith, length-take 20 (drop start bytes), length-drop start bytes) in
    let fits : ltb (length bytes) (start + 20) ≡ false = ground arith in
    let run : find_oid_index_from_bytes view bytes start
        ≡ bisect (compare_oid_at view needle) (get_or view.fanout first 0) (bucket_start view first)
            (get_or view.fanout first 0) =
      unfold find_oid_index_from_bytes in rw (fits, find_oid_index_from_bytes) refl in
    rw run (
      finds_name view needle first _ table n (get-first start bytes) (
        bisect-Finds (compare_oid_at view needle) (get_or view.fanout first 0)
          (bucket_start view first) (get_or view.fanout first 0) (omega arith)
          (names-IsMonotone view needle (bucket_start view first) (get_or view.fanout first 0) table
            n (table.bounded first))))
