-- ===== src/Idx/Lookup.antt =====
-- The search for an offset in a parsed index.
use gitedge.Shared.{
  ℕ, ◌≤◌, ◌<◌, ◌≡◌, ◌≢◌, sym, ◌∙◌, String, List, Option, none, some, ltb, length, get_or,
  Bool-cases, inl, inr, arith,
}
use mathlib.Core.Path.{subst}
use gitedge.Idx.{
  IdxView, hit, less, more, parsed, compare_numbers, index_at, find_offset_index, parse_idx_view,
}
use gitedge.Idx.Bisect.{IsMonotone, Finds, bisect-Finds}
use gitedge.Idx.Parse.{IsIndexed, Holds, parse-Holds}

-- What the answer of `findOffsetIndex` means: an entry with the offset, or no entry has it.
abbrev pub FindsOffset : IdxView → ℕ → Option ℕ → Type 0
FindsOffset view offset (some i) = (i < view.count) × (get_or view.offsets i 0 ≡ offset)
FindsOffset view offset none = (i : ℕ) → i < view.count → get_or view.offsets i 0 ≢ offset

compare_numbers_iff :
    (v wanted : ℕ)
    → (compare_numbers v wanted ≡ hit → v ≡ wanted)
      × (compare_numbers v wanted ≡ less → v < wanted)
      × (compare_numbers v wanted ≡ more → wanted < v)
      × (v ≡ wanted → compare_numbers v wanted ≡ hit)
      × (v < wanted → compare_numbers v wanted ≡ less)
      × (wanted < v → compare_numbers v wanted ≡ more)
unfolding compare_numbers
compare_numbers_iff v wanted = ground arith

up_to :
    (value : ℕ → ℕ) (i j n : ℕ)
    → ((i j : ℕ) → i < j → j < n → value i ≤ value j)
    → i ≤ j
    → j < n
    → value i ≤ value j
up_to value i j n up h u = elim (Bool-cases (ltb i j)) [
  | inl y ↦ up i j (ground arith) u
  | inr k ↦ let e : i ≡ j = ground arith in rw e (omega arith)
]

numbers-IsMonotone :
    (value : ℕ → ℕ) (wanted n : ℕ)
    → ((i j : ℕ) → i < j → j < n → value i ≤ value j)
    → IsMonotone (λ m. compare_numbers (value m) wanted) 0 n
numbers-IsMonotone value wanted n up = record {
  below = λ i j l h u p.
      let later : value j < wanted = (compare_numbers_iff (value j) wanted).1 p in
      let order = up_to value i j n up h u in
      (compare_numbers_iff (value i) wanted).4 (omega arith);
  above = λ i j l h u p.
      let later : wanted < value i = (compare_numbers_iff (value i) wanted).2 p in
      let order = up_to value i j n up h u in
      (compare_numbers_iff (value j) wanted).5 (omega arith);
}

finds_offset :
    (view : IdxView) (offset : ℕ) (r : Option ℕ)
    → IsIndexed view
    → Finds
        (λ m. compare_numbers (get_or view.sorted_offsets m 0) offset)
        0
        (length view.sorted_offsets)
        r
    → FindsOffset view offset (index_at view.sorted_offset_indices r)
finds_offset view offset none indexed h = λ i l e.
    let (m, k, q) = indexed.complete i l in
    h m (omega arith) (omega (arith, indexed.as_many))
      ((compare_numbers_iff (get_or view.sorted_offsets m 0) offset).3 (q ∙ e))
finds_offset view offset (some m) indexed (_, k, e) =
    let (small, pair) = indexed.paired m (omega (arith, indexed.as_many)) in
    (small, sym pair ∙ (compare_numbers_iff (get_or view.sorted_offsets m 0) offset).0 e)

find_offset_index-FindsOffset :
    (view : IdxView) (offset : ℕ)
    → IsIndexed view
    → FindsOffset view offset (find_offset_index view offset)
unfolding find_offset_index
find_offset_index-FindsOffset view offset indexed =
    let n = length view.sorted_offsets in
    let value : ℕ → ℕ = λ m. get_or view.sorted_offsets m 0 in
    finds_offset view offset _ indexed (
      bisect-Finds (λ m. compare_numbers (value m) offset) n 0 n (omega arith)
        (numbers-IsMonotone value offset n
          (λ i j h l. indexed.ordered i j h (omega (arith, indexed.as_many)))))

-- In an index that was parsed from any bytes, the search for an offset gives an entry of the index
-- with this offset, and gives none only if no entry has it.
pub parse-find_offset :
    (pack_key : String) (buf : List ℕ) (pack_size offset : ℕ) (view : IdxView)
    → parse_idx_view pack_key buf pack_size ≡ parsed view
    → FindsOffset view offset (find_offset_index view offset)
parse-find_offset pack_key buf pack_size offset view e =
    find_offset_index-FindsOffset view offset
      (subst (Holds IsIndexed) e (parse-Holds pack_key buf pack_size))
