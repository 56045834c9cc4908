-- ===== src/Idx/Parse.antt =====
-- What the parser builds: the offsets in order, each with the entry that it belongs to.
use gitedge.Shared.{
  ℕ, zero, suc, ◌+◌, ◌-◌, ◌*◌, ◌≤◌, ◌<◌, ◌≡◌, refl, ◌∙◌, ap, String, Bool, List, ◌∷◌, map, ◌==◌,
  ltb, leb, leb→le, ==_iff, ◌||◌, length, get_or, Bool-cases, inl, inr, arith,
}
use gitedge.Shared.Sort.{sort_by-All, sort_by-IsSorted, length-sort_by, count-sort_by}
use gitedge.Shared.Positions.{
  All-get, get_or-map, keep-position, length-map, length-upto, sorted-get, upto, upto-All,
  upto-counts,
}
use gitedge.Idx.{
  IdxView, Outcome, absent, parsed, thrown, sort_indices, read_offset, read_offsets, get_uint32,
  read_fanout, is_idx, max_safe_integer, view_of, view_of_outcome, parse_idx_view,
}

pub record IsIndexed (view : IdxView) : Type 0 where
  pub counted : length view.offsets ≡ view.count
  pub as_many : length view.sorted_offsets ≡ view.count
  pub ordered :
      (i j : ℕ)
      → i < j
      → j < view.count
      → get_or view.sorted_offsets i 0 ≤ get_or view.sorted_offsets j 0
  pub paired :
      (m : ℕ)
      → m < view.count
      → (get_or view.sorted_offset_indices m 0 < view.count)
        × (get_or view.sorted_offsets m 0
            ≡ get_or view.offsets (get_or view.sorted_offset_indices m 0) 0)
  pub complete :
      (i : ℕ)
      → i < view.count
      → (m : ℕ) × (m < view.count) × (get_or view.sorted_offsets m 0 ≡ get_or view.offsets i 0)

length-sort_indices : (offsets : List ℕ) → length (sort_indices offsets) ≡ length offsets
unfolding sort_indices
length-sort_indices offsets = length-sort_by _ _ ∙ length-upto 0 (length offsets)

index_in_range :
    (offsets : List ℕ) (m : ℕ)
    → m < length offsets
    → get_or (sort_indices offsets) m 0 < length offsets
unfolding sort_indices
index_in_range offsets m h =
    All-get (λ i. i < length offsets) (sort_indices offsets) m 0
      (sort_by-All _ (λ i. i < length offsets) _
        (upto-All 0 (length offsets) (length offsets) (omega arith)))
      (omega (arith, length-sort_indices offsets))

indices_in_order :
    (offsets : List ℕ) (i j : ℕ)
    → i < j
    → j < length offsets
    → get_or offsets (get_or (sort_indices offsets) i 0) 0
      ≤ get_or offsets (get_or (sort_indices offsets) j 0) 0
unfolding sort_indices
indices_in_order offsets i j h l =
    let le : ℕ → ℕ → Bool = λ a b. leb (get_or offsets a 0) (get_or offsets b 0) in
    leb→le _ _ (
      sorted-get le (sort_indices offsets) i j 0
        (sort_by-IsSorted le (λ x y k. ground arith) (λ x y z k q. ground arith) _) h
        (omega (arith, length-sort_indices offsets)))

index_occurs :
    (offsets : List ℕ) (i : ℕ)
    → i < length offsets
    → (m : ℕ) × (m < length offsets) × (get_or (sort_indices offsets) m 0 ≡ i)
unfolding sort_indices
index_occurs offsets i h =
    let le : ℕ → ℕ → Bool = λ a b. leb (get_or offsets a 0) (get_or offsets b 0) in
    let counted = count-sort_by le (λ x. x == i) (upto 0 (length offsets)) in
    let (m, l, e) =
      keep-position (λ x. x == i) (sort_indices offsets) 0
        (omega (arith, counted, upto-counts 0 (length offsets) i (omega arith) (omega arith))) in
    (m, omega (arith, length-sort_indices offsets), (==_iff _ _).0 e)

sorted_value :
    (offsets : List ℕ) (m : ℕ)
    → m < length offsets
    → get_or (map (λ i. get_or offsets i 0) (sort_indices offsets)) m 0
      ≡ get_or offsets (get_or (sort_indices offsets) m 0) 0
sorted_value offsets m h =
    get_or-map (λ i. get_or offsets i 0) (sort_indices offsets) m 0 0
      (omega (arith, length-sort_indices offsets))

view_of-IsIndexed :
    (pack_key : String) (buf : List ℕ) (pack_size : ℕ) (fanout : List ℕ) (count : ℕ)
    (offsets : List ℕ)
    → length offsets ≡ count
    → IsIndexed (view_of pack_key buf pack_size fanout count offsets)
unfolding view_of
view_of-IsIndexed pack_key buf pack_size fanout count offsets e = record {
  counted = e;
  as_many =
      length-map (λ i. get_or offsets i 0) (sort_indices offsets) ∙ length-sort_indices offsets ∙ e;
  ordered = λ i j h l. omega (
    arith,
    sorted_value offsets i (omega arith),
    sorted_value offsets j (omega arith),
    indices_in_order offsets i j h (omega arith),
  );
  paired = λ m l.
      (omega (arith, index_in_range offsets m (omega arith)), sorted_value offsets m (omega arith));
  complete = λ i l.
      let (m, k, q) = index_occurs offsets i (omega arith) in
      (m, omega arith, sorted_value offsets m k ∙ ap (λ x. get_or offsets x 0) q);
}

-- What holds of the value, if there is one.
abbrev pub Holds {ℓ κ} : {A : Type ℓ} → (A → Type κ) → Outcome A → Type κ
Holds P absent = Unit
Holds P thrown = Unit
Holds P (parsed a) = P a

read_offsets-length :
    (buf : List ℕ) (large limit n pos : ℕ)
    → Holds (λ offsets. length offsets ≡ n) (read_offsets buf large limit n pos)
unfolding read_offsets
read_offsets-length buf large limit zero pos = refl
read_offsets-length buf large limit (suc n) pos =
    elim (read_offset buf large limit (get_uint32 buf pos))
      as (λ o.
        Holds (λ offsets. length offsets ≡ suc n)
          (elim o [
            | absent ↦ absent
            | thrown ↦ thrown
            | parsed offset ↦ elim (read_offsets buf large limit n (pos + 4)) [
              | absent ↦ absent
              | thrown ↦ thrown
              | parsed offsets ↦ parsed (offset ∷ offsets)
            ]
          ])) [
            | absent ↦ tt
            | thrown ↦ tt
            | parsed offset ↦
                one_more n offset (read_offsets buf large limit n (pos + 4))
                  (read_offsets-length buf large limit n (pos + 4))
          ]
  where
    one_more :
        (n offset : ℕ) (o : Outcome (List ℕ))
        → Holds (λ offsets. length offsets ≡ n) o
        → Holds
            (λ offsets. length offsets ≡ suc n)
            (elim o [
              | absent ↦ absent
              | thrown ↦ thrown
              | parsed offsets ↦ parsed (offset ∷ offsets)
            ])
    one_more n offset absent h = tt
    one_more n offset thrown h = tt
    one_more n offset (parsed offsets) h = omega arith

outcome-IsIndexed :
    (pack_key : String) (buf : List ℕ) (pack_size : ℕ) (fanout : List ℕ) (count : ℕ)
    (o : Outcome (List ℕ))
    → Holds (λ offsets. length offsets ≡ count) o
    → Holds IsIndexed (view_of_outcome pack_key buf pack_size fanout count o)
outcome-IsIndexed pack_key buf pack_size fanout count absent h = tt
outcome-IsIndexed pack_key buf pack_size fanout count thrown h = tt
outcome-IsIndexed pack_key buf pack_size fanout count (parsed offsets) h =
    view_of-IsIndexed pack_key buf pack_size fanout count offsets h

pub parse-Holds :
    (pack_key : String) (buf : List ℕ) (pack_size : ℕ)
    → Holds IsIndexed (parse_idx_view pack_key buf pack_size)
unfolding parse_idx_view
parse-Holds pack_key buf pack_size =
    let count = get_or (read_fanout buf) 255 0 in
    let start = 1032 + count * 24 in
    let limit = length buf - 40 in
    let body =
      outcome-IsIndexed pack_key buf pack_size (read_fanout buf) count
        (read_offsets buf (start + count * 4) limit count start)
        (read_offsets-length buf (start + count * 4) limit count start) in
    elim (Bool-cases (ltb pack_size 20 || ltb max_safe_integer pack_size)) [
      | inl y ↦ rw y tt
      | inr n ↦ elim (Bool-cases (ltb (length buf) 1072)) [
        | inl y ↦ rw (n, y) tt
        | inr m ↦ elim (Bool-cases (is_idx buf)) [
          | inr k ↦ rw (n, m, k) tt
          | inl k ↦
              elim (Bool-cases
                (ltb (length buf) (1032 + count * 20) || ltb limit (start + count * 4))) [
                  | inl y ↦ rw (n, m, k, y) tt
                  | inr o ↦ rw (n, m, k, o) body
                ]
        ]
      ]
    ]
