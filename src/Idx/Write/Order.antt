-- ===== src/Idx/Write/Order.antt =====
-- The order in which `writeIdxV2` writes the entries.
use gitedge.Shared.{
  ℕ, zero, suc, ◌+◌, ◌≤◌, ◌<◌, ◌≡◌, ◌⊎◌, refl, sym, ap, ◌∙◌, Bool, true, false, List, [], ◌∷◌, map,
  leb, ◌==◌, ==_iff, not, length, get_or, All, inl, inr, arith,
}
use gitedge.Shared.Sort.{IsSorted, sort_by-All, length-sort_by, count-sort_by}
use gitedge.Shared.Sort.Pairs.{sort_by-IsSorted_on, sort_by-pairs}
use gitedge.Shared.Positions.{
  All-get, get_or-map, keep-position, length-map, length-upto, sorted-get, upto, upto-All,
  upto-counts,
}
use gitedge.Idx.{Probe, hit, less, more, compare_bytes}
use gitedge.Idx.Names.{compare_trans, compare-hit, compare_refl}
use gitedge.Idx.Write.{
  PackEntry, no_entry, entry_at, compare_oids, index_le, build_oid_sorted_entry_indices,
  sorted_entries,
}
use gitedge.Idx.Write.Layout.{IsEntry}

abbrev differ : ℕ → ℕ → Bool
differ a b = not (a == b)

differ-sym : (a b : ℕ) → differ a b ≡ true → differ b a ≡ true
differ-sym a b h = ground (arith, h)

upto-differ : (from n : ℕ) → IsSorted differ (upto from n)
upto-differ from zero = tt
upto-differ from (suc n) = (later from (from + 1) n (omega arith), upto-differ (from + 1) n)
  where
    later : (x from n : ℕ) → x < from → All (λ y. differ x y ≡ true) (upto from n)
    later x from zero h = tt
    later x from (suc n) h = (ground arith, later x (from + 1) n (omega arith))

compare-more : (xs ys : List ℕ) → compare_bytes xs ys ≡ more → compare_bytes ys xs ≡ less
unfolding compare_bytes
compare-more [] [] h = absurd (ground arith)
compare-more [] (y ∷ ys) h = refl
compare-more (x ∷ xs) [] h = absurd (ground arith)
compare-more (x ∷ xs) (y ∷ ys) h = ground (arith, compare-more xs ys)

compare-same : (xs ys : List ℕ) → compare_bytes xs ys ≡ hit → compare_bytes ys xs ≡ hit
unfolding compare_bytes
compare-same [] [] h = refl
compare-same [] (y ∷ ys) h = absurd (ground (arith, h))
compare-same (x ∷ xs) [] h = absurd (ground (arith, h))
compare-same (x ∷ xs) (y ∷ ys) h = ground (arith, compare-same xs ys)

pub compare-first :
    (xs ys : List ℕ)
    → 0 < length xs
    → 0 < length ys
    → compare_bytes xs ys ≡ less
    → get_or xs 0 0 ≤ get_or ys 0 0
unfolding compare_bytes
compare-first [] ys h l e = absurd (omega arith)
compare-first (x ∷ xs) [] h l e = absurd (omega arith)
compare-first (x ∷ xs) (y ∷ ys) h l e = ground (arith, e)

-- The names of a pack are all different.
abbrev pub IsDistinct : List PackEntry → Type 0
IsDistinct table =
    (a b : ℕ)
    → a < length table
    → b < length table
    → (entry_at table a).oid ≡ (entry_at table b).oid
    → a ≡ b

module _ (table : List PackEntry) (entries : All IsEntry table) where
  abbrev size : ℕ
  size = length table

  abbrev indices : List ℕ
  indices = build_oid_sorted_entry_indices table

  full_name : (a : ℕ) → a < size → length (entry_at table a).oid ≡ 20
  full_name a h = (All-get IsEntry table a no_entry entries h).0

  index_total :
      (x y : ℕ) → x < size → y < size → index_le table x y ≡ false → index_le table y x ≡ true
  unfolding index_le compare_oids
  index_total x y hx hy e =
      total_case x y (compare_bytes (entry_at table x).oid (entry_at table y).oid)
        (compare_bytes (entry_at table y).oid (entry_at table x).oid)
        (compare-more (entry_at table x).oid (entry_at table y).oid)
        (compare-same (entry_at table x).oid (entry_at table y).oid) e
    where
      total_case :
          (x y : ℕ) (p q : Probe)
          → (p ≡ more → q ≡ less)
          → (p ≡ hit → q ≡ hit)
          → elim p [ less ↦ true | more ↦ false | hit ↦ leb x y ] ≡ false
          → elim q [ less ↦ true | more ↦ false | hit ↦ leb y x ] ≡ true
      total_case x y hit q a b e = rw (b refl) (ground (arith, e))
      total_case x y less q a b e = absurd (ground (arith, e))
      total_case x y more q a b e = rw (a refl) refl

  -- `index_le` says: an earlier name, or the same name at an earlier index.
  index_le-elim :
      (x y : ℕ)
      → x < size
      → y < size
      → index_le table x y ≡ true
      → (compare_oids table x y ≡ less)
        ⊎ (((entry_at table x).oid ≡ (entry_at table y).oid) × (x ≤ y))
  unfolding index_le compare_oids
  index_le-elim x y hx hy e =
      cases (compare_bytes (entry_at table x).oid (entry_at table y).oid) refl e
    where
      cases :
          (p : Probe)
          → compare_bytes (entry_at table x).oid (entry_at table y).oid ≡ p
          → elim p [ less ↦ true | more ↦ false | hit ↦ leb x y ] ≡ true
          → (compare_bytes (entry_at table x).oid (entry_at table y).oid ≡ less)
            ⊎ (((entry_at table x).oid ≡ (entry_at table y).oid) × (x ≤ y))
      cases hit q e = inr (
        compare-hit (entry_at table x).oid (entry_at table y).oid
            (full_name x hx ∙ sym (full_name y hy)) q,
        ground (arith, e),
      )
      cases less q e = inl q
      cases more q e = absurd (ground (arith, e))

  index_le-less : (x y : ℕ) → compare_oids table x y ≡ less → index_le table x y ≡ true
  unfolding index_le
  index_le-less x y e = rw (e, index_le) refl

  index_le-same :
      (x y : ℕ)
      → (entry_at table x).oid ≡ (entry_at table y).oid
      → x ≤ y
      → index_le table x y ≡ true
  unfolding index_le compare_oids
  index_le-same x y e h =
      let equal : compare_bytes (entry_at table x).oid (entry_at table y).oid ≡ hit =
        ap (λ o. compare_bytes o (entry_at table y).oid) e ∙ compare_refl (entry_at table y).oid in
      rw (equal, index_le, compare_oids) (ground arith)

  index_trans :
      (x y z : ℕ)
      → x < size
      → y < size
      → z < size
      → index_le table x y ≡ true
      → index_le table y z ≡ true
      → index_le table x z ≡ true
  unfolding compare_oids
  index_trans x y z hx hy hz e k = elim (index_le-elim x y hx hy e) [
    | inl a ↦ elim (index_le-elim y z hy hz k) [
      | inl b ↦ index_le-less x z (
          compare_trans (entry_at table x).oid (entry_at table y).oid (entry_at table z).oid
            (full_name x hx ∙ sym (full_name y hy)) (full_name y hy ∙ sym (full_name z hz)) a b)
      | inr (b, l) ↦ index_le-less x z (ap (compare_bytes (entry_at table x).oid) (sym b) ∙ a)
    ]
    | inr (a, h) ↦ elim (index_le-elim y z hy hz k) [
      | inl b ↦ index_le-less x z (ap (λ o. compare_bytes o (entry_at table z).oid) a ∙ b)
      | inr (b, l) ↦ index_le-same x z (a ∙ b) (omega arith)
    ]
  ]

  pub length-indices : length indices ≡ size
  unfolding build_oid_sorted_entry_indices
  length-indices = length-sort_by (index_le table) (upto 0 size) ∙ length-upto 0 size

  pub index_in : (i : ℕ) → i < size → get_or indices i 0 < size
  unfolding build_oid_sorted_entry_indices
  index_in i h =
      All-get (λ x. x < size) indices i 0
        (sort_by-All (index_le table) (λ x. x < size) (upto 0 size)
          (upto-All 0 size size (omega arith)))
        (omega (arith, length-indices))

  pub indices-ascend :
      (distinct : IsDistinct table) (i j : ℕ)
      → i < j
      → j < size
      → compare_oids table (get_or indices i 0) (get_or indices j 0) ≡ less
  unfolding build_oid_sorted_entry_indices
  indices-ascend distinct i j h l =
      let inside = upto-All 0 size size (omega arith) in
      let sorted =
        sort_by-IsSorted_on (index_le table) (λ x. x < size) index_total index_trans (upto 0 size)
          inside in
      let apart =
        sort_by-pairs (index_le table) differ differ-sym (upto 0 size) (upto-differ 0 size) in
      let end : j < length indices = omega (arith, length-indices) in
      let x = get_or indices i 0 in
      let y = get_or indices j 0 in
      elim (index_le-elim x y (index_in i (omega arith)) (index_in j l)
        (sorted-get (index_le table) indices i j 0 sorted h end)) [
          | inl a ↦ a
          | inr (same, _) ↦ absurd (
              ground (
                arith,
                sorted-get differ indices i j 0 apart h end,
                distinct x y (index_in i (omega arith)) (index_in j l) same,
              ))
        ]

  pub index-occurs : (a : ℕ) → a < size → (m : ℕ) × (m < size) × (get_or indices m 0 ≡ a)
  unfolding build_oid_sorted_entry_indices
  index-occurs a h =
      let counted = count-sort_by (index_le table) (λ x. x == a) (upto 0 size) in
      let (m, l, e) =
        keep-position (λ x. x == a) indices 0
          (omega (arith, counted, upto-counts 0 size a (omega arith) (omega arith))) in
      (m, omega (arith, length-indices), (==_iff _ _).0 e)

  pub length-sorted_entries : length (sorted_entries table) ≡ size
  unfolding sorted_entries
  length-sorted_entries = length-map (entry_at table) indices ∙ length-indices

  pub sorted-entry :
      (i : ℕ) → i < size → entry_at (sorted_entries table) i ≡ entry_at table (get_or indices i 0)
  unfolding sorted_entries
  sorted-entry i h =
      get_or-map (entry_at table) indices i no_entry 0 (omega (arith, length-indices))

  pub sorted_entries-All : All IsEntry (sorted_entries table)
  unfolding sorted_entries build_oid_sorted_entry_indices
  sorted_entries-All = map-All (build_oid_sorted_entry_indices table) (
      sort_by-All (index_le table) (λ x. x < size) (upto 0 size)
        (upto-All 0 size size (omega arith)))
    where
      map-All : (is : List ℕ) → All (λ x. x < size) is → All IsEntry (map (entry_at table) is)
      map-All [] h = tt
      map-All (i ∷ is) (p, h) = (All-get IsEntry table i no_entry entries p, map-All is h)
