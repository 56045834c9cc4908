-- ===== src/Idx/Tests.antt =====
-- An index of two objects, at the offsets 50 and 12 of a pack of 1000 bytes.
use gitedge.Shared.{
  ◌⊎◌, ℕ, zero, suc, get_or, All, All-append, ◌+◌, ◌-◌, ◌≤◌, ◌<◌, ◌≡◌, refl, String, Bool, List, [],
  ◌∷◌, ◌++◌, Option, none, some, replicate, take, drop, length, arith,
}
use gitedge.Idx.{
  IdxView, parsed, find_offset_index, find_oid_index_from_bytes, get_next_offset, parse_idx_view,
  read_fanout, view_of, is_idx, get_uint32, read_offsets, read_offset, bisect, compare_numbers,
  sort_indices, fill_next, set_at, compare_bytes, less,
}
use gitedge.Idx.Cache.{
  IdxViewCache, idx_view_cache_max_bytes, get_cached, estimate_idx_view_bytes, touch_idx_view_cache,
}
use gitedge.Idx.Cache.Accounts.{IsAccounted, touch-IsAccounted}
use gitedge.Idx.Names.{HasNameTable, FindsName, name_at, bucket_start, find_oid-FindsName}
use gitedge.Idx.Lookup.{FindsOffset, parse-find_offset}

abbrev two_objects : List ℕ
two_objects =
    (0xff ∷ 0x74 ∷ 0x4f ∷ 0x63 ∷ 0 ∷ 0 ∷ 0 ∷ 2 ∷ [])
    ++ (replicate 1020 0
        ++ ((0 ∷ 0 ∷ 0 ∷ 2 ∷ [])
            ++ (replicate 20 0xff
                ++ (replicate 20 0xff
                    ++ (replicate 8 0
                        ++ ((0 ∷ 0 ∷ 0 ∷ 50 ∷ 0 ∷ 0 ∷ 0 ∷ 12 ∷ []) ++ replicate 40 9))))))

abbrev view : IdxView
view = view_of "p1" two_objects 1000 (read_fanout two_objects) 2 (50 ∷ 12 ∷ [])

two_objects_parse : parse_idx_view "p1" two_objects 1000 ≡ parsed view
unfolding parse_idx_view is_idx get_uint32 read_fanout read_offsets read_offset
two_objects_parse = refl

parse-find_offset_example : FindsOffset view 12 (find_offset_index view 12)
parse-find_offset_example = parse-find_offset "p1" two_objects 1000 12 view two_objects_parse

-- The entry at 12 ends where the entry at 50 starts, and that one ends at the trailer.
next_offsets : (get_next_offset view 12 ≡ some 50) × (get_next_offset view 50 ≡ some 980)
unfolding get_next_offset find_offset_index bisect compare_numbers view_of sort_indices fill_next
    set_at gitedge.Shared.Sort.sort_by
next_offsets = (refl, refl)

abbrev named : IdxView
named = record view {
  raw_names = replicate 20 5 ++ replicate 20 7;
  fanout = replicate 5 0 ++ (replicate 2 1 ++ replicate 249 2);
}

replicate-All : (n x bound : ℕ) → x ≤ bound → All (λ y. y ≤ bound) (replicate n x)
replicate-All zero x bound h = tt
replicate-All (suc n) x bound h = (h, replicate-All n x bound h)

get_or-le : (xs : List ℕ) (b bound : ℕ) → All (λ y. y ≤ bound) xs → get_or xs b 0 ≤ bound
get_or-le [] b bound h = omega arith
get_or-le (x ∷ xs) zero bound (p, h) = p
get_or-le (x ∷ xs) (suc b) bound (p, h) = get_or-le xs b bound h

named_order : (i j : ℕ) → i < j → j < 2 → compare_bytes (name_at named i) (name_at named j) ≡ less
unfolding compare_bytes
named_order i zero h l = absurd (omega arith)
named_order zero (suc zero) h l = refl
named_order (suc i) (suc zero) h l = absurd (omega arith)
named_order i (suc (suc j)) h l = absurd (omega arith)

named_buckets :
    (i : ℕ)
    → i < 2
    → (bucket_start named (get_or (name_at named i) 0 0) ≤ i)
      × (i < get_or named.fanout (get_or (name_at named i) 0 0) 0)
named_buckets zero h = (omega arith, omega arith)
named_buckets (suc zero) h = (omega arith, omega arith)
named_buckets (suc (suc i)) h = absurd (omega arith)

named-HasNameTable : HasNameTable named
unfolding view_of
named-HasNameTable = record {
  full = refl;
  ascending = named_order;
  buckets = named_buckets;
  bounded = λ b. get_or-le named.fanout b 2 (
      All-append (λ y. y ≤ 2) (replicate 5 0) (replicate 2 1 ++ replicate 249 2)
        (replicate-All 5 0 2 (omega arith))
        (All-append (λ y. y ≤ 2) (replicate 2 1) (replicate 249 2)
          (replicate-All 2 1 2 (omega arith)) (replicate-All 249 2 2 (omega arith))));
}

find_oid-FindsName_example :
    FindsName named
      (take 20 (drop 1 (9 ∷ replicate 20 7)))
      (find_oid_index_from_bytes named (9 ∷ replicate 20 7) 1)
find_oid-FindsName_example =
    find_oid-FindsName named (9 ∷ replicate 20 7) 1 named-HasNameTable (omega arith)

abbrev one_cached : IdxViewCache
one_cached = record {
  entries = record { pack_key = "p0"; pack_size = 500; view = view; bytes = 16777000 } ∷ [];
  cache_bytes = 16777000;
}

touch-IsAccounted_example :
    let touched = touch_idx_view_cache "p1" 1000 view one_cached in
    let bytes = estimate_idx_view_bytes view in
    IsAccounted touched
    × ((idx_view_cache_max_bytes < bytes)
        ⊎ (get_cached "p1" 1000 touched.entries
            ≡ some (record { pack_key = "p1"; pack_size = 1000; view = view; bytes = bytes })))
unfolding get_cached
touch-IsAccounted_example =
    touch-IsAccounted "p1" 1000 view one_cached
      (record { unique = (refl, tt); total = refl; bounded = omega arith })
