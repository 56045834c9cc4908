-- ===== src/Idx/Write/Tests.antt =====
-- A pack of two entries, one of them behind the first two gigabytes.
use gitedge.Shared.{
  ℕ, zero, suc, ◌+◌, ◌≤◌, ◌<◌, ◌≡◌, refl, List, [], ◌∷◌, ◌++◌, some, map, length, get_or, All,
  replicate, arith,
}
use gitedge.Idx.{IdxView, parsed, find_oid_index_from_bytes, parse_idx_view}
use gitedge.Idx.Write.{
  PackEntry, entry_at, offset_words, large_words, build_oid_sorted_entry_indices, write_idx_v2,
}
use gitedge.Idx.Write.Layout.{IsEntry}
use gitedge.Idx.Write.Order.{IsDistinct}
use gitedge.Idx.Write.Named.{write-FindsEntry}

abbrev name : ℕ → List ℕ
name b = b ∷ replicate 19 7

abbrev table : List PackEntry
table =
    record { oid = name 200; crc32 = 1; offset = 12 }
    ∷ record { oid = name 3; crc32 = 2; offset = 3000000000 }
    ∷ []

abbrev digest : List ℕ → List ℕ
digest bytes = replicate 20 0

table-IsEntry : All IsEntry table
table-IsEntry = (
  (refl, omega arith, omega arith, omega arith),
  ((refl, omega arith, omega arith, omega arith), tt),
)

table-IsDistinct : IsDistinct table
table-IsDistinct zero zero h k e = refl
table-IsDistinct zero (suc zero) h k e = absurd (ground (arith, e))
table-IsDistinct (suc zero) zero h k e = absurd (ground (arith, e))
table-IsDistinct (suc zero) (suc zero) h k e = refl
table-IsDistinct (suc (suc a)) b h k e = absurd (omega arith)
table-IsDistinct zero (suc (suc b)) h k e = absurd (omega arith)
table-IsDistinct (suc zero) (suc (suc b)) h k e = absurd (omega arith)

write-FindsEntry_example :
    (view : IdxView) × (parse_idx_view "pack"
        (write_idx_v2 digest table (replicate 20 9))
        3000000100
      ≡ parsed view)
    × (view.count ≡ length table)
    × ((a : ℕ)
        → a < length table
        → (i : ℕ) × (find_oid_index_from_bytes view (entry_at table a).oid 0 ≡ some i)
          × (i < view.count)
          × (get_or view.offsets i 0 ≡ (entry_at table a).offset))
write-FindsEntry_example =
    write-FindsEntry digest table (replicate 20 9) "pack" 3000000100 (λ bytes. refl) refl
      table-IsEntry table-IsDistinct (omega arith) (omega arith) (omega arith)

-- The entry with the smaller name comes first.
in_order : build_oid_sorted_entry_indices table ≡ 1 ∷ 0 ∷ []
unfolding build_oid_sorted_entry_indices gitedge.Shared.Sort.sort_by gitedge.Idx.Write.index_le
    gitedge.Idx.Write.compare_oids gitedge.Idx.compare_bytes
in_order = refl

large_offset :
    (offset_words 0 table ≡ 12 ∷ 2147483648 ∷ []) × (large_words table ≡ 0 ∷ 3000000000 ∷ [])
unfolding offset_words large_words
large_offset = (refl, refl)
