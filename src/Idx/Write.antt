-- ===== src/Idx/Write.antt =====
-- src/worker/git/pack/indexer/writeIdx.ts: the index that is written for a pack. The entry table is a
-- list of entries; the digest of the platform is the parameter `sha1`. The source writes each part
-- at the end of the one before, so the buffer is their concatenation.
pub mod Bytes
pub mod Fanout
pub mod Offsets
pub mod Layout
pub mod Parsed
pub mod Order
pub mod Named
mod Tests
use gitedge.Shared.{
  ℕ, zero, suc, ◌+◌, ◌/◌, ◌%◌, Bool, true, false, List, [], ◌∷◌, ◌++◌, map, leb, ◌==◌,
  if◌then◌else◌, length, get_or, keep,
}
use gitedge.Shared.Sort.{sort_by}
use gitedge.Shared.Positions.{upto}
use gitedge.Idx.{Probe, hit, less, more, compare_bytes}

pub record PackEntry : Type 0 where
  pub oid : List ℕ
  pub crc32 : ℕ
  pub offset : ℕ

abbrev pub no_entry : PackEntry
no_entry = record { oid = []; crc32 = 0; offset = 0 }

abbrev pub entry_at : List PackEntry → ℕ → PackEntry
entry_at table i = get_or table i no_entry

-- `compareOids`, its sign.
unfoldable pub compare_oids : List PackEntry → ℕ → ℕ → Probe
compare_oids table a b = compare_bytes (entry_at table a).oid (entry_at table b).oid

-- `compareOids(...) || a - b` is not positive.
unfoldable pub index_le : List PackEntry → ℕ → ℕ → Bool
index_le table a b = elim (compare_oids table a b) [ less ↦ true | more ↦ false | hit ↦ leb a b ]

unfoldable pub build_oid_sorted_entry_indices : List PackEntry → List ℕ
build_oid_sorted_entry_indices table = sort_by (index_le table) (upto 0 (length table))

unfoldable pub sorted_entries : List PackEntry → List PackEntry
sorted_entries table = map (entry_at table) (build_oid_sorted_entry_indices table)

-- `setUint32(pos, n, false)`
unfoldable pub uint32_bytes : ℕ → List ℕ
uint32_bytes n = (n / 16777216 % 256) ∷ (n / 65536 % 256) ∷ (n / 256 % 256) ∷ (n % 256) ∷ []

unfoldable pub words : List ℕ → List ℕ
words [] = []
words (n ∷ ns) = uint32_bytes n ++ words ns

abbrev pub first_byte : PackEntry → ℕ
first_byte e = get_or e.oid 0 0

-- `buckets[b]`
unfoldable pub bucket : List PackEntry → ℕ → ℕ
bucket entries b = length (keep (λ e. first_byte e == b) entries)

-- `cumulative += buckets[b]`, for `n` buckets from `b` on.
unfoldable pub fanout_from : List PackEntry → ℕ → ℕ → ℕ → List ℕ
fanout_from entries b zero cumulative = []
fanout_from entries b (suc n) cumulative =
    (cumulative + bucket entries b) ∷ fanout_from entries (suc b) n (cumulative + bucket entries b)

unfoldable pub name_bytes : List PackEntry → List ℕ
name_bytes [] = []
name_bytes (e ∷ es) = e.oid ++ name_bytes es

-- `0x80000000 | largeIdx` for a large offset.
unfoldable pub offset_words : ℕ → List PackEntry → List ℕ
offset_words large [] = []
offset_words large (e ∷ es) =
    let here = offset_words large es in
    let next = offset_words (large + 1) es in
    if leb 2147483648 e.offset then (2147483648 + large % 2147483648) ∷ next else e.offset ∷ here

-- The high word is 0, since an offset has 32 bits.
unfoldable pub large_words : List PackEntry → List ℕ
large_words [] = []
large_words (e ∷ es) =
    let rest = large_words es in if leb 2147483648 e.offset then 0 ∷ e.offset ∷ rest else rest

abbrev pub magic : List ℕ
magic = 0xff ∷ 0x74 ∷ 0x4f ∷ 0x63 ∷ []

-- What stands before the digest.
unfoldable pub idx_body : List PackEntry → List ℕ → List ℕ
idx_body entries checksum =
    magic
    ++ (uint32_bytes 2
        ++ (words (fanout_from entries 0 256 0)
            ++ (name_bytes entries
                ++ (words (map (λ e. e.crc32) entries)
                    ++ (words (offset_words 0 entries)
                        ++ (words (large_words entries) ++ checksum))))))

unfoldable pub write_idx_v2 : (List ℕ → List ℕ) → List PackEntry → List ℕ → List ℕ
write_idx_v2 sha1 table checksum =
    let body = idx_body (sorted_entries table) checksum in body ++ sha1 body
