-- ===== src/Idx/Cache.antt =====
-- The cache of index views that idxView.ts keeps in memory, bounded by the bytes of its views. A key
-- is a pack key and a pack size; entries stand in the order in which they were set, as in a `Map`.
pub mod Accounts
use gitedge.Shared.{
  ℕ, zero, suc, ◌+◌, ◌-◌, ◌*◌, ◌≤◌, ◌<◌, ◌≡◌, refl, sym, ◌∙◌, ap, String, Bool, true, false, List,
  [], ◌∷◌, ◌++◌, Option, none, some, ltb, ltb→lt, ◌==◌, ==_iff, ◌&&◌, if◌then◌else◌, length, keep,
  All, Bool-cases, inl, inr, arith,
}
use gitedge.Shared.Text.{str_eq, str_eq_iff}
use gitedge.Idx.{IdxView}

abbrev pub idx_view_cache_max_bytes : ℕ
idx_view_cache_max_bytes = 16777216

pub record CachedIdxView : Type 0 where
  pub pack_key : String
  pub pack_size : ℕ
  pub view : IdxView
  pub bytes : ℕ

pub record IdxViewCache : Type 0 where
  pub entries : List CachedIdxView
  pub cache_bytes : ℕ

abbrev pub has_cache_key : String → ℕ → CachedIdxView → Bool
has_cache_key pack_key pack_size entry =
    str_eq entry.pack_key pack_key && entry.pack_size == pack_size

unfoldable pub get_cached : String → ℕ → List CachedIdxView → Option CachedIdxView
get_cached pack_key pack_size [] = none
get_cached pack_key pack_size (e ∷ es) =
    if has_cache_key pack_key pack_size e then some e else get_cached pack_key pack_size es

-- The elements of the arrays have 4, 1, 8, 8, 8, 4, 1 and 1 bytes.
unfoldable pub estimate_idx_view_bytes : IdxView → ℕ
estimate_idx_view_bytes view =
    4 * length view.fanout
    + length view.raw_names
    + 8 * length view.offsets
    + 8 * length view.next_offset_by_index
    + 8 * length view.sorted_offsets
    + 4 * length view.sorted_offset_indices
    + length view.pack_checksum
    + length view.idx_checksum

abbrev pub bytes_of : Option CachedIdxView → ℕ
bytes_of none = 0
bytes_of (some e) = e.bytes

-- `idxViewCache.delete(key)`
unfoldable pub delete_cached : String → ℕ → List CachedIdxView → List CachedIdxView
delete_cached pack_key pack_size =
    keep (λ e. if has_cache_key pack_key pack_size e then false else true)

-- The loop that drops the first entry while there are too many bytes.
unfoldable pub evict : ℕ → List CachedIdxView → IdxViewCache
evict total [] = record { entries = []; cache_bytes = total }
evict total (e ∷ es) =
    if ltb idx_view_cache_max_bytes total
    then evict (total - e.bytes) es
    else record { entries = e ∷ es; cache_bytes = total }

unfoldable pub touch_idx_view_cache : String → ℕ → IdxView → IdxViewCache → IdxViewCache
touch_idx_view_cache pack_key pack_size value cache =
    let total = cache.cache_bytes - bytes_of (get_cached pack_key pack_size cache.entries) in
    let entries = delete_cached pack_key pack_size cache.entries in
    let bytes = estimate_idx_view_bytes value in
    if ltb idx_view_cache_max_bytes bytes
    then record { entries = entries; cache_bytes = total }
    else evict (total + bytes) (
        entries
        ++ (record { pack_key = pack_key; pack_size = pack_size; view = value; bytes = bytes }
            ∷ []))
