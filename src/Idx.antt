-- ===== src/Idx.antt =====
-- src/worker/git/object-store/idxView.ts: the index of a pack, read from its bytes and searched.
-- Typed arrays are lists of numbers, read as 0 past the end where the source reads in range.
pub mod Bisect
pub mod Parse
pub mod Lookup
pub mod Names
pub mod Cache
pub mod Write
mod Tests
use gitedge.Shared.{
  ℕ, zero, suc, ◌+◌, ◌-◌, ◌*◌, ◌/◌, ◌%◌, ◌^◌, String, Bool, true, false, List, [], ◌∷◌, Option,
  none, some, map, ltb, leb, ◌==◌, ◌||◌, ◌&&◌, if◌then◌else◌, length, take, drop, get_or,
}
use gitedge.Shared.Sort.{sort_by}
use gitedge.Shared.Positions.{upto}

pub record IdxView : Type 0 where
  pub pack_key : String
  pub count : ℕ
  pub fanout : List ℕ
  pub raw_names : List ℕ
  pub offsets : List ℕ
  pub next_offset_by_index : List ℕ
  pub sorted_offsets : List ℕ
  pub sorted_offset_indices : List ℕ
  pub pack_size : ℕ
  pub pack_checksum : List ℕ
  pub idx_checksum : List ℕ

-- How what is looked for compares with an element.
pub data Probe : Type 0 where
  hit less more : Probe

-- The loop of both binary searches. `high` is `hi + 1`, since `hi` can be -1; `less` says that the
-- element comes before what is looked for.
unfoldable pub bisect : (ℕ → Probe) → ℕ → ℕ → ℕ → Option ℕ
bisect probe zero lo high = none
bisect probe (suc f) lo high = elim (ltb lo high) [
  | false ↦ none
  | true ↦
      let mid = (lo + (high - 1)) / 2 in
      elim (probe mid) [
        | hit ↦ some mid
        | less ↦ bisect probe f (mid + 1) high
        | more ↦ bisect probe f lo mid
      ]
]

unfoldable pub compare_numbers : ℕ → ℕ → Probe
compare_numbers v wanted = if v == wanted then hit else if ltb v wanted then less else more

-- The answer of the search, taken through the second array.
abbrev pub index_at : List ℕ → Option ℕ → Option ℕ
index_at indices none = none
index_at indices (some mid) = some (get_or indices mid 0)

unfoldable pub find_offset_index : IdxView → ℕ → Option ℕ
find_offset_index view offset =
    let n = length view.sorted_offsets in
    index_at view.sorted_offset_indices
      (bisect (λ mid. compare_numbers (get_or view.sorted_offsets mid 0) offset) n 0 n)

unfoldable pub get_next_offset : IdxView → ℕ → Option ℕ
get_next_offset view offset = index_at view.next_offset_by_index (find_offset_index view offset)

-- `compareOidAt`: the first of the bytes that differs decides. Where the table of names has run out,
-- the source compares with `undefined`, which is not below 0. The needle has twenty bytes, so that it
-- never ends before the name.
unfoldable pub compare_bytes : List ℕ → List ℕ → Probe
compare_bytes [] [] = hit
compare_bytes [] (y ∷ ys) = more
compare_bytes (x ∷ xs) [] = less
compare_bytes (x ∷ xs) (y ∷ ys) =
    if x == y then compare_bytes xs ys else if ltb x y then less else more

unfoldable pub compare_oid_at : IdxView → List ℕ → ℕ → Probe
compare_oid_at view needle index = compare_bytes (take 20 (drop (index * 20) view.raw_names)) needle

-- The needle is the twenty bytes from `needleStart`; `-1` is none.
unfoldable pub find_oid_index_from_bytes : IdxView → List ℕ → ℕ → Option ℕ
find_oid_index_from_bytes view bytes start = elim (ltb (length bytes) (start + 20)) [
  | true ↦ none
  | false ↦
      let needle = take 20 (drop start bytes) in
      let first = get_or bytes start 0 in
      let lo = if first == 0 then 0 else get_or view.fanout (first - 1) 0 in
      let high = get_or view.fanout first 0 in bisect (compare_oid_at view needle) high lo high
]

-- `getUint32(pos, false)`
unfoldable pub get_uint32 : List ℕ → ℕ → ℕ
get_uint32 buf pos =
    ((get_or buf pos 0 * 256 + get_or buf (pos + 1) 0) * 256 + get_or buf (pos + 2) 0) * 256
    + get_or buf (pos + 3) 0

abbrev pub max_safe_integer : ℕ
max_safe_integer = 9007199254740991

unfoldable pub read_uint64 : List ℕ → ℕ → Option ℕ
read_uint64 buf pos =
    let value = get_uint32 buf pos * 4294967296 + get_uint32 buf (pos + 4) in
    if leb value max_safe_integer then some value else none

-- What the parser gives: a value, `undefined`, or an exception.
pub data Outcome {ℓ} (A : Type ℓ) : Type ℓ where
  parsed : A → Outcome A
  absent thrown : Outcome A

abbrev safe_or_thrown : Option ℕ → Outcome ℕ
safe_or_thrown none = thrown
safe_or_thrown (some value) = parsed value

-- An entry of the table of large offsets.
unfoldable pub read_large : List ℕ → ℕ → ℕ → Outcome ℕ
read_large buf limit pos =
    if ltb limit (pos + 8) then absent else safe_or_thrown (read_uint64 buf pos)

-- One entry of the offset table: an offset, or a place in the table of large offsets.
unfoldable pub read_offset : List ℕ → ℕ → ℕ → ℕ → Outcome ℕ
read_offset buf large limit u32 =
    if leb 2147483648 u32 then read_large buf limit (large + u32 % 2147483648 * 8) else parsed u32

-- The loop over `count` entries from `pos`.
unfoldable pub read_offsets : List ℕ → ℕ → ℕ → ℕ → ℕ → Outcome (List ℕ)
read_offsets buf large limit zero pos = parsed []
read_offsets buf large limit (suc n) pos = elim (read_offset buf large limit (get_uint32 buf pos)) [
  | absent ↦ absent
  | thrown ↦ thrown
  | parsed offset ↦ elim (read_offsets buf large limit n (pos + 4)) [
    | absent ↦ absent
    | thrown ↦ thrown
    | parsed offsets ↦ parsed (offset ∷ offsets)
  ]
]

unfoldable pub read_fanout : List ℕ → List ℕ
read_fanout buf = map (λ i. get_uint32 buf (8 + i * 4)) (upto 0 256)

-- `sortedOffsetIndices.sort((a, b) => offsets[a] - offsets[b])`
unfoldable pub sort_indices : List ℕ → List ℕ
sort_indices offsets =
    sort_by (λ a b. leb (get_or offsets a 0) (get_or offsets b 0)) (upto 0 (length offsets))

-- `array[index] = value`, which does nothing out of range.
unfoldable pub set_at : ℕ → ℕ → List ℕ → List ℕ
set_at index value [] = []
set_at zero value (x ∷ xs) = value ∷ xs
set_at (suc index) value (x ∷ xs) = x ∷ set_at index value xs

-- The loop that fills `nextOffsetByIndex`: the next entry in the pack, or the pack's trailer.
unfoldable pub fill_next : List ℕ → ℕ → List ℕ → List ℕ → List ℕ
fill_next offsets trailer [] next = next
fill_next offsets trailer (i ∷ []) next = set_at i trailer next
fill_next offsets trailer (i ∷ j ∷ js) next =
    fill_next offsets trailer (j ∷ js) (set_at i (get_or offsets j 0) next)

-- The end of `parseIdxView`.
unfoldable pub view_of : String → List ℕ → ℕ → List ℕ → ℕ → List ℕ → IdxView
view_of pack_key buf pack_size fanout count offsets =
    let indices = sort_indices offsets in
    record {
      pack_key = pack_key;
      count = count;
      fanout = fanout;
      raw_names = take (count * 20) (drop 1032 buf);
      offsets = offsets;
      next_offset_by_index = fill_next offsets (pack_size - 20) indices (map (λ _. 0) offsets);
      sorted_offsets = map (λ i. get_or offsets i 0) indices;
      sorted_offset_indices = indices;
      pack_size = pack_size;
      pack_checksum = take 20 (drop (length buf - 40) buf);
      idx_checksum = drop (length buf - 20) buf;
    }

abbrev pub view_of_outcome : String → List ℕ → ℕ → List ℕ → ℕ → Outcome (List ℕ) → Outcome IdxView
view_of_outcome pack_key buf pack_size fanout count absent = absent
view_of_outcome pack_key buf pack_size fanout count thrown = thrown
view_of_outcome pack_key buf pack_size fanout count (parsed offsets) =
    parsed (view_of pack_key buf pack_size fanout count offsets)

-- The magic number and the version.
unfoldable pub is_idx : List ℕ → Bool
is_idx buf = get_uint32 buf 0 == 0xff744f63 && (get_uint32 buf 4 == 2 || get_uint32 buf 4 == 3)

-- The header ends at 1032, and the trailer is 40 bytes.
unfoldable pub parse_idx_view : String → List ℕ → ℕ → Outcome IdxView
parse_idx_view pack_key buf pack_size =
    let fanout = read_fanout buf in
    let count = get_or fanout 255 0 in
    let offsets_start = 1032 + count * 24 in
    let offsets_end = offsets_start + count * 4 in
    let limit = length buf - 40 in
    if ltb pack_size 20 || ltb max_safe_integer pack_size
    then thrown
    else if ltb (length buf) 1072
    then absent
    else if is_idx buf
    then if ltb (length buf) (1032 + count * 20) || ltb limit offsets_end
      then absent
      else view_of_outcome pack_key buf pack_size fanout count
          (read_offsets buf offsets_end limit count offsets_start)
    else absent
