-- ===== src/PackMeta.antt =====
-- src/worker/git/pack/packMeta.ts, and `encodeObjHeader` of src/worker/git/core/objects.ts: the header
-- of an entry of a pack. Bytes are numbers below 256. The bit operations of the language work on 32
-- bits with a sign: a distance is kept as its 32 bits, and read with its sign at the end.
pub mod Distance
pub mod Header
mod Tests
use gitedge.Shared.{
  ℕ, zero, suc, ◌+◌, ◌-◌, ◌*◌, ◌/◌, ◌%◌, ◌^◌, Bool, true, false, List, [], ◌∷◌, ◌++◌, Option, none,
  some, ltb, leb, ◌==◌, if◌then◌else◌, length, take, drop,
}

-- A number with a sign.
pub data Signed : Type 0 where
  plus minus : ℕ → Signed

unfoldable pub to_int32 : ℕ → Signed
to_int32 u = if ltb u 2147483648 then plus u else minus (4294967296 - u)

-- `size >>= 4` on 32 bits, where a negative number counts as no more bits.
unfoldable pub shift_size : ℕ → ℕ
shift_size size = if ltb (size % 4294967296) 2147483648 then size % 4294967296 / 16 else 0

-- The loop of `encodeObjHeader`. A positive number of 27 bits has at most four groups of seven.
unfoldable pub size_bytes : ℕ → ℕ → List ℕ
size_bytes zero size = []
size_bytes (suc f) size =
    let rest = size_bytes f (size / 128) in
    if size == 0 then [] else (if size / 128 == 0 then size % 128 else size % 128 + 128) ∷ rest

unfoldable pub encode_obj_header : ℕ → ℕ → List ℕ
encode_obj_header type size =
    let rest = shift_size size in
    let first = type * 16 + size % 16 in
    (if rest == 0 then first else first + 128) ∷ size_bytes 4 rest

-- The groups of `encodeOfsDeltaDistance`, the lowest first; five are enough for 32 bits.
unfoldable pub distance_groups : ℕ → ℕ → List ℕ
distance_groups zero current = []
distance_groups (suc f) current =
    let rest = distance_groups f (current / 128 - 1) in
    current % 128 ∷ (if current / 128 == 0 then [] else rest)

unfoldable pub reversed : List ℕ → List ℕ
reversed [] = []
reversed (g ∷ gs) = reversed gs ++ (g ∷ [])

-- `groups[index] |= 0x80` for all but the last.
unfoldable pub flag_but_last : List ℕ → List ℕ
flag_but_last [] = []
flag_but_last (g ∷ []) = g ∷ []
flag_but_last (g ∷ h ∷ gs) = (g + 128) ∷ flag_but_last (h ∷ gs)

unfoldable pub encode_ofs_delta_distance : ℕ → List ℕ
encode_ofs_delta_distance rel =
    if rel == 0 then 0 ∷ [] else flag_but_last (reversed (distance_groups 5 (rel % 4294967296)))

-- The count of `ofsDeltaDistanceLength`.
unfoldable pub count_groups : ℕ → ℕ → ℕ
count_groups zero current = 0
count_groups (suc f) current =
    let rest = count_groups f (current / 128 - 1) in if current / 128 == 0 then 1 else suc rest

unfoldable pub ofs_delta_distance_length : ℕ → ℕ
ofs_delta_distance_length rel = if rel == 0 then 1 else count_groups 5 (rel % 4294967296)

pub record PackHeaderEx : Type 0 where
  pub type : ℕ
  pub size_var_bytes : List ℕ
  pub header_len : ℕ
  pub base_oid : Option (List ℕ)
  pub base_rel : Option Signed

-- `while (c & 0x80)`: the bytes after the byte `c` that belong to the size, and the rest.
unfoldable pub read_size : ℕ → List ℕ → Option (List ℕ × List ℕ)
read_size c [] = if ltb c 128 then some ([], []) else none
read_size c (b ∷ bytes) = elim (ltb c 128) [
  | true ↦ some ([], b ∷ bytes)
  | false ↦ elim (read_size b bytes) [ none ↦ none | some (size, rest) ↦ some (b ∷ size, rest) ]
]

-- The loop over a distance, past the byte `byte`; `distance` is its 32 bits so far.
unfoldable pub read_more : ℕ → ℕ → List ℕ → Option (ℕ × List ℕ)
read_more distance byte [] = if ltb byte 128 then some (distance, []) else none
read_more distance byte (b ∷ bytes) =
    if ltb byte 128
    then some (distance, b ∷ bytes)
    else read_more ((distance + 1) * 128 % 4294967296 + b % 128) b bytes

unfoldable pub read_distance : List ℕ → Option (ℕ × List ℕ)
read_distance [] = none
read_distance (b ∷ bytes) = read_more (b % 128) b bytes

abbrev pub plain_header : ℕ → List ℕ → PackHeaderEx
plain_header type size = record {
  type = type;
  size_var_bytes = size;
  header_len = length size;
  base_oid = none;
  base_rel = none;
}

abbrev pub with_distance : List ℕ → List ℕ → Option (ℕ × List ℕ) → Option PackHeaderEx
with_distance size rest none = none
with_distance size rest (some (distance, left)) = some (record (plain_header 6 size) {
  header_len = length size + (length rest - length left);
  base_rel = some (to_int32 distance);
})

-- What follows the size, by the type.
unfoldable pub read_base : ℕ → List ℕ → List ℕ → Option PackHeaderEx
read_base type size rest =
    if type == 7
    then if ltb (length rest) 20
      then none
      else some (record (plain_header 7 size) {
        header_len = length size + 20;
        base_oid = some (take 20 rest);
      })
    else if type == 6
    then with_distance size rest (read_distance rest)
    else some (plain_header type size)

abbrev pub after_size : ℕ → Option (List ℕ × List ℕ) → Option PackHeaderEx
after_size c none = none
after_size c (some (size, rest)) = read_base (c / 16 % 8) (c ∷ size) rest

abbrev pub read_first : List ℕ → Option PackHeaderEx
read_first [] = none
read_first (c ∷ bytes) = after_size c (read_size c bytes)

-- The base name of a delta is kept as its bytes; the source writes them in hexadecimal.
unfoldable pub read_pack_header_ex_from_buf : List ℕ → ℕ → Option PackHeaderEx
read_pack_header_ex_from_buf buf offset = read_first (drop offset buf)
