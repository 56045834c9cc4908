-- ===== src/Objects.antt =====
-- src/worker/common/hex.ts, the objects of src/worker/git/core/objects.ts, and the trees of
-- src/worker/git/core/object-parse.ts and src/worker/git/operations/read/objects.ts. Texts are lists
-- of codes; `TextDecoder` is the parameter `decode`.
pub mod Hex
pub mod Raw
pub mod Tree
pub mod Children
mod Tests
use gitedge.Shared.{
  ℕ, zero, suc, ◌+◌, ◌-◌, ◌%◌, Bool, true, false, ◌&&◌, not, List, [], ◌∷◌, ◌++◌, Option, none,
  some, map, ltb, ◌==◌, if◌then◌else◌, length, take, drop, replicate, every, is_some,
}
use gitedge.Shared.Text.{codes, codes_eq}
use gitedge.Shared.Decimal.{number}
use gitedge.PktLine.{Parsed, nan, minus, plus, to_string16, hex_value, parse_int16}

-- `b.toString(16).padStart(2, "0")`
unfoldable pub hex_byte : ℕ → List ℕ
unfolding to_string16
hex_byte b = let s = to_string16 14 b in replicate (2 - length s) b'0' ++ s

unfoldable pub bytes_to_hex : List ℕ → List ℕ
bytes_to_hex [] = []
bytes_to_hex (b ∷ bs) = hex_byte b ++ bytes_to_hex bs

-- A number that is stored in a `Uint8Array`; NaN is stored as 0.
unfoldable pub stored_byte : Parsed → ℕ
stored_byte nan = 0
stored_byte (minus n) = (256 - n % 256) % 256
stored_byte (plus n) = n % 256

unfoldable pub hex_pairs : List ℕ → List ℕ
unfolding stored_byte parse_int16
hex_pairs [] = []
hex_pairs (c ∷ []) = []
hex_pairs (c ∷ d ∷ s) = stored_byte (parse_int16 (c ∷ d ∷ [])) ∷ hex_pairs s

-- `none` is the error about an odd length.
unfoldable pub hex_to_bytes : List ℕ → Option (List ℕ)
unfolding hex_pairs
hex_to_bytes hex = if not (length hex % 2 == 0) then none else some (hex_pairs hex)

-- `/^[0-9a-f]{40}$/i`
unfoldable pub is_valid_oid : List ℕ → Bool
unfolding hex_value
is_valid_oid oid = length oid == 40 && every (λ c. is_some (hex_value c)) oid

unfoldable pub zero_oid : List ℕ
zero_oid = replicate 40 b'0'

-- What stands before the first code `c`, and what stands from there on.
unfoldable pub until : ℕ → List ℕ → List ℕ
until c [] = []
until c (x ∷ s) = if x == c then [] else x ∷ until c s

unfoldable pub from : ℕ → List ℕ → List ℕ
from c [] = []
from c (x ∷ s) = if x == c then x ∷ s else from c s

pub data GitObjectType : Type 0 where
  blob tree commit tag : GitObjectType

abbrev pub type_name : GitObjectType → List ℕ
type_name blob = codes "blob"
type_name tree = codes "tree"
type_name commit = codes "commit"
type_name tag = codes "tag"

unfoldable pub obj_type_code : GitObjectType → ℕ
obj_type_code commit = 1
obj_type_code tree = 2
obj_type_code blob = 3
obj_type_code tag = 4

unfoldable pub encode_git_object_header : GitObjectType → ℕ → List ℕ
unfolding number
encode_git_object_header type payload_length =
    type_name type ++ (b' ' ∷ (number payload_length ++ (0 ∷ [])))

unfoldable pub build_raw_git_object : GitObjectType → List ℕ → List ℕ
unfolding encode_git_object_header
build_raw_git_object type payload = encode_git_object_header type (length payload) ++ payload

pub data ObjectResult : Type 0 where
  parsed_object : GitObjectType → List ℕ → ObjectResult
  no_null_byte : ObjectResult
  invalid_type : List ℕ → ObjectResult

unfoldable pub typed_object : List ℕ → List ℕ → ObjectResult
unfolding codes_eq
typed_object type_str payload =
    if codes_eq type_str (type_name commit)
    then parsed_object commit payload
    else if codes_eq type_str (type_name tree)
    then parsed_object tree payload
    else if codes_eq type_str (type_name blob)
    then parsed_object blob payload
    else if codes_eq type_str (type_name tag)
    then parsed_object tag payload
    else invalid_type type_str

unfoldable pub parse_git_object : (List ℕ → List ℕ) → List ℕ → ObjectResult
unfolding until from typed_object
parse_git_object decode raw = elim (from 0 raw) [
  | [] ↦ no_null_byte
  | nul ∷ payload ↦ typed_object (until b' ' (decode (until 0 raw))) payload
]

pub record TreeEntry : Type 0 where
  pub mode : List ℕ
  pub name : List ℕ
  pub oid : List ℕ

-- The loop on what stands from `i` on; an empty rest has no space. `at_nul` is the rest from the
-- position `nul`, so `nul + 20 > buf.length` is its length below 20. Each round takes a byte at least.
unfoldable pub tree_loop : (List ℕ → List ℕ) → ℕ → List ℕ → List TreeEntry
unfolding until from bytes_to_hex
tree_loop decode zero buf = []
tree_loop decode (suc fuel) buf = elim (from b' ' buf) [
  | [] ↦ []
  | sp ∷ tail ↦
      let at_nul = from 0 tail in
      let rest = tree_loop decode fuel (drop 21 at_nul) in
      if ltb (length at_nul) 20
      then []
      else (record {
        mode = decode (until b' ' buf);
        name = decode (until 0 tail);
        oid = bytes_to_hex (take 20 (drop 1 at_nul));
      })
        ∷ rest
]

unfoldable pub parse_tree : (List ℕ → List ℕ) → List ℕ → List TreeEntry
unfolding tree_loop
parse_tree decode buf = tree_loop decode (length buf) buf

unfoldable pub child_loop : ℕ → List ℕ → List (List ℕ)
unfolding from bytes_to_hex
child_loop zero payload = []
child_loop (suc fuel) payload = elim (from b' ' payload) [
  | [] ↦ []
  | sp ∷ tail ↦
      let at_nul = from 0 tail in
      let rest = child_loop fuel (drop 21 at_nul) in
      if ltb (length at_nul) 20 then [] else bytes_to_hex (take 20 (drop 1 at_nul)) ∷ rest
]

unfoldable pub parse_tree_child_oids : List ℕ → List (List ℕ)
unfolding child_loop
parse_tree_child_oids payload = child_loop (length payload) payload
