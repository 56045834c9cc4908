-- ===== src/Objects/Tests.antt =====
-- A tree of a file and a folder, and an object.
use gitedge.Shared.{
  ℕ, ◌≡◌, refl, true, List, [], ◌∷◌, ◌++◌, none, map, replicate, take, length, arith, ◌==◌,
  if◌then◌else◌,
}
use gitedge.Shared.Text.{codes}
use gitedge.Objects.{
  bytes_to_hex, hex_to_bytes, is_valid_oid, zero_oid, build_raw_git_object, parse_git_object,
  parsed_object, no_null_byte, invalid_type, blob, tree, TreeEntry, parse_tree,
  parse_tree_child_oids, obj_type_code, commit, tag,
}
use gitedge.Objects.Raw.{parse-build}
use gitedge.Objects.Tree.{RawEntry, IsRawEntry, entry_bytes, tree_bytes, entry_of, parse-tree_cut}
use gitedge.Objects.Children.{child-parse_tree}

abbrev decode : List ℕ → List ℕ
decode s = s

abbrev file : RawEntry
file = record { mode = codes "100644"; name = codes "a b"; oid = replicate 20 171 }

abbrev folder : RawEntry
folder = record { mode = codes "40000"; name = codes "src"; oid = replicate 20 1 }

parse-build_example :
    parse_git_object decode (build_raw_git_object tree (entry_bytes file))
    ≡ parsed_object tree (entry_bytes file)
parse-build_example = parse-build decode tree (entry_bytes file) refl

file-IsRawEntry : IsRawEntry file
file-IsRawEntry = (
  (
    ground arith,
    (ground arith, (ground arith, (ground arith, (ground arith, (ground arith, tt))))),
  ),
  (ground arith, (ground arith, (ground arith, tt))),
  refl,
)

folder-IsRawEntry : IsRawEntry folder
folder-IsRawEntry = (
  (ground arith, (ground arith, (ground arith, (ground arith, (ground arith, tt))))),
  (ground arith, (ground arith, (ground arith, tt))),
  refl,
)

parse-tree_cut_example :
    parse_tree decode (tree_bytes (file ∷ []) ++ take 29 (entry_bytes folder))
    ≡ map (λ x. entry_of decode x x.oid) (file ∷ [])
      ++ (if 30 == length (entry_bytes folder)
          then entry_of decode folder (take 19 folder.oid) ∷ []
          else [])
parse-tree_cut_example =
    parse-tree_cut decode (file ∷ []) folder 29 (file-IsRawEntry, tt) folder-IsRawEntry
      (omega arith)

child-parse_tree_example :
    parse_tree_child_oids (tree_bytes (folder ∷ file ∷ []))
    ≡ map (λ e. e.oid) (parse_tree decode (tree_bytes (folder ∷ file ∷ [])))
child-parse_tree_example = child-parse_tree decode (tree_bytes (folder ∷ file ∷ []))

-- The last byte is missing, and a name of nineteen bytes is listed.
cut_by_one : map length (parse_tree_child_oids (take 29 (entry_bytes folder))) ≡ 38 ∷ []
unfolding parse_tree_child_oids bytes_to_hex gitedge.Objects.hex_byte
cut_by_one = refl

cut_by_two : parse_tree_child_oids (take 28 (entry_bytes folder)) ≡ []
unfolding parse_tree_child_oids
cut_by_two = refl

no_header : parse_git_object decode (codes "blob") ≡ no_null_byte
unfolding parse_git_object
no_header = refl

other_type : parse_git_object decode (codes "note 1" ++ (0 ∷ [])) ≡ invalid_type (codes "note")
unfolding parse_git_object
other_type = refl

odd_hex : hex_to_bytes (codes "abc") ≡ none
unfolding hex_to_bytes
odd_hex = refl

zero_oid-valid : is_valid_oid zero_oid ≡ true
unfolding is_valid_oid zero_oid
zero_oid-valid = refl
