-- ===== src/PackMeta/Tests.antt =====
-- A delta of 1000 bytes, 300 bytes behind its base.
use gitedge.Shared.{ℕ, ◌+◌, ◌≡◌, refl, List, [], ◌∷◌, ◌++◌, none, some, length, arith}
use gitedge.PackMeta.{
  to_int32, minus, encode_obj_header, size_bytes, shift_size, encode_ofs_delta_distance,
  distance_groups, reversed, flag_but_last, read_pack_header_ex_from_buf,
}
use gitedge.PackMeta.Header.{read-encode_delta}

abbrev before : List ℕ
before = 1 ∷ 2 ∷ []

read-encode_delta_example :
    read_pack_header_ex_from_buf
      (before ++ (encode_obj_header 6 1000 ++ (encode_ofs_delta_distance 300 ++ (7 ∷ []))))
      (length before)
    ≡ some (record {
      type = 6;
      size_var_bytes = encode_obj_header 6 1000;
      header_len = length (encode_obj_header 6 1000) + length (encode_ofs_delta_distance 300);
      base_oid = none;
      base_rel = some (to_int32 300);
    })
read-encode_delta_example = read-encode_delta 1000 300 before (7 ∷ []) (omega arith) (omega arith)

small_bytes :
    (encode_obj_header 6 1000 ≡ 0xe8 ∷ 0x3e ∷ [])
    × (encode_ofs_delta_distance 300 ≡ 0x81 ∷ 0x2c ∷ [])
unfolding encode_obj_header size_bytes shift_size encode_ofs_delta_distance distance_groups reversed
    flag_but_last
small_bytes = (refl, refl)

far_distance : to_int32 3000000000 ≡ minus 1294967296
unfolding to_int32
far_distance = refl
