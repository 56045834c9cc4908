-- ===== src/PackMeta/Header.antt =====
-- The header of a delta entry that is written is read back.
use gitedge.Shared.{
  ℕ, zero, suc, ◌+◌, ◌*◌, ◌/◌, ◌%◌, ◌<◌, ◌≡◌, refl, ◌∙◌, ap, true, false, List, [], ◌∷◌, ◌++◌, none,
  some, ltb, ◌==◌, if◌then◌else◌, length, length-append, drop, drop-length, Bool-cases, inl, inr,
  arith,
}
use gitedge.PackMeta.{
  to_int32, shift_size, size_bytes, encode_obj_header, encode_ofs_delta_distance, plain_header,
  read_size, read_base, with_distance, read_first, read_pack_header_ex_from_buf,
}
use gitedge.PackMeta.Distance.{pow128, read-encode}

read_size-stop : (c : ℕ) (rest : List ℕ) → ltb c 128 ≡ true → read_size c rest ≡ some ([], rest)
unfolding read_size
read_size-stop c [] h = rw h refl
read_size-stop c (b ∷ rest) h = rw (h, read_size) refl

read_size-go :
    (c b : ℕ) (bytes size rest : List ℕ)
    → ltb c 128 ≡ false
    → read_size b bytes ≡ some (size, rest)
    → read_size c (b ∷ bytes) ≡ some (b ∷ size, rest)
unfolding read_size
read_size-go c b bytes size rest h k = rw (h, k, read_size) refl

size_bytes-zero : (f size : ℕ) → (size == 0) ≡ true → size_bytes f size ≡ []
unfolding size_bytes
size_bytes-zero zero size h = refl
size_bytes-zero (suc f) size h = rw h refl

size_bytes-more :
    (f size : ℕ)
    → (size == 0) ≡ false
    → size_bytes (suc f) size
      ≡ (if size / 128 == 0 then size % 128 else size % 128 + 128) ∷ size_bytes f (size / 128)
unfolding size_bytes
size_bytes-more f size h = rw h refl

-- The bytes of a size are read up to the first without a flag.
read-size_bytes :
    (f size c : ℕ) (rest : List ℕ)
    → size < pow128 f
    → ltb c 128 ≡ (size == 0)
    → read_size c (size_bytes f size ++ rest) ≡ some (size_bytes f size, rest)
read-size_bytes zero size c rest h e =
    let z : (size == 0) ≡ true = unfold pow128 in ground arith in
    rw (size_bytes-zero zero size z) (read_size-stop c rest (e ∙ z))
read-size_bytes (suc f) size c rest h e = elim (Bool-cases (size == 0)) [
  | inl z ↦ rw (size_bytes-zero (suc f) size z) (read_size-stop c rest (e ∙ z))
  | inr n ↦
      let b = if size / 128 == 0 then size % 128 else size % 128 + 128 in
      let flag : ltb b 128 ≡ (size / 128 == 0) = ground arith in
      rw (size_bytes-more f size n) (
        read_size-go c b (size_bytes f (size / 128) ++ rest) (size_bytes f (size / 128)) rest
          (e ∙ n) (read-size_bytes f (size / 128) b rest (unfold pow128 in omega arith) flag))
]

-- The first byte tells the type, and whether the size goes on.
read-header :
    (type size : ℕ) (rest : List ℕ)
    → type < 8
    → size < 2147483648
    → read_first (encode_obj_header type size ++ rest)
      ≡ read_base type (encode_obj_header type size) rest
unfolding encode_obj_header
read-header type size rest t h =
    let left = shift_size size in
    let first = if left == 0 then type * 16 + size % 16 else type * 16 + size % 16 + 128 in
    let small : left < pow128 4 = unfold shift_size pow128 in ground arith in
    let flag : ltb first 128 ≡ (left == 0) = ground arith in
    let type_of : first / 16 % 8 ≡ type = ground arith in
    rw (read-size_bytes 4 left first rest small flag, type_of) refl

skip_before : (before rest : List ℕ) → drop (length before) (before ++ rest) ≡ rest
skip_before before rest = drop-length before rest

-- At its place in a pack, the header of an offset delta reads back as it was written, for any size
-- below 2^31 and any distance below 2^32; the distance comes back with the sign of its 32 bits, so a
-- distance of 2^31 or more comes back negative.
pub read-encode_delta :
    (size rel : ℕ) (before rest : List ℕ)
    → size < 2147483648
    → rel < 4294967296
    → read_pack_header_ex_from_buf
        (before ++ (encode_obj_header 6 size ++ (encode_ofs_delta_distance rel ++ rest)))
        (length before)
      ≡ some (record {
        type = 6;
        size_var_bytes = encode_obj_header 6 size;
        header_len = length (encode_obj_header 6 size) + length (encode_ofs_delta_distance rel);
        base_oid = none;
        base_rel = some (to_int32 rel);
      })
unfolding read_pack_header_ex_from_buf
read-encode_delta size rel before rest h k =
    ap read_first
      (skip_before before (encode_obj_header 6 size ++ (encode_ofs_delta_distance rel ++ rest)))
    ∙ read-header 6 size (encode_ofs_delta_distance rel ++ rest) (omega arith) h
    ∙ unfold read_base in
      ap (with_distance (encode_obj_header 6 size) (encode_ofs_delta_distance rel ++ rest))
        (read-encode rel rest k)
      ∙ ap
          (λ n. some (record {
            type = 6;
            size_var_bytes = encode_obj_header 6 size;
            header_len = length (encode_obj_header 6 size) + n;
            base_oid = none;
            base_rel = some (to_int32 rel);
          }))
          (omega (arith, length-append (encode_ofs_delta_distance rel) rest))

-- The header of an object that is no delta reads back as it was written.
pub read-encode_object :
    (type size : ℕ) (before rest : List ℕ)
    → type < 6
    → size < 2147483648
    → read_pack_header_ex_from_buf (before ++ (encode_obj_header type size ++ rest)) (length before)
      ≡ some (plain_header type (encode_obj_header type size))
unfolding read_pack_header_ex_from_buf
read-encode_object type size before rest t h =
    ap read_first (skip_before before (encode_obj_header type size ++ rest))
    ∙ read-header type size rest (omega arith) h
    ∙ unfold read_base in ground arith
