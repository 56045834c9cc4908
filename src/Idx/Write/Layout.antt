-- ===== src/Idx/Write/Layout.antt =====
-- Where the parts of an index stand that `writeIdxV2` wrote.
use gitedge.Shared.{
  ℕ, ◌+◌, ◌*◌, ◌<◌, ◌≡◌, refl, ap, List, [], ◌∷◌, ◌++◌, map, length, length-append, All, arith,
}
use mathlib.Core.List.{append_assoc}
use gitedge.Shared.Positions.{length-map}
use gitedge.Idx.Write.{
  PackEntry, first_byte, uint32_bytes, words, name_bytes, offset_words, large_words, magic,
  idx_body,
}
use gitedge.Idx.Write.Bytes.{length-words}
use gitedge.Idx.Write.Fanout.{fanout, length-fanout}
use gitedge.Idx.Write.Offsets.{HasOffsets, length-offset_words}

-- What the entries of a pack are: full names, and offsets and checksums of 32 bits.
abbrev pub IsEntry : PackEntry → Type 0
IsEntry e =
    (length e.oid ≡ 20) × (first_byte e < 256) × (e.crc32 < 4294967296) × (e.offset < 4294967296)

pub length-name_bytes :
    (es : List PackEntry) → All IsEntry es → length (name_bytes es) ≡ length es * 20
unfolding name_bytes
length-name_bytes [] h = omega arith
length-name_bytes (e ∷ es) ((p, _, _, _), h) =
    omega (arith, length-append e.oid (name_bytes es), p, length-name_bytes es h)

module _ (es : List PackEntry) (checksum hash : List ℕ) where
  -- The parts behind the tables.
  abbrev pub after_names : List ℕ
  after_names =
      words (map (λ e. e.crc32) es)
      ++ (words (offset_words 0 es) ++ (words (large_words es) ++ (checksum ++ hash)))

  abbrev pub head : List ℕ
  head = magic ++ uint32_bytes 2

  abbrev pub whole : List ℕ
  whole = head ++ (words (fanout es) ++ (name_bytes es ++ after_names))

  abbrev pub to_names : List ℕ
  to_names = head ++ words (fanout es)

  abbrev pub to_offsets : List ℕ
  to_offsets = to_names ++ (name_bytes es ++ words (map (λ e. e.crc32) es))

  abbrev pub to_larges : List ℕ
  to_larges = to_offsets ++ words (offset_words 0 es)

  pub body-whole : idx_body es checksum ++ hash ≡ whole
  unfolding idx_body
  body-whole = simp append_assoc

  pub names-whole : whole ≡ to_names ++ (name_bytes es ++ after_names)
  names-whole = simp append_assoc

  pub offsets-whole :
      whole
      ≡ to_offsets ++ (words (offset_words 0 es) ++ (words (large_words es) ++ (checksum ++ hash)))
  offsets-whole = simp append_assoc

  pub larges-whole : whole ≡ to_larges ++ (words (large_words es) ++ (checksum ++ hash))
  larges-whole = simp append_assoc

abbrev pub offsets_of : List PackEntry → List ℕ
offsets_of es = map (λ (e : PackEntry). e.offset) es

pub HasOffsets-entries : (es : List PackEntry) → All IsEntry es → HasOffsets es
HasOffsets-entries [] h = tt
HasOffsets-entries (e ∷ es) ((_, _, _, o), h) = (o, HasOffsets-entries es h)

pub first_bytes : (es : List PackEntry) → All IsEntry es → All (λ e. first_byte e < 256) es
first_bytes [] h = tt
first_bytes (e ∷ es) ((_, f, _, _), h) = (f, first_bytes es h)

module _ (es : List PackEntry) (checksum hash : List ℕ) (entries : All IsEntry es)
    (few : length es < 2147483648) (checksum_long : length checksum ≡ 20)
    (hash_long : length hash ≡ 20) where
  abbrev buffer : List ℕ
  buffer = whole es checksum hash

  pub head-length : length (head es checksum hash) ≡ 8
  unfolding uint32_bytes
  head-length = refl

  pub to_names-length : length (to_names es checksum hash) ≡ 1032
  to_names-length = omega (
    arith,
    length-append (head es checksum hash) (words (fanout es)),
    head-length,
    length-words (fanout es),
    length-fanout es,
  )

  pub to_offsets-length : length (to_offsets es checksum hash) ≡ 1032 + length es * 24
  to_offsets-length =
      let crcs = map (λ (e : PackEntry). e.crc32) es in
      omega (
        arith,
        length-append (to_names es checksum hash) (name_bytes es ++ words crcs),
        length-append (name_bytes es) (words crcs),
        to_names-length,
        length-name_bytes es entries,
        length-words crcs,
        length-map (λ (e : PackEntry). e.crc32) es,
      )

  pub to_larges-length : length (to_larges es checksum hash) ≡ 1032 + length es * 24 + length es * 4
  to_larges-length = omega (
    arith,
    length-append (to_offsets es checksum hash) (words (offset_words 0 es)),
    to_offsets-length,
    length-words (offset_words 0 es),
    length-offset_words 0 es,
  )

  pub buffer-length :
      length buffer ≡ 1032 + length es * 24 + length es * 4 + length (large_words es) * 4 + 40
  buffer-length = omega (
    arith,
    ap length (larges-whole es checksum hash),
    length-append (to_larges es checksum hash) (words (large_words es) ++ (checksum ++ hash)),
    length-append (words (large_words es)) (checksum ++ hash),
    length-append checksum hash,
    to_larges-length,
    length-words (large_words es),
    checksum_long,
    hash_long,
  )
