-- ===== src/Idx/Write/Parsed.antt =====
-- `parseIdxView` on an index that `writeIdxV2` wrote.
use gitedge.Shared.{
  ℕ, suc, ◌+◌, ◌-◌, ◌*◌, ◌%◌, ◌≤◌, ◌<◌, ◌≡◌, refl, sym, ap, ◌∙◌, ◌||◌, String, true, false, List,
  [], ◌∷◌, ◌++◌, map, ltb, leb, length, get_or, take, drop, take-length, drop-length, All, inl, inr,
  arith,
}
use gitedge.Shared.Positions.{upto, length-map, get_or-map, All-get}
use gitedge.Idx.{
  parsed, get_uint32, read_uint64, read_large, read_offset, read_offsets, read_fanout, is_idx,
  max_safe_integer, view_of, parse_idx_view,
}
use gitedge.Idx.Write.{
  PackEntry, no_entry, entry_at, uint32_bytes, words, name_bytes, offset_words, large_words,
}
use gitedge.Idx.Write.Bytes.{get_uint32-words}
use gitedge.Idx.Write.Fanout.{fanout, length-fanout, fanout-AreWords, fanout-count}
use gitedge.Idx.Write.Offsets.{
  IsStored, length-offset_words, offset_words-AreWords, large_words-AreWords, offset_words-IsStored,
}
use gitedge.Idx.Write.Layout.{
  IsEntry, length-name_bytes, after_names, head, whole, to_names, to_offsets, to_larges,
  names-whole, offsets-whole, larges-whole, offsets_of, HasOffsets-entries, first_bytes,
  head-length, to_names-length, to_offsets-length, to_larges-length, buffer-length,
}

-- A table that is read number by number.
map-upto :
    (f : ℕ → ℕ) (from : ℕ) (ns : List ℕ)
    → ((i : ℕ) → i < length ns → f (from + i) ≡ get_or ns i 0)
    → map f (upto from (length ns)) ≡ ns
map-upto f from [] h = refl
map-upto f from (n ∷ ns) h =
    let first : f from ≡ n = ap f {y = from + 0} (omega arith) ∙ h 0 (omega arith) in
    rw first (
      ap (◌∷◌ n) (
        map-upto f (from + 1) ns (λ i l.
          ap f {x = from + 1 + i} {y = from + suc i} (omega arith) ∙ h (suc i) (omega arith))))

-- The loop over the offsets, if each of them is read.
read_offsets_lem :
    (buf : List ℕ) (large limit pos : ℕ) (offsets : List ℕ)
    → ((i : ℕ)
        → i < length offsets
        → read_offset buf large limit (get_uint32 buf (pos + i * 4)) ≡ parsed (get_or offsets i 0))
    → read_offsets buf large limit (length offsets) pos ≡ parsed offsets
unfolding read_offsets
read_offsets_lem buf large limit pos [] h = refl
read_offsets_lem buf large limit pos (o ∷ os) h =
    let first : read_offset buf large limit (get_uint32 buf pos) ≡ parsed o =
      ap (λ p. read_offset buf large limit (get_uint32 buf p)) {x = pos} {y = pos + 0 * 4}
        (omega arith)
      ∙ h 0 (omega arith) in
    let rest = read_offsets_lem buf large limit (pos + 4) os (λ i l.
      ap (λ p. read_offset buf large limit (get_uint32 buf p)) {x = pos + 4 + i * 4}
        {y = pos + suc i * 4} (omega arith)
      ∙ h (suc i) (omega arith)) in
    rw (first, read_offsets) (rw rest refl)

module _ (es : List PackEntry) (checksum hash : List ℕ) (entries : All IsEntry es)
    (few : length es < 2147483648) (checksum_long : length checksum ≡ 20)
    (hash_long : length hash ≡ 20) where
  abbrev buffer : List ℕ
  buffer = whole es checksum hash

  fanout-read : read_fanout buffer ≡ fanout es
  unfolding read_fanout
  fanout-read =
      ap (λ n. map (λ i. get_uint32 buffer (8 + i * 4)) (upto 0 n)) (sym (length-fanout es))
      ∙ map-upto (λ i. get_uint32 buffer (8 + i * 4)) 0 (fanout es)
          (λ i l.
            ap (get_uint32 buffer) {x = 8 + (0 + i) * 4}
              {y = length (head es checksum hash) + i * 4}
              (omega (arith, (head-length es checksum hash entries few checksum_long hash_long)))
            ∙ get_uint32-words (head es checksum hash) (fanout es)
                (name_bytes es ++ after_names es checksum hash) i (fanout-AreWords es (omega arith))
                l)

  word-at :
      (i : ℕ)
      → i < length es
      → get_uint32 buffer (1032 + length es * 24 + i * 4) ≡ get_or (offset_words 0 es) i 0
  word-at i l =
      ap (λ b. get_uint32 b (1032 + length es * 24 + i * 4)) (offsets-whole es checksum hash)
      ∙ ap (get_uint32 _) {y = length (to_offsets es checksum hash) + i * 4}
          (omega (arith, (to_offsets-length es checksum hash entries few checksum_long hash_long)))
      ∙ get_uint32-words (to_offsets es checksum hash) (offset_words 0 es)
          (words (large_words es) ++ (checksum ++ hash)) i
          (offset_words-AreWords 0 es (HasOffsets-entries es entries))
          (omega (arith, length-offset_words 0 es))

  large-at :
      (i : ℕ)
      → i < length (large_words es)
      → get_uint32 buffer (1032 + length es * 24 + length es * 4 + i * 4)
        ≡ get_or (large_words es) i 0
  large-at i l =
      ap (λ b. get_uint32 b (1032 + length es * 24 + length es * 4 + i * 4))
        (larges-whole es checksum hash)
      ∙ ap (get_uint32 _) {y = length (to_larges es checksum hash) + i * 4}
          (omega (arith, (to_larges-length es checksum hash entries few checksum_long hash_long)))
      ∙ get_uint32-words (to_larges es checksum hash) (large_words es) (checksum ++ hash) i
          (large_words-AreWords es (HasOffsets-entries es entries)) l

  abbrev larges_start : ℕ
  larges_start = 1032 + length es * 24 + length es * 4

  large-read :
      (k offset : ℕ)
      → suc (2 * k) < length (large_words es)
      → get_or (large_words es) (2 * k) 0 ≡ 0
      → get_or (large_words es) (suc (2 * k)) 0 ≡ offset
      → offset < 4294967296
      → read_large buffer (length buffer - 40) (larges_start + k * 8) ≡ parsed offset
  unfolding read_large read_uint64
  large-read k offset fits high low small =
      let h : get_uint32 buffer (larges_start + k * 8) ≡ 0 =
        ap (get_uint32 buffer) {y = larges_start + 2 * k * 4} (omega arith)
        ∙ large-at (2 * k) (omega arith)
        ∙ high in
      let l : get_uint32 buffer (larges_start + k * 8 + 4) ≡ offset =
        ap (get_uint32 buffer) {y = larges_start + suc (2 * k) * 4} (omega arith)
        ∙ large-at (suc (2 * k)) fits
        ∙ low in
      let inside : ltb (length buffer - 40) (larges_start + k * 8 + 8) ≡ false =
        ground (arith, (buffer-length es checksum hash entries few checksum_long hash_long)) in
      rw (inside, h, l) (ground arith)

  offset-read :
      (i : ℕ)
      → i < length es
      → (e : PackEntry) → e.offset < 4294967296
      → IsStored (get_or (offset_words 0 es) i 0) e.offset (large_words es) 0
      → read_offset buffer larges_start
          (length buffer - 40)
          (get_uint32 buffer (1032 + length es * 24 + i * 4))
        ≡ parsed e.offset
  unfolding read_offset
  offset-read i l e small (inl (same, h)) = rw (word-at i l, same) (ground arith)
  offset-read i l e small (inr (k, a, b, c, d, f)) =
      let place : larges_start + (2147483648 + (0 + k)) % 2147483648 * 8 ≡ larges_start + k * 8 =
        omega arith in
      let big : leb 2147483648 (2147483648 + (0 + k)) ≡ true = ground arith in
      rw (word-at i l, a, big, place) (large-read k e.offset c d f small)

  offsets-read :
      read_offsets buffer larges_start (length buffer - 40) (length es) (1032 + length es * 24)
      ≡ parsed (offsets_of es)
  offsets-read =
      let many : length (offsets_of es) ≡ length es = length-map (λ (e : PackEntry). e.offset) es in
      ap (λ n. read_offsets buffer larges_start (length buffer - 40) n (1032 + length es * 24))
        (sym many)
      ∙ read_offsets_lem buffer larges_start (length buffer - 40) (1032 + length es * 24)
          (offsets_of es)
          (λ i l.
            let here : i < length es = omega (arith, many) in
            offset-read i here (entry_at es i)
              (All-get (λ e. e.offset < 4294967296) es i no_entry (HasOffsets-entries es entries)
                here)
              (offset_words-IsStored 0 es i here (omega arith))
            ∙ ap parsed (sym (get_or-map (λ (e : PackEntry). e.offset) es i 0 no_entry here)))

  buffer-is_idx : is_idx buffer ≡ true
  unfolding is_idx get_uint32 uint32_bytes
  buffer-is_idx = refl

  pub buffer-names : take (length es * 20) (drop 1032 buffer) ≡ name_bytes es
  buffer-names =
      ap (λ b. take (length es * 20) (drop 1032 b)) (names-whole es checksum hash)
      ∙ ap
          (λ n.
            take (length es * 20) (
              drop n
                (to_names es checksum hash ++ (name_bytes es ++ after_names es checksum hash))))
          (sym (to_names-length es checksum hash entries few checksum_long hash_long))
      ∙ ap (take (length es * 20))
          (drop-length (to_names es checksum hash) (name_bytes es ++ after_names es checksum hash))
      ∙ ap (λ n. take n (name_bytes es ++ after_names es checksum hash))
          (sym (length-name_bytes es entries))
      ∙ take-length (name_bytes es) (after_names es checksum hash)

  pub buffer-parsed :
      (pack_key : String) (pack_size : ℕ)
      → 20 ≤ pack_size
      → pack_size ≤ max_safe_integer
      → parse_idx_view pack_key buffer pack_size
        ≡ parsed (view_of pack_key buffer pack_size (fanout es) (length es) (offsets_of es))
  unfolding parse_idx_view
  buffer-parsed pack_key pack_size lo hi =
      let size : (ltb pack_size 20 || ltb max_safe_integer pack_size) ≡ false = ground arith in
      let long : ltb (length buffer) 1072 ≡ false =
        ground (arith, (buffer-length es checksum hash entries few checksum_long hash_long)) in
      let room : (ltb (length buffer) (1032 + length es * 20)
            || ltb (length buffer - 40) (1032 + length es * 24 + length es * 4))
          ≡ false =
        ground (arith, (buffer-length es checksum hash entries few checksum_long hash_long)) in
      rw
        (
          size,
          long,
          buffer-is_idx,
          fanout-read,
          fanout-count es (first_bytes es entries),
          room,
          offsets-read,
        )
        refl
