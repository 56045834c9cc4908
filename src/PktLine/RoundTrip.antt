-- ===== src/PktLine/RoundTrip.antt =====
-- What `pktLine`, `flushPkt`, `delimPkt` and `responseEndPkt` write, `decodePktLines` reads.
use gitedge.Shared.{
  ℕ, zero, suc, ◌+◌, ◌≤◌, ◌<◌, ◌≡◌, refl, sym, ◌∙◌, ap, true, List, [], ◌∷◌, ◌++◌, leb, map, length,
  length-append, take, drop, take-length, drop-length, All, arith,
}
use gitedge.Shared.Text.{codes_eq}
use gitedge.PktLine.{
  PktItem, line, flush, delim, response_end, pkt_line, flush_pkt, delim_pkt, response_end_pkt,
  concat_chunks, header_of, payload_of, flush_header, delim_header, response_end_header,
  decode_loop, decode_pkt_lines,
}
use gitedge.PktLine.Digits.{four_digits, four_digits-All, header_of_lem, to_hex4_lem}

-- The chunk that an item is sent as.
unfoldable pub encode_item : PktItem → List ℕ
encode_item (line text raw) = pkt_line raw
encode_item flush = flush_pkt
encode_item delim = delim_pkt
encode_item response_end = response_end_pkt

-- What is documented of `TextDecoder`: a text of ASCII bytes has these bytes as its codes.
abbrev pub IsAsciiDecoder : (List ℕ → List ℕ) → Type 0
IsAsciiDecoder decode = (s : List ℕ) → All (λ c. c < 128) s → decode s ≡ s

pub pkt_line_lem :
    (raw : List ℕ) → length raw + 4 < 65536 → pkt_line raw ≡ four_digits (length raw + 4) ++ raw
unfolding pkt_line
pkt_line_lem raw h = rw (to_hex4_lem (length raw + 4) h) refl

pub flush_pkt-All : All (λ c. c < 128) flush_pkt
flush_pkt-All = (omega arith, (omega arith, (omega arith, (omega arith, tt))))

pub long : (rest : List ℕ) → leb 4 (suc (suc (suc (suc (length rest))))) ≡ true
long rest = ground arith

pub header-flush : header_of flush_pkt ≡ flush_header
unfolding header_of codes_eq
header-flush = refl

header-delim : header_of delim_pkt ≡ delim_header
unfolding header_of codes_eq
header-delim = refl

header-response_end : header_of response_end_pkt ≡ response_end_header
unfolding header_of codes_eq
header-response_end = refl

module _ (decode : List ℕ → List ℕ) (ascii : IsAsciiDecoder decode) where
  -- The header of a frame.
  pub frame_header :
      (raw rest : List ℕ)
      → length raw + 4 < 65536
      → header_of (decode (take 4 (four_digits (length raw + 4) ++ (raw ++ rest))))
        ≡ payload_of (length raw)
  frame_header raw rest h =
      ap header_of (ascii (four_digits (length raw + 4)) (four_digits-All (length raw + 4) h))
      ∙ header_of_lem (length raw + 4) (omega arith) h
      ∙ ap payload_of (omega arith)

  payload_step :
      (f n : ℕ) (buf : List ℕ)
      → leb 4 (length buf) ≡ true
      → header_of (decode (take 4 buf)) ≡ payload_of n
      → leb n (length (drop 4 buf)) ≡ true
      → decode_loop decode (suc f) buf
        ≡ line (decode (take n (drop 4 buf))) (take n (drop 4 buf))
          ∷ decode_loop decode f (drop n (drop 4 buf))
  unfolding decode_loop
  payload_step f n buf long header fits = rw (long, header, fits, decode_loop) refl

  line_step :
      (f : ℕ) (raw rest : List ℕ)
      → length raw + 4 < 65536
      → decode_loop decode (suc f) (pkt_line raw ++ rest)
        ≡ line (decode raw) raw ∷ decode_loop decode f rest
  line_step f raw rest h =
      let step =
        payload_step f (length raw) (four_digits (length raw + 4) ++ (raw ++ rest)) (ground arith)
          (frame_header raw rest h) (ground (arith, length-append raw rest)) in
      rw (pkt_line_lem raw h) (rw (take-length raw rest, drop-length raw rest) at step)

  flush_step :
      (f : ℕ) (rest : List ℕ)
      → decode_loop decode (suc f) (flush_pkt ++ rest) ≡ flush ∷ decode_loop decode f rest
  unfolding decode_loop
  flush_step f rest = rw (long rest, ascii flush_pkt flush_pkt-All, header-flush, decode_loop) refl

  delim_step :
      (f : ℕ) (rest : List ℕ)
      → decode_loop decode (suc f) (delim_pkt ++ rest) ≡ delim ∷ decode_loop decode f rest
  unfolding decode_loop
  delim_step f rest =
      rw
        (
          long rest,
          ascii delim_pkt (omega arith, (omega arith, (omega arith, (omega arith, tt)))),
          header-delim,
          decode_loop,
        )
        refl

  response_end_step :
      (f : ℕ) (rest : List ℕ)
      → decode_loop decode (suc f) (response_end_pkt ++ rest)
        ≡ response_end ∷ decode_loop decode f rest
  unfolding decode_loop
  response_end_step f rest =
      rw
        (
          long rest,
          ascii response_end_pkt (omega arith, (omega arith, (omega arith, (omega arith, tt)))),
          header-response_end,
          decode_loop,
        )
        refl

  -- An item whose text is the decoding of its bytes, which fit in a frame.
  abbrev pub IsFrame : PktItem → Type 0
  IsFrame (line text raw) = (text ≡ decode raw) × (length raw + 4 < 65536)
  IsFrame flush = Unit
  IsFrame delim = Unit
  IsFrame response_end = Unit

  item_step :
      (f : ℕ) (item : PktItem) (rest : List ℕ)
      → IsFrame item
      → decode_loop decode (suc f) (encode_item item ++ rest) ≡ item ∷ decode_loop decode f rest
  unfolding encode_item
  item_step f (line text raw) rest (e, fits) =
      line_step f raw rest fits ∙ ap (λ t. line t raw ∷ decode_loop decode f rest) (sym e)
  item_step f flush rest h = flush_step f rest
  item_step f delim rest h = delim_step f rest
  item_step f response_end rest h = response_end_step f rest

  loop_round_trip :
      (f : ℕ) (items : List PktItem)
      → length items ≤ f
      → All IsFrame items
      → decode_loop decode f (concat_chunks (map encode_item items)) ≡ items
  unfolding concat_chunks
  loop_round_trip zero [] n h = unfold decode_loop in refl
  loop_round_trip (suc f) [] n h = unfold decode_loop in refl
  loop_round_trip zero (item ∷ items) n h = absurd (omega arith)
  loop_round_trip (suc f) (item ∷ items) n (h, hs) =
      item_step f item (concat_chunks (map encode_item items)) h
      ∙ ap (◌∷◌ item) (loop_round_trip f items (omega arith) hs)

  encode_long : (item : PktItem) → IsFrame item → 1 ≤ length (encode_item item)
  unfolding encode_item
  encode_long (line text raw) (e, fits) =
      rw (pkt_line_lem raw fits) (omega (arith, length-append (four_digits (length raw + 4)) raw))
  encode_long flush h = omega arith
  encode_long delim h = omega arith
  encode_long response_end h = omega arith

  items_le :
      (items : List PktItem)
      → All IsFrame items
      → length items ≤ length (concat_chunks (map encode_item items))
  unfolding concat_chunks
  items_le [] h = omega arith
  items_le (item ∷ items) (h, hs) = omega (
    arith,
    encode_long item h,
    items_le items hs,
    length-append (encode_item item) (concat_chunks (map encode_item items)),
  )

  -- If texts of ASCII bytes decode to themselves, then a buffer of lines that each fit in a frame, and
  -- of the three special packets, decodes to just these items.
  pub decode-encode :
      (items : List PktItem)
      → All IsFrame items
      → decode_pkt_lines decode (concat_chunks (map encode_item items)) ≡ items
  unfolding decode_pkt_lines
  decode-encode items h =
      loop_round_trip (length (concat_chunks (map encode_item items))) items (items_le items h) h
