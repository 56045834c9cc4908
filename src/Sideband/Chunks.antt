-- ===== src/Sideband/Chunks.antt =====
-- The packets of a payload decode to its slices, which make up the payload.
use gitedge.Shared.{
  ℕ, zero, suc, ◌≤◌, ◌<◌, ◌≡◌, refl, sym, ◌∙◌, ap, List, [], ◌∷◌, ◌++◌, map, length, length-take,
  length-drop, take, drop, take-append-drop, All, arith,
}
use gitedge.PktLine.{PktItem, line, concat_chunks, decode_pkt_lines, pkt_line}
use gitedge.PktLine.RoundTrip.{IsAsciiDecoder, IsFrame, decode-encode, encode_item}
use gitedge.Sideband.{sideband_payload_max_bytes, slices, slices_of, create_sideband_packet_chunks}

slices-whole :
    (f max_chunk : ℕ) (payload : List ℕ)
    → 0 < max_chunk
    → length payload ≤ f
    → (concat_chunks (slices f max_chunk payload) ≡ payload)
      × All (λ s. length s ≤ max_chunk) (slices f max_chunk payload)
unfolding slices concat_chunks
slices-whole zero max_chunk [] pos h = (refl, tt)
slices-whole zero max_chunk (b ∷ bytes) pos h = absurd (omega (arith, h))
slices-whole (suc f) max_chunk [] pos h = (refl, tt)
slices-whole (suc f) max_chunk (b ∷ bytes) pos h =
    let (whole, small) =
      slices-whole f max_chunk (drop max_chunk (b ∷ bytes)) pos
        (omega (arith, length-drop max_chunk (b ∷ bytes), h)) in
    (
      ap (take max_chunk (b ∷ bytes) ++◌) whole ∙ take-append-drop max_chunk (b ∷ bytes),
      (omega (arith, length-take max_chunk (b ∷ bytes)), small),
    )

slices_of-whole :
    (max_chunk : ℕ) (payload : List ℕ)
    → 0 < max_chunk
    → (concat_chunks (slices_of max_chunk payload) ≡ payload)
      × All (λ s. length s ≤ max_chunk) (slices_of max_chunk payload)
unfolding slices_of
slices_of-whole max_chunk [] pos = (unfold concat_chunks in refl, (omega arith, tt))
slices_of-whole max_chunk (b ∷ bytes) pos =
    slices-whole (length (b ∷ bytes)) max_chunk (b ∷ bytes) pos (omega arith)

module _ (decode : List ℕ → List ℕ) (ascii : IsAsciiDecoder decode) (band : ℕ) where
  abbrev item_of : List ℕ → PktItem
  item_of s = line (decode (band ∷ s)) (band ∷ s)

  chunks_same :
      (ss : List (List ℕ)) → map encode_item (map item_of ss) ≡ map (λ s. pkt_line (band ∷ s)) ss
  unfolding encode_item
  chunks_same [] = refl
  chunks_same (s ∷ ss) = ap (◌∷◌ (pkt_line (band ∷ s))) (chunks_same ss)

  items-IsFrame :
      (max_chunk : ℕ) (ss : List (List ℕ))
      → max_chunk ≤ sideband_payload_max_bytes
      → All (λ s. length s ≤ max_chunk) ss
      → All (IsFrame decode ascii) (map item_of ss)
  items-IsFrame max_chunk [] m h = tt
  items-IsFrame max_chunk (s ∷ ss) m (h, hs) =
      ((refl, omega arith), items-IsFrame max_chunk ss m hs)

-- If texts of ASCII bytes decode to themselves, and a chunk has from 1 to 65515 bytes, then the packets
-- that a payload is sent as decode to one line for each slice, with the band as its first byte, no slice
-- is longer than a chunk, and the slices one after the other are the payload.
pub decode-create :
    (decode : List ℕ → List ℕ) (band : ℕ) (payload : List ℕ) (max_chunk : ℕ)
    → IsAsciiDecoder decode
    → 0 < max_chunk
    → max_chunk ≤ sideband_payload_max_bytes
    → (decode_pkt_lines decode
          (concat_chunks (create_sideband_packet_chunks band payload max_chunk))
        ≡ map (λ s. line (decode (band ∷ s)) (band ∷ s)) (slices_of max_chunk payload))
      × All (λ s. length s ≤ max_chunk) (slices_of max_chunk payload)
      × (concat_chunks (slices_of max_chunk payload) ≡ payload)
unfolding create_sideband_packet_chunks
decode-create decode band payload max_chunk ascii pos small =
    let ss = slices_of max_chunk payload in
    let (whole, short) = slices_of-whole max_chunk payload pos in
    (
      ap (λ cs. decode_pkt_lines decode (concat_chunks cs)) (sym (chunks_same decode ascii band ss))
          ∙ decode-encode decode ascii (map (λ s. line (decode (band ∷ s)) (band ∷ s)) ss)
              (items-IsFrame decode ascii band max_chunk ss small short),
      short,
      whole,
    )
