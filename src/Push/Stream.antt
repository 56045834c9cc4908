-- ===== src/Push/Stream.antt =====
-- `readPktSectionStream`: what it reads depends on the bytes, not on how they come in chunks.
use gitedge.Shared.{
  ℕ, ◌<◌, ◌≡◌, refl, sym, ap, ◌∙◌, inl, inr, List, [], ◌∷◌, ◌++◌, ltb, length, length-append, drop,
  Bool-cases, arith,
}
use mathlib.Core.List.{append-nil, append_assoc}
use gitedge.PktLine.{concat_chunks}
use gitedge.Push.{
  ParsedPktSection, parsed, incomplete, invalid, parse_pkt_section_prefix, SectionRead, section,
  refused, ended, too_large, pack_stream, max_command_section_bytes, read_loop,
  read_pkt_section_stream,
}
use gitedge.Push.Prefix.{prefix-append, drop-append, offset-le}

module _ (decode : List ℕ → List ℕ) where
  -- What each answer says of all the bytes of the stream.
  abbrev pub ReadMeans : List ℕ → SectionRead → Type 0
  ReadMeans bytes (section lines offset pack) =
      (parse_pkt_section_prefix decode bytes ≡ parsed lines offset)
      × (concat_chunks pack ≡ drop offset bytes)
  ReadMeans bytes (refused r) = parse_pkt_section_prefix decode bytes ≡ invalid r
  ReadMeans bytes ended = parse_pkt_section_prefix decode bytes ≡ incomplete
  ReadMeans bytes too_large = max_command_section_bytes < length bytes

  concat-pack_stream :
      (remainder : List ℕ) (chunks : List (List ℕ))
      → concat_chunks (pack_stream remainder chunks) ≡ remainder ++ concat_chunks chunks
  unfolding pack_stream concat_chunks
  concat-pack_stream [] chunks = refl
  concat-pack_stream (b ∷ bs) chunks = refl

  -- A verdict on what is buffered is the verdict on all bytes.
  section_means :
      (buffered : List ℕ) (chunks : List (List ℕ)) (lines : List (List ℕ)) (offset : ℕ)
      → parse_pkt_section_prefix decode buffered ≡ parsed lines offset
      → ReadMeans
          (buffered ++ concat_chunks chunks)
          (section lines offset (pack_stream (drop offset buffered) chunks))
  section_means buffered chunks lines offset e =
      let rest = concat_chunks chunks in
      let verdict : parse_pkt_section_prefix decode (buffered ++ rest) ≡ parsed lines offset =
        elim (prefix-append decode buffered rest) [
          | inl none ↦ absurd (ground (arith, sym e ∙ none))
          | inr same ↦ same ∙ e
        ] in
      (
        verdict,
        concat-pack_stream (drop offset buffered) chunks
            ∙ sym (drop-append offset buffered rest (offset-le decode buffered lines offset e)),
      )

  refused_means :
      (buffered : List ℕ) (chunks : List (List ℕ)) (r : _)
      → parse_pkt_section_prefix decode buffered ≡ invalid r
      → ReadMeans (buffered ++ concat_chunks chunks) (refused r)
  refused_means buffered chunks r e = elim (prefix-append decode buffered (concat_chunks chunks)) [
    | inl none ↦ absurd (ground (arith, sym e ∙ none))
    | inr same ↦ same ∙ e
  ]

  loop_end :
      (buffered : List ℕ) (p : ParsedPktSection)
      → parse_pkt_section_prefix decode buffered ≡ p
      → ReadMeans (buffered ++ concat_chunks []) (read_loop decode buffered [])
  unfolding read_loop
  loop_end buffered (parsed lines offset) e =
      rw (e, read_loop) (section_means buffered [] lines offset e)
  loop_end buffered (invalid r) e = rw (e, read_loop) (refused_means buffered [] r e)
  loop_end buffered incomplete e =
      let all : buffered ++ concat_chunks [] ≡ buffered =
        unfold concat_chunks in append-nil buffered in
      rw (e, read_loop) (ap (parse_pkt_section_prefix decode) all ∙ e)

  loop_step :
      (buffered c : List ℕ) (cs : List (List ℕ)) (p : ParsedPktSection)
      → parse_pkt_section_prefix decode buffered ≡ p
      → ReadMeans ((buffered ++ c) ++ concat_chunks cs) (read_loop decode (buffered ++ c) cs)
      → ReadMeans (buffered ++ concat_chunks (c ∷ cs)) (read_loop decode buffered (c ∷ cs))
  unfolding read_loop
  loop_step buffered c cs (parsed lines offset) e ih =
      rw (e, read_loop) (section_means buffered (c ∷ cs) lines offset e)
  loop_step buffered c cs (invalid r) e ih = rw (e, read_loop) (refused_means buffered (c ∷ cs) r e)
  loop_step buffered c cs incomplete e ih =
      let all : buffered ++ concat_chunks (c ∷ cs) ≡ (buffered ++ c) ++ concat_chunks cs =
        unfold concat_chunks in sym (append_assoc buffered c (concat_chunks cs)) in
      elim (Bool-cases (ltb max_command_section_bytes (length (buffered ++ c)))) [
        | inl big ↦
            rw (e, big, read_loop, all)
              (ground (arith, length-append (buffered ++ c) (concat_chunks cs)))
        | inr fits ↦ rw (e, fits, read_loop, all) ih
      ]

  loop_means :
      (buffered : List ℕ) (chunks : List (List ℕ))
      → ReadMeans (buffered ++ concat_chunks chunks) (read_loop decode buffered chunks)
  loop_means buffered [] = loop_end buffered (parse_pkt_section_prefix decode buffered) refl
  loop_means buffered (c ∷ cs) =
      loop_step buffered c cs (parse_pkt_section_prefix decode buffered) refl
        (loop_means (buffered ++ c) cs)

-- However the bytes of a request come in chunks, the stream reader answers as the parser of one
-- buffer does on all of them: a section has the parser's lines and offset, and the chunks of its
-- pack are together exactly the bytes behind that offset; a refusal is the parser's, for the same
-- reason; and a request that ends too early is one that the parser finds incomplete. Only a
-- request of more than 256 KiB is refused for its size.
pub read-ReadMeans :
    (decode : List ℕ → List ℕ) (chunks : List (List ℕ))
    → ReadMeans decode (concat_chunks chunks) (read_pkt_section_stream decode chunks)
unfolding read_pkt_section_stream
read-ReadMeans decode chunks = loop_means decode [] chunks
