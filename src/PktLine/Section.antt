-- ===== src/PktLine/Section.antt =====
-- `parsePktSection` on a section of lines, and the fuel of the two loops.
use gitedge.Shared.{
  ℕ, zero, suc, ◌+◌, ◌≤◌, ◌<◌, ◌≡◌, refl, ◌∙◌, ap, true, List, [], ◌∷◌, ◌++◌, Option, none, some,
  leb, map, length, length-append, length-drop, take, drop, take-length, drop-length, All,
  Bool-cases, inl, inr, arith,
}
use gitedge.PktLine.{
  Header, line, flush, delim, response_end, pkt_line, flush_pkt, concat_chunks, header_of,
  payload_of, flush_header, delim_header, response_end_header, malformed, chomp, decode_loop,
  decode_pkt_lines, section_loop, parse_pkt_section,
}
use gitedge.PktLine.Digits.{four_digits}
use gitedge.PktLine.RoundTrip.{
  IsAsciiDecoder, pkt_line_lem, frame_header, flush_pkt-All, long, header-flush,
}

-- One line more in front of what is parsed.
abbrev pub with_line : List ℕ → Option (List (List ℕ) × ℕ) → Option (List (List ℕ) × ℕ)
with_line l none = none
with_line l (some (lines, offset)) = some (l ∷ lines, offset)

append-append {ℓ} : {A : Type ℓ} (xs ys zs : List A) → (xs ++ ys) ++ zs ≡ xs ++ (ys ++ zs)
append-append [] ys zs = refl
append-append (x ∷ xs) ys zs = ap (◌∷◌ x) (append-append xs ys zs)

module _ (decode : List ℕ → List ℕ) where
  header_step :
      (f g : ℕ) (buf : List ℕ) (header : Header)
      → header_of (decode (take 4 buf)) ≡ header
      → leb 4 (length buf) ≡ true
      → ((rest : List ℕ)
          → length rest < length buf
          → decode_loop decode f rest ≡ decode_loop decode g rest)
      → decode_loop decode (suc f) buf ≡ decode_loop decode (suc g) buf
  unfolding decode_loop
  header_step f g buf flush_header e h same =
      rw (h, e, decode_loop)
        (ap (◌∷◌ flush) (same (drop 4 buf) (ground (arith, length-drop 4 buf))))
  header_step f g buf delim_header e h same =
      rw (h, e, decode_loop)
        (ap (◌∷◌ delim) (same (drop 4 buf) (ground (arith, length-drop 4 buf))))
  header_step f g buf response_end_header e h same =
      rw (h, e, decode_loop)
        (ap (◌∷◌ response_end) (same (drop 4 buf) (ground (arith, length-drop 4 buf))))
  header_step f g buf malformed e h same = rw (h, e, decode_loop) refl
  header_step f g buf (payload_of n) e h same = elim (Bool-cases (leb n (length (drop 4 buf)))) [
    | inr short ↦ rw (h, e, short, decode_loop) refl
    | inl fits ↦
        rw (h, e, fits, decode_loop)
          (ap (◌∷◌ (line (decode (take n (drop 4 buf))) (take n (drop 4 buf)))) (
            same (drop n (drop 4 buf))
              (ground (arith, length-drop 4 buf, length-drop n (drop 4 buf)))))
  ]

  same_fuel :
      (f g : ℕ) (buf : List ℕ)
      → length buf ≤ f
      → length buf ≤ g
      → decode_loop decode f buf ≡ decode_loop decode g buf
  unfolding decode_loop
  same_fuel zero zero buf h k = refl
  same_fuel zero (suc g) buf h k = ground arith
  same_fuel (suc f) zero buf h k = ground arith
  same_fuel (suc f) (suc g) buf h k = elim (Bool-cases (leb 4 (length buf))) [
    | inr short ↦ rw (short, decode_loop) refl
    | inl y ↦
        header_step f g buf (header_of (decode (take 4 buf))) refl y
          (λ rest less. same_fuel f g rest (omega arith) (omega arith))
  ]

lines_le :
    (raws : List (List ℕ))
    → All (λ raw. length raw + 4 < 65536) raws
    → length raws ≤ length (concat_chunks (map pkt_line raws))
unfolding concat_chunks
lines_le [] h = omega arith
lines_le (raw ∷ raws) (h, hs) = omega (
  arith,
  lines_le raws hs,
  length-append (pkt_line raw) (concat_chunks (map pkt_line raws)),
  ap length (pkt_line_lem raw h),
)

module _ (decode : List ℕ → List ℕ) (ascii : IsAsciiDecoder decode) where
  payload_step :
      (f n off : ℕ) (buf : List ℕ)
      → leb 4 (length buf) ≡ true
      → header_of (decode (take 4 buf)) ≡ payload_of n
      → leb n (length (drop 4 buf)) ≡ true
      → section_loop decode (suc f) buf off
        ≡ with_line
            (chomp (decode (take n (drop 4 buf))))
            (section_loop decode f (drop n (drop 4 buf)) (off + 4 + n))
  unfolding section_loop
  payload_step f n off buf h header fits = rw (h, header, fits, section_loop) refl

  line_step :
      (f off : ℕ) (raw rest : List ℕ)
      → length raw + 4 < 65536
      → section_loop decode (suc f) (pkt_line raw ++ rest) off
        ≡ with_line (chomp (decode raw)) (section_loop decode f rest (off + 4 + length raw))
  line_step f off raw rest h =
      let step =
        payload_step f (length raw) off (four_digits (length raw + 4) ++ (raw ++ rest))
          (ground arith) (frame_header decode ascii raw rest h)
          (ground (arith, length-append raw rest)) in
      rw (pkt_line_lem raw h) (rw (take-length raw rest, drop-length raw rest) at step)

  flush_step :
      (f off : ℕ) (rest : List ℕ)
      → section_loop decode (suc f) (flush_pkt ++ rest) off ≡ some ([], off + 4)
  unfolding section_loop
  flush_step f off rest =
      rw (long rest, ascii flush_pkt flush_pkt-All, header-flush, section_loop) refl

  loop_section :
      (f off : ℕ) (raws : List (List ℕ)) (rest : List ℕ)
      → length raws < f
      → All (λ raw. length raw + 4 < 65536) raws
      → section_loop decode f (concat_chunks (map pkt_line raws) ++ (flush_pkt ++ rest)) off
        ≡ some (
          map (λ raw. chomp (decode raw)) raws,
          off + length (concat_chunks (map pkt_line raws)) + 4,
        )
  unfolding concat_chunks
  loop_section zero off raws rest n h = absurd (omega arith)
  loop_section (suc f) off [] rest n h =
      flush_step f off rest ∙ ap (λ o. some ([], o)) (omega arith)
  loop_section (suc f) off (raw ∷ raws) rest n (h, hs) =
      let tail = concat_chunks (map pkt_line raws) in
      ap (λ b. section_loop decode (suc f) b off)
        (append-append (pkt_line raw) tail (flush_pkt ++ rest))
      ∙ line_step f off raw (tail ++ (flush_pkt ++ rest)) h
      ∙ ap (with_line (chomp (decode raw)))
          (loop_section f (off + 4 + length raw) raws rest (omega arith) hs)
      ∙ ap (λ o. some (chomp (decode raw) ∷ map (λ r. chomp (decode r)) raws, o))
          (omega (arith, length-append (pkt_line raw) tail, ap length (pkt_line_lem raw h)))

  -- If texts of ASCII bytes decode to themselves, then a section of lines that each fit in a frame, with
  -- a flush packet behind them, parses to the decoded lines without their line ends, and to the
  -- offset behind the flush packet, whatever follows.
  pub parse-section :
      (raws : List (List ℕ)) (rest : List ℕ)
      → All (λ raw. length raw + 4 < 65536) raws
      → parse_pkt_section decode (concat_chunks (map pkt_line raws) ++ (flush_pkt ++ rest))
        ≡ some
            (map (λ raw. chomp (decode raw)) raws, length (concat_chunks (map pkt_line raws)) + 4)
  unfolding parse_pkt_section
  parse-section raws rest h =
      loop_section (length (concat_chunks (map pkt_line raws) ++ (flush_pkt ++ rest))) 0 raws rest
        (omega (
          arith,
          lines_le raws h,
          length-append (concat_chunks (map pkt_line raws)) (flush_pkt ++ rest),
        ))
        h
      ∙ ap (λ o. some (map (λ raw. chomp (decode raw)) raws, o)) (omega arith)

-- The loop of `decodePktLines` comes to its end within the length of the buffer: more rounds than
-- that change nothing, for any buffer and any decoder.
pub decode-fuel :
    (decode : List ℕ → List ℕ) (f : ℕ) (buf : List ℕ)
    → length buf ≤ f
    → decode_loop decode f buf ≡ decode_pkt_lines decode buf
unfolding decode_pkt_lines
decode-fuel decode f buf h = same_fuel decode f (length buf) buf h (omega arith)
