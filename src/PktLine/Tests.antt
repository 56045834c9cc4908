-- ===== src/PktLine/Tests.antt =====
-- A decoder that keeps ASCII and replaces every other byte, and what it reads.
use gitedge.Shared.{
  ℕ, ◌+◌, ◌≤◌, ◌<◌, ◌≡◌, refl, ap, Bool, true, false, List, [], ◌∷◌, ◌++◌, Option, some, ltb,
  if◌then◌else◌, map, length, All, arith,
}
use gitedge.Shared.Text.{codes}
use gitedge.PktLine.{
  PktItem, line, flush, delim, chomp, pkt_line, flush_pkt, concat_chunks, decode_loop,
  decode_pkt_lines, parse_pkt_section,
}
use gitedge.PktLine.RoundTrip.{IsAsciiDecoder, decode-encode, encode_item}
use gitedge.PktLine.Section.{decode-fuel, parse-section}

abbrev decode : List ℕ → List ℕ
decode [] = []
decode (c ∷ cs) = (if ltb c 128 then c else 0xfffd) ∷ decode cs

decode_ascii : IsAsciiDecoder decode
decode_ascii [] h = refl
decode_ascii (c ∷ cs) (small, h) = ground (arith, decode_ascii cs h)

abbrev want : List ℕ
want = codes "want main"

abbrev items : List PktItem
items = line want want ∷ delim ∷ line [] [] ∷ flush ∷ []

decode-encode_example : decode_pkt_lines decode (concat_chunks (map encode_item items)) ≡ items
decode-encode_example =
    decode-encode decode decode_ascii items
      ((refl, omega arith), (tt, ((refl, omega arith), (tt, tt))))

parse-section_example :
    parse_pkt_section decode
      (concat_chunks (map pkt_line (want ∷ codes "done\n" ∷ [])) ++ (flush_pkt ++ codes "PACK"))
    ≡ some (
      map (λ raw. chomp (decode raw)) (want ∷ codes "done\n" ∷ []),
      length (concat_chunks (map pkt_line (want ∷ codes "done\n" ∷ []))) + 4,
    )
parse-section_example =
    parse-section decode decode_ascii (want ∷ codes "done\n" ∷ []) (codes "PACK")
      (omega arith, (omega arith, tt))

decode-fuel_example :
    decode_loop decode 9 (codes "0005a000") ≡ decode_pkt_lines decode (codes "0005a000")
decode-fuel_example = decode-fuel decode 9 (codes "0005a000") (omega arith)

-- `parseInt` stops at the first character that is no digit, so `01zz` counts as 1 and is refused.
bad_header : decode_pkt_lines decode (codes "0005a01zzab") ≡ line (codes "a") (codes "a") ∷ []
unfolding decode_pkt_lines decode_loop gitedge.PktLine.header_of gitedge.Shared.Text.codes_eq
    gitedge.PktLine.parse_int16 gitedge.PktLine.skip_spaces gitedge.PktLine.is_space
    gitedge.PktLine.parse_signed gitedge.PktLine.skip_0x gitedge.PktLine.digits_value
    gitedge.PktLine.hex_value
bad_header = refl
