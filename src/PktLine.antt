-- ===== src/PktLine.antt =====
-- src/worker/git/core/pktline.ts: the frames of the Git protocol. A buffer is a list of bytes, and
-- the rest of it is what `off` has not passed. `TextDecoder` is outside, so `decode` is a parameter:
-- it takes bytes to the codes of a text.
pub mod Digits
pub mod RoundTrip
pub mod Section
mod Tests
use gitedge.Shared.{
  ℕ, zero, suc, ◌+◌, ◌-◌, ◌*◌, ◌/◌, ◌%◌, Bool, true, false, List, [], ◌∷◌, ◌++◌, Option, none, some,
  ltb, leb, ◌==◌, ◌||◌, ◌&&◌, if◌then◌else◌, or_else, length, take, drop, replicate,
}
use gitedge.Shared.Text.{codes, codes_eq}

unfoldable pub hex_digit : ℕ → ℕ
hex_digit d = if ltb d 10 then 48 + d else 87 + d

-- `n.toString(16)`. A length is below 2^53, so it has at most 14 digits.
unfoldable pub to_string16 : ℕ → ℕ → List ℕ
to_string16 zero n = []
to_string16 (suc f) n =
    if ltb n 16 then hex_digit n ∷ [] else to_string16 f (n / 16) ++ (hex_digit (n % 16) ∷ [])

-- `.padStart(4, "0")`
unfoldable pub pad_start4 : List ℕ → List ℕ
pad_start4 s = replicate (4 - length s) b'0' ++ s

unfoldable pub to_hex4 : ℕ → List ℕ
to_hex4 n = pad_start4 (to_string16 14 n)

unfoldable pub pkt_line : List ℕ → List ℕ
pkt_line payload = to_hex4 (length payload + 4) ++ payload

abbrev pub flush_pkt : List ℕ
flush_pkt = b'0' ∷ b'0' ∷ b'0' ∷ b'0' ∷ []

abbrev pub delim_pkt : List ℕ
delim_pkt = b'0' ∷ b'0' ∷ b'0' ∷ b'1' ∷ []

abbrev pub response_end_pkt : List ℕ
response_end_pkt = b'0' ∷ b'0' ∷ b'0' ∷ b'2' ∷ []

unfoldable pub concat_chunks : List (List ℕ) → List ℕ
concat_chunks [] = []
concat_chunks (c ∷ cs) = c ++ concat_chunks cs

unfoldable pub hex_value : ℕ → Option ℕ
hex_value c =
    if leb 48 c && leb c 57
    then some (c - 48)
    else if leb 97 c && leb c 102
    then some (c - 87)
    else if leb 65 c && leb c 70
    then some (c - 55)
    else none

-- White space and line ends, which `parseInt` skips.
unfoldable pub is_space : ℕ → Bool
is_space c =
    (leb 9 c && leb c 13)
    || c == 0x20
    || c == 0xa0
    || c == 0x1680
    || (leb 0x2000 c && leb c 0x200a)
    || c == 0x2028
    || c == 0x2029
    || c == 0x202f
    || c == 0x205f
    || c == 0x3000
    || c == 0xfeff

unfoldable pub skip_spaces : List ℕ → List ℕ
skip_spaces [] = []
skip_spaces (c ∷ cs) = if is_space c then skip_spaces cs else c ∷ cs

-- The value of the hexadecimal digits up to the first other character.
unfoldable pub digits_value : Option ℕ → List ℕ → Option ℕ
digits_value acc [] = acc
digits_value acc (c ∷ cs) = elim (hex_value c) [
  | none ↦ acc
  | some d ↦ digits_value (some (or_else acc 0 * 16 + d)) cs
]

unfoldable pub skip_0x : List ℕ → List ℕ
skip_0x [] = []
skip_0x (c ∷ []) = c ∷ []
skip_0x (c ∷ d ∷ cs) = if c == b'0' && (d == b'x' || d == b'X') then cs else c ∷ d ∷ cs

-- A number with its sign, or NaN.
pub data Parsed : Type 0 where
  nan : Parsed
  minus plus : ℕ → Parsed

abbrev pub minus_of : Option ℕ → Parsed
minus_of none = nan
minus_of (some n) = minus n

abbrev pub plus_of : Option ℕ → Parsed
plus_of none = nan
plus_of (some n) = plus n

-- `parseInt` past the white space.
unfoldable pub parse_signed : List ℕ → Parsed
parse_signed [] = nan
parse_signed (c ∷ cs) =
    if c == b'-'
    then minus_of (digits_value none (skip_0x cs))
    else if c == b'+'
    then plus_of (digits_value none (skip_0x cs))
    else plus_of (digits_value none (skip_0x (c ∷ cs)))

-- `parseInt(hdr, 16)`
unfoldable pub parse_int16 : List ℕ → Parsed
parse_int16 s = parse_signed (skip_spaces s)

-- What a header says: a special packet, the length of the payload, or nothing of use.
pub data Header : Type 0 where
  flush_header delim_header response_end_header malformed : Header
  payload_of : ℕ → Header

abbrev pub sized : Parsed → Header
sized nan = malformed
sized (minus n) = malformed
sized (plus n) = if ltb n 4 then malformed else payload_of (n - 4)

unfoldable pub header_of : List ℕ → Header
header_of hdr =
    if codes_eq hdr flush_pkt
    then flush_header
    else if codes_eq hdr delim_pkt
    then delim_header
    else if codes_eq hdr response_end_pkt
    then response_end_header
    else sized (parse_int16 hdr)

-- `s.replace(/\r?\n$/, "")`
unfoldable pub chomp : List ℕ → List ℕ
chomp [] = []
chomp (c ∷ []) = if c == 0x0a then [] else c ∷ []
chomp (c ∷ d ∷ []) = if c == 0x0d && d == 0x0a then [] else if d == 0x0a then c ∷ [] else c ∷ d ∷ []
chomp (c ∷ d ∷ e ∷ s) = c ∷ chomp (d ∷ e ∷ s)

pub data PktItem : Type 0 where
  line : List ℕ → List ℕ → PktItem
  flush delim response_end : PktItem

module _ (decode : List ℕ → List ℕ) where
  -- The loop of `decodePktLines`.
  unfoldable pub decode_loop : ℕ → List ℕ → List PktItem
  decode_loop zero buf = []
  decode_loop (suc f) buf =
      let rest = drop 4 buf in
      elim (leb 4 (length buf)) [
        | false ↦ []
        | true ↦ elim (header_of (decode (take 4 buf))) [
          | flush_header ↦ flush ∷ decode_loop f rest
          | delim_header ↦ delim ∷ decode_loop f rest
          | response_end_header ↦ response_end ∷ decode_loop f rest
          | malformed ↦ []
          | payload_of n ↦ elim (leb n (length rest)) [
            | false ↦ []
            | true ↦ line (decode (take n rest)) (take n rest) ∷ decode_loop f (drop n rest)
          ]
        ]
      ]

  -- A round takes four bytes at least, so the length of the buffer is enough fuel.
  unfoldable pub decode_pkt_lines : List ℕ → List PktItem
  decode_pkt_lines buf = decode_loop (length buf) buf

  -- The loop of `parsePktSection`, which also counts `off`.
  unfoldable pub section_loop : ℕ → List ℕ → ℕ → Option (List (List ℕ) × ℕ)
  section_loop zero buf off = none
  section_loop (suc f) buf off =
      let rest = drop 4 buf in
      elim (leb 4 (length buf)) [
        | false ↦ none
        | true ↦ elim (header_of (decode (take 4 buf))) [
          | flush_header ↦ some ([], off + 4)
          | delim_header ↦ none
          | response_end_header ↦ none
          | malformed ↦ none
          | payload_of n ↦ elim (leb n (length rest)) [
            | false ↦ none
            | true ↦ elim (section_loop f (drop n rest) (off + 4 + n)) [
              | none ↦ none
              | some (lines, offset) ↦ some (chomp (decode (take n rest)) ∷ lines, offset)
            ]
          ]
        ]
      ]

  unfoldable pub parse_pkt_section : List ℕ → Option (List (List ℕ) × ℕ)
  parse_pkt_section buf = section_loop (length buf) buf 0
