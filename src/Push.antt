-- ===== src/Push.antt =====
-- src/worker/git/receive: the request of a push. pktSectionStream.ts reads the section of commands
-- from a stream of chunks and hands the rest on as the pack; request.ts reads the commands.
-- A text is the list of its codes, and `TextDecoder` is the parameter `decode`.
pub mod Prefix
pub mod Stream
pub mod Request
mod Tests
use gitedge.Shared.{
  ℕ, zero, suc, ◌+◌, ◌*◌, Bool, true, false, List, [], ◌∷◌, ◌++◌, Option, none, some, ltb, leb,
  ◌==◌, ◌&&◌, if◌then◌else◌, length, take, drop, is_nil, find, any, or_else,
}
use gitedge.Shared.Text.{codes, codes_eq, starts_with, push_code}
use gitedge.PktLine.{
  header_of, flush_header, delim_header, response_end_header, malformed, payload_of, chomp,
  is_space, skip_spaces,
}

abbrev pub max_command_section_bytes : ℕ
max_command_section_bytes = 256 * 1024

-- The two messages of a section that is refused.
pub data Refusal : Type 0 where
  unexpected_delimiter malformed_header : Refusal

pub data ParsedPktSection : Type 0 where
  parsed : List (List ℕ) → ℕ → ParsedPktSection
  incomplete : ParsedPktSection
  invalid : Refusal → ParsedPktSection

abbrev pub add_line : List ℕ → ParsedPktSection → ParsedPktSection
add_line l (parsed lines offset) = parsed (l ∷ lines) offset
add_line l incomplete = incomplete
add_line l (invalid r) = invalid r

-- What `readPktSectionStream` returns or throws. The pack is the list of the chunks that its stream
-- delivers.
pub data SectionRead : Type 0 where
  section : List (List ℕ) → ℕ → List (List ℕ) → SectionRead
  refused : Refusal → SectionRead
  ended too_large : SectionRead

-- `if (prefixRemainder.byteLength > 0) controller.enqueue(prefixRemainder)`
unfoldable pub pack_stream : List ℕ → List (List ℕ) → List (List ℕ)
pack_stream remainder chunks = if is_nil remainder then chunks else remainder ∷ chunks

module _ (decode : List ℕ → List ℕ) where
  -- The loop of `parsePktSectionPrefix` over the bytes that `offset` has not passed.
  unfoldable pub prefix_loop : ℕ → List ℕ → ℕ → ParsedPktSection
  prefix_loop zero buf offset = incomplete
  prefix_loop (suc f) buf offset =
      let rest = drop 4 buf in
      elim (leb 4 (length buf)) [
        | false ↦ incomplete
        | true ↦ elim (header_of (decode (take 4 buf))) [
          | flush_header ↦ parsed [] (offset + 4)
          | delim_header ↦ invalid unexpected_delimiter
          | response_end_header ↦ invalid unexpected_delimiter
          | malformed ↦ invalid malformed_header
          | payload_of n ↦ elim (leb n (length rest)) [
            | false ↦ incomplete
            | true ↦
                add_line (chomp (decode (take n rest)))
                  (prefix_loop f (drop n rest) (offset + 4 + n))
          ]
        ]
      ]

  -- A round takes four bytes at least, so the length of the buffer is enough fuel.
  unfoldable pub parse_pkt_section_prefix : List ℕ → ParsedPktSection
  parse_pkt_section_prefix buf = prefix_loop (length buf) buf 0

  -- The loop of `readPktSectionStream`: what is buffered, and the chunks to come.
  unfoldable pub read_loop : List ℕ → List (List ℕ) → SectionRead
  read_loop buffered [] = elim (parse_pkt_section_prefix buffered) [
    | parsed lines offset ↦ section lines offset (pack_stream (drop offset buffered) [])
    | invalid r ↦ refused r
    | incomplete ↦ ended
  ]
  read_loop buffered (c ∷ cs) = elim (parse_pkt_section_prefix buffered) [
    | parsed lines offset ↦ section lines offset (pack_stream (drop offset buffered) (c ∷ cs))
    | invalid r ↦ refused r
    | incomplete ↦ elim (ltb max_command_section_bytes (length (buffered ++ c))) [
      | true ↦ too_large
      | false ↦ read_loop (buffered ++ c) cs
    ]
  ]

  unfoldable pub read_pkt_section_stream : List (List ℕ) → SectionRead
  read_pkt_section_stream chunks = read_loop [] chunks

-- `line.indexOf("\0")`: what stands before the first NUL, and what stands behind it.
unfoldable pub before_nul : List ℕ → List ℕ
before_nul [] = []
before_nul (c ∷ s) = if c == 0 then [] else c ∷ before_nul s

unfoldable pub after_nul : List ℕ → Option (List ℕ)
after_nul [] = none
after_nul (c ∷ s) = if c == 0 then some s else after_nul s

-- `s.trim()`
unfoldable pub trim_end : List ℕ → List ℕ
unfolding is_space
trim_end [] = []
trim_end (c ∷ s) = let rest = trim_end s in if is_nil rest && is_space c then [] else c ∷ rest

unfoldable pub trim : List ℕ → List ℕ
unfolding skip_spaces trim_end
trim s = trim_end (skip_spaces s)

-- `s.split(/\s+/)`; the flag says that a separator has begun.
unfoldable pub split_spaces : Bool → List ℕ → List (List ℕ)
unfolding is_space push_code
split_spaces begun [] = [] ∷ []
split_spaces begun (c ∷ s) =
    let rest = split_spaces (is_space c) s in
    if is_space c then (if begun then rest else [] ∷ rest) else push_code c rest

-- `parts.join(" ")`
unfoldable pub join_spaces : List (List ℕ) → List ℕ
join_spaces [] = []
join_spaces (w ∷ []) = w
join_spaces (w ∷ v ∷ ws) = w ++ (b' ' ∷ join_spaces (v ∷ ws))

pub record ReceiveNegotiatedCapabilities : Type 0 where
  pub report_status : Bool
  pub side_band64k : Bool
  pub quiet : Bool
  pub atomic : Bool
  pub ofs_delta : Bool
  pub agent : Option (List ℕ)

-- The old object, the new object and the name of a ref.
pub record RequestCommand : Type 0 where
  pub old_oid : List ℕ
  pub new_oid : List ℕ
  pub ref : List ℕ

pub record ParsedReceiveRequest : Type 0 where
  pub commands : List RequestCommand
  pub capabilities : ReceiveNegotiatedCapabilities

-- `capabilityText.length > 0 ? capabilityText.split(/\s+/) : []`
unfoldable pub capability_tokens : List ℕ → List (List ℕ)
unfolding split_spaces
capability_tokens text = if is_nil text then [] else split_spaces false text

-- `firstLine.slice(nulIndex + 1).trim()`
unfoldable pub capability_text : Option (List ℕ) → List ℕ
unfolding trim
capability_text none = []
capability_text (some s) = trim s

unfoldable pub has_token : List ℕ → List (List ℕ) → Bool
unfolding codes_eq
has_token name tokens = any (codes_eq name) tokens

unfoldable pub capabilities_of : List (List ℕ) → ReceiveNegotiatedCapabilities
unfolding has_token starts_with
capabilities_of tokens = record {
  report_status = has_token (codes "report-status") tokens;
  side_band64k = has_token (codes "side-band-64k") tokens;
  quiet = has_token (codes "quiet") tokens;
  atomic = has_token (codes "atomic") tokens;
  ofs_delta = has_token (codes "ofs-delta") tokens;
  agent = find (starts_with (codes "agent=")) tokens;
}

unfoldable pub parse_capabilities : List ℕ → ReceiveNegotiatedCapabilities
unfolding after_nul capability_text capability_tokens capabilities_of
parse_capabilities first_line =
    capabilities_of (capability_tokens (capability_text (after_nul first_line)))

-- `if (parts.length < 3) continue;`
unfoldable pub add_command : List (List ℕ) → List RequestCommand → List RequestCommand
unfolding join_spaces
add_command [] commands = commands
add_command (a ∷ []) commands = commands
add_command (a ∷ b ∷ []) commands = commands
add_command (a ∷ b ∷ r ∷ rs) commands =
    record { old_oid = a; new_oid = b; ref = join_spaces (r ∷ rs) } ∷ commands

-- The lines behind the first one.
unfoldable pub parse_commands : List (List ℕ) → List RequestCommand
unfolding add_command split_spaces trim
parse_commands [] = []
parse_commands (l ∷ ls) = add_command (split_spaces false (trim l)) (parse_commands ls)

-- The first line is cut at its NUL.
unfoldable pub cut_first : List (List ℕ) → List (List ℕ)
unfolding before_nul
cut_first [] = []
cut_first (l ∷ ls) = before_nul l ∷ ls

-- `lines[0] || ""`
unfoldable pub first_line : List (List ℕ) → List ℕ
first_line [] = []
first_line (l ∷ ls) = l

unfoldable pub parse_receive_request : List (List ℕ) → ParsedReceiveRequest
unfolding parse_commands cut_first parse_capabilities first_line
parse_receive_request lines = record {
  commands = parse_commands (cut_first lines);
  capabilities = parse_capabilities (first_line lines);
}
