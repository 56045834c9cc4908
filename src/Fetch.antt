-- ===== src/Fetch.antt =====
-- The request of a fetch and its negotiation: parseV2Command of src/worker/git/core/protocol.ts,
-- parseFetchArgs of src/worker/git/operations/args.ts, operations/fetch/protocol.ts, and the part of
-- handleFetchV2Streaming (operations/uploadStream/index.ts) before a pack is planned. The texts that
-- are sent are ASCII, so their codes are their bytes.
pub mod Lines
pub mod Request
pub mod Parsed
pub mod Common
pub mod Answer
pub mod Advert
mod Tests
use gitedge.Shared.{
  ℕ, Bool, true, false, ◌&&◌, ◌||◌, List, [], ◌∷◌, ◌++◌, leb, ◌==◌, if◌then◌else◌, length, take,
  drop, is_nil,
}
use gitedge.Shared.Text.{codes, codes_eq, starts_with}
use gitedge.PktLine.{
  PktItem, line, flush, delim, response_end, pkt_line, flush_pkt, delim_pkt, chomp, concat_chunks,
  decode_pkt_lines,
}
use gitedge.Push.{trim_end}
use gitedge.Closure.{Oid, has, find_common_haves}

pub record FetchArgs : Type 0 where
  pub wants : List Oid
  pub haves : List Oid
  pub done : Bool

-- `wantSet.add(oid)`; a `Set` is the list of its members in the order of their insertion.
unfoldable pub insert_want : Oid → List Oid → List Oid
unfolding has
insert_want oid wants = if has oid wants then wants else wants ++ (oid ∷ [])

unfoldable pub text_step : FetchArgs → List ℕ → FetchArgs
unfolding starts_with codes_eq insert_want
text_step a text =
    if starts_with (codes "want ") text
    then if leb 40 (length (drop 5 text))
      then record a { wants = insert_want (take 40 (drop 5 text)) a.wants }
      else a
    else if starts_with (codes "have ") text
    then if leb 40 (length (drop 5 text))
      then record a { haves = a.haves ++ (take 40 (drop 5 text) ∷ []) }
      else a
    else if codes_eq text (codes "done")
    then record a { done = true }
    else a

unfoldable pub item_step : FetchArgs → PktItem → FetchArgs
unfolding text_step trim_end
item_step a (line text raw) = if is_nil text then a else text_step a (trim_end text)
item_step a flush = a
item_step a delim = a
item_step a response_end = a

unfoldable pub args_loop : FetchArgs → List PktItem → FetchArgs
unfolding item_step
args_loop a [] = a
args_loop a (item ∷ items) = args_loop (item_step a item) items

abbrev pub no_args : FetchArgs
no_args = record { wants = []; haves = []; done = false }

unfoldable pub parse_fetch_args : (List ℕ → List ℕ) → List ℕ → FetchArgs
unfolding args_loop
parse_fetch_args decode body = args_loop no_args (decode_pkt_lines decode body)

pub record V2Command : Type 0 where
  pub command : List ℕ
  pub args : List (List ℕ)

unfoldable pub command_text : List ℕ → List ℕ → List ℕ
unfolding starts_with
command_text command text = if starts_with (codes "command=") text then drop 8 text else command

-- The loop over the items; the flag is `beforeDelim`.
unfoldable pub v2_loop : Bool → V2Command → List PktItem → V2Command
unfolding command_text chomp
v2_loop before_delim c [] = c
v2_loop before_delim c (delim ∷ items) = v2_loop false c items
v2_loop before_delim c (flush ∷ items) = v2_loop before_delim c items
v2_loop before_delim c (response_end ∷ items) = v2_loop before_delim c items
v2_loop true c (line text raw ∷ items) =
    v2_loop true (record c { command = command_text c.command (chomp text) }) items
v2_loop false c (line text raw ∷ items) =
    v2_loop false (record c { args = c.args ++ (chomp text ∷ []) }) items

-- `[a-z-]+` at the head of a text.
unfoldable pub command_letters : List ℕ → List ℕ
command_letters [] = []
command_letters (c ∷ s) =
    let rest = command_letters s in if (leb b'a' c && leb c b'z') || c == b'-' then c ∷ rest else []

-- `text.match(/command=([a-z-]+)/)`
unfoldable pub match_command : List ℕ → List ℕ
unfolding starts_with command_letters
match_command [] = []
match_command (c ∷ s) =
    let rest = match_command s in
    let found = command_letters (drop 8 (c ∷ s)) in
    if starts_with (codes "command=") (c ∷ s) then (if is_nil found then rest else found) else rest

unfoldable pub parse_v2_command : (List ℕ → List ℕ) → List ℕ → V2Command
unfolding v2_loop match_command
parse_v2_command decode body =
    let c = v2_loop true (record { command = []; args = [] }) (decode_pkt_lines decode body) in
    if is_nil c.command then record c { command = match_command (decode body) } else c

abbrev pub ack_text : Oid → List ℕ → List ℕ
ack_text oid suffix = codes "ACK " ++ (oid ++ (b' ' ∷ (suffix ++ (10 ∷ []))))

-- The loop over `ackOids`; the last one is ready.
unfoldable pub ack_lines : List Oid → List (List ℕ)
ack_lines [] = []
ack_lines (oid ∷ []) = pkt_line (ack_text oid (codes "ready")) ∷ []
ack_lines (oid ∷ next ∷ oids) = pkt_line (ack_text oid (codes "common")) ∷ ack_lines (next ∷ oids)

unfoldable pub ack_or_nak : List Oid → List (List ℕ)
unfolding ack_lines
ack_or_nak [] = pkt_line (codes "NAK\n") ∷ []
ack_or_nak (oid ∷ oids) = ack_lines (oid ∷ oids)

unfoldable pub build_ack_section : List Oid → Bool → List (List ℕ)
unfolding ack_or_nak
build_ack_section acks done =
    (if done
      then []
      else pkt_line (codes "acknowledgments\n") ∷ (ack_or_nak acks ++ (delim_pkt ∷ [])))
    ++ (pkt_line (codes "packfile\n") ∷ [])

-- The body of `buildAckOnlyResponse`.
unfoldable pub build_ack_only_response : List Oid → List ℕ
unfolding ack_or_nak concat_chunks
build_ack_only_response acks =
    concat_chunks (pkt_line (codes "acknowledgments\n") ∷ (ack_or_nak acks ++ (flush_pkt ∷ [])))

-- What `handleFetchV2Streaming` does first: it answers, or it goes on to plan a pack.
pub data Negotiation : Type 0 where
  answered : List ℕ → Negotiation
  plan_pack : List Oid → List Oid → Negotiation

unfoldable pub negotiate : (List Oid → List Bool) → FetchArgs → Negotiation
unfolding build_ack_only_response find_common_haves
negotiate has_objects a =
    if is_nil a.wants
    then answered (build_ack_only_response [])
    else if a.done
    then plan_pack a.wants a.haves
    else answered (
        build_ack_only_response
          (if is_nil a.haves then [] else find_common_haves has_objects a.haves))

unfoldable pub handle_fetch_v2_streaming :
    (List ℕ → List ℕ) → (List Oid → List Bool) → List ℕ → Negotiation
unfolding negotiate parse_fetch_args
handle_fetch_v2_streaming decode has_objects body =
    negotiate has_objects (parse_fetch_args decode body)
