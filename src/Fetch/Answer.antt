-- ===== src/Fetch/Answer.antt =====
-- The negotiation: what a client reads in the answer to a request without `done`.
use gitedge.Shared.{
  ℕ, ◌+◌, ◌<◌, ◌≡◌, ◌↔◌, refl, sym, ap, ◌∙◌, true, false, Bool, List, [], ◌∷◌, ◌++◌, is_nil, map,
  All, All-append, All-map, All-take, length, length-append, take, every, ltb, &&-eq-true,
  if◌then◌else◌, arith,
}
use gitedge.Shared.Text.{codes}
use gitedge.PktLine.{
  PktItem, line, flush, flush_pkt, is_space, concat_chunks, pkt_line, decode_pkt_lines,
}
use gitedge.PktLine.RoundTrip.{IsAsciiDecoder, encode_item, IsFrame, decode-encode}
use gitedge.Closure.{Oid, has, find_common_haves}
use gitedge.Fetch.{
  ack_text, ack_lines, ack_or_nak, build_ack_only_response, answered, negotiate,
  handle_fetch_v2_streaming,
}
use gitedge.Fetch.Lines.{IsPlain}
use gitedge.Fetch.Request.{
  Arg, want_arg, have_arg, done_arg, IsOid, IsArg, IsCapability, request_body, wants_after,
  haves_of, is_done,
}
use gitedge.Fetch.Parsed.{parse-request}
use gitedge.Fetch.Common.{IsCommon, common_loop_iff, common_loop-IsOid}

abbrev text_item : List ℕ → PktItem
text_item t = line t t

-- The lines about the common objects: all but the last are common, the last is ready.
abbrev pub ack_items : List Oid → List PktItem
ack_items [] = []
ack_items (oid ∷ []) = text_item (ack_text oid (codes "ready")) ∷ []
ack_items (oid ∷ next ∷ oids) = text_item (ack_text oid (codes "common")) ∷ ack_items (next ∷ oids)

abbrev pub answer_items : List Oid → List PktItem
answer_items acks =
    text_item (codes "acknowledgments\n")
    ∷ ((if is_nil acks then text_item (codes "NAK\n") ∷ [] else ack_items acks) ++ (flush ∷ []))

ack_lines-items :
    (acks : List Oid)
    → ack_lines acks ++ (flush_pkt ∷ []) ≡ map encode_item (ack_items acks ++ (flush ∷ []))
unfolding ack_lines encode_item
ack_lines-items [] = refl
ack_lines-items (oid ∷ []) = refl
ack_lines-items (oid ∷ next ∷ oids) =
    ap (◌∷◌ (pkt_line (ack_text oid (codes "common")))) (ack_lines-items (next ∷ oids))

response-items :
    (acks : List Oid)
    → build_ack_only_response acks ≡ concat_chunks (map encode_item (answer_items acks))
unfolding build_ack_only_response encode_item
response-items [] = unfold ack_or_nak in refl
response-items (oid ∷ oids) =
    ap (λ l. concat_chunks (pkt_line (codes "acknowledgments\n") ∷ l))
      (ack_lines-items (oid ∷ oids))

module _ (decode : List ℕ → List ℕ) (ascii : IsAsciiDecoder decode) where
  text-IsFrame :
      (t : List ℕ)
      → All (λ c. c < 128) t
      → length t + 4 < 65536
      → IsFrame decode ascii (text_item t)
  text-IsFrame t h small = (sym (ascii t h), small)

  ack-IsFrame :
      (oid suffix : List ℕ)
      → IsOid oid
      → All (λ c. c < 128) suffix
      → length suffix < 10
      → IsFrame decode ascii (text_item (ack_text oid suffix))
  ack-IsFrame oid suffix (long, h) hs small =
      let all =
        All-append (λ c. c < 128) (codes "ACK ") (oid ++ (b' ' ∷ (suffix ++ (10 ∷ []))))
          (omega arith, (omega arith, (omega arith, (omega arith, tt))))
          (All-append (λ c. c < 128) oid (b' ' ∷ (suffix ++ (10 ∷ [])))
            (All-map (λ c. (is_space c ≡ false) × (c < 128)) (λ c. c < 128) (λ c p. p.1) oid h)
            (omega arith, All-append (λ c. c < 128) suffix (10 ∷ []) hs (omega arith, tt))) in
      text-IsFrame (ack_text oid suffix) all (
        omega (
          arith,
          long,
          small,
          length-append oid (b' ' ∷ (suffix ++ (10 ∷ []))),
          length-append suffix (10 ∷ []),
        ))

  acks-frames :
      (acks : List Oid)
      → All IsOid acks
      → All (IsFrame decode ascii) (ack_items acks ++ (flush ∷ []))
  acks-frames [] h = (tt, tt)
  acks-frames (oid ∷ []) (h, _) = (
    ack-IsFrame oid (codes "ready") h
        (omega arith, (omega arith, (omega arith, (omega arith, (omega arith, tt))))) (omega arith),
    (tt, tt),
  )
  acks-frames (oid ∷ next ∷ oids) (h, hs) = (
    ack-IsFrame oid (codes "common") h
        (omega arith, (omega arith, (omega arith, (omega arith, (omega arith, (omega arith, tt))))))
        (omega arith),
    acks-frames (next ∷ oids) hs,
  )

  small_text : (t : List ℕ) → every (λ c. ltb c 128) t ≡ true → All (λ c. c < 128) t
  small_text [] h = tt
  small_text (c ∷ t) h =
      let (one, rest) = &&-eq-true (ltb c 128) _ h in (ground (arith, one), small_text t rest)

  answer-frames :
      (acks : List Oid) → All IsOid acks → All (IsFrame decode ascii) (answer_items acks)
  answer-frames [] h = (
    text-IsFrame (codes "acknowledgments\n") (small_text (codes "acknowledgments\n") refl)
        (omega arith),
    (text-IsFrame (codes "NAK\n") (small_text (codes "NAK\n") refl) (omega arith), (tt, tt)),
  )
  answer-frames (oid ∷ oids) h = (
    text-IsFrame (codes "acknowledgments\n") (small_text (codes "acknowledgments\n") refl)
        (omega arith),
    acks-frames (oid ∷ oids) h,
  )

  response-decodes :
      (acks : List Oid)
      → All IsOid acks
      → decode_pkt_lines decode (build_ack_only_response acks) ≡ answer_items acks
  response-decodes acks h =
      ap (decode_pkt_lines decode) (response-items acks)
      ∙ decode-encode decode ascii (answer_items acks) (answer-frames acks h)

-- What is acknowledged to a client with these haves.
abbrev pub acks_of : (List Oid → List Bool) → List Oid → List Oid
acks_of has_objects haves = if is_nil haves then [] else find_common_haves has_objects haves

haves_of-IsOid : (args : List Arg) → All IsArg args → All IsOid (haves_of args)
haves_of-IsOid [] h = tt
haves_of-IsOid (want_arg oid ∷ args) (h, hs) = haves_of-IsOid args hs
haves_of-IsOid (have_arg oid ∷ args) (h, hs) = (h, haves_of-IsOid args hs)
haves_of-IsOid (done_arg ∷ args) (h, hs) = haves_of-IsOid args hs

acks-IsOid :
    (has_objects : List Oid → List Bool) (haves : List Oid)
    → All IsOid haves
    → All IsOid (acks_of has_objects haves)
acks-IsOid has_objects [] h = tt
acks-IsOid has_objects (x ∷ haves) h =
    unfold find_common_haves in
    common_loop-IsOid (take 128 (x ∷ haves)) (has_objects (take 128 (x ∷ haves))) []
      (All-take IsOid 128 (x ∷ haves) h)

acks_iff :
    (has_objects : List Oid → List Bool) (haves : List Oid) (oid : Oid)
    → All IsOid haves
    → (has oid (acks_of has_objects haves) ≡ true)
      ↔ IsCommon (take 128 haves) (has_objects (take 128 haves)) oid
acks_iff has_objects [] oid h =
    unfold has in (λ e. absurd (ground (arith, e)), λ (i, l, _, _). absurd (omega (arith, l)))
acks_iff has_objects (x ∷ haves) oid h =
    unfold find_common_haves in
    common_loop_iff (take 128 (x ∷ haves)) (has_objects (take 128 (x ∷ haves))) oid
      (All-take IsOid 128 (x ∷ haves) h)

-- Take a request as a client sends it, in the format of Git, with at least one want and without
-- `done`. If texts of ASCII bytes decode to themselves, then it is answered, and the client reads the
-- acknowledgments in the answer: NAK if nothing is common, and otherwise a line for each acknowledged
-- name, the last of them ready. A name is acknowledged if and only if it is, in lower case, one of
-- the first 128 haves and the store has it.
pub handle-answers :
    (decode : List ℕ → List ℕ) (has_objects : List Oid → List Bool) (command : List ℕ)
    (caps : List (List ℕ)) (args : List Arg) (oid : Oid)
    → IsAsciiDecoder decode
    → IsPlain command
    → is_nil command ≡ false
    → length command < 65000
    → All IsCapability caps
    → All IsArg args
    → is_nil (wants_after [] args) ≡ false
    → is_done args ≡ false
    → (bytes : List ℕ) × (handle_fetch_v2_streaming decode has_objects
          (request_body command caps args)
        ≡ answered bytes)
      × (decode_pkt_lines decode bytes ≡ answer_items (acks_of has_objects (haves_of args)))
      × ((has oid (acks_of has_objects (haves_of args)) ≡ true)
          ↔ IsCommon (take 128 (haves_of args)) (has_objects (take 128 (haves_of args))) oid)
handle-answers decode has_objects command caps args oid ascii h n small hc ha wanted open_end =
    let (_, read) = parse-request decode command caps args ascii h n small hc ha in
    let haves = haves_of-IsOid args ha in
    let acks = acks_of has_objects (haves_of args) in
    (
      build_ack_only_response acks,
      unfold handle_fetch_v2_streaming negotiate in rw (read, wanted, open_end) refl,
      response-decodes decode ascii acks (acks-IsOid has_objects (haves_of args) haves),
      acks_iff has_objects (haves_of args) oid haves,
    )
