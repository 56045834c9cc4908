-- ===== src/Sideband/Tests.antt =====
-- Five bytes in chunks of two, and messages around two sends.
use gitedge.Shared.{
  ℕ, ◌≤◌, ◌≡◌, refl, List, [], ◌∷◌, ◌++◌, map, length, ltb, if◌then◌else◌, All, arith,
}
use gitedge.PktLine.{line, concat_chunks, decode_pkt_lines}
use gitedge.PktLine.RoundTrip.{IsAsciiDecoder}
use gitedge.Sideband.{
  create_sideband_packet_chunks, new_mux, pending, push, send_pending, send_remaining,
  should_send_progress, slices_of,
}
use gitedge.Sideband.Chunks.{decode-create}
use gitedge.Sideband.Progress.{
  Event, pushes, sends_pending, sends_remaining, pushed, emitted, after, react, emitted-pending,
}

abbrev replacing : List ℕ → List ℕ
replacing [] = []
replacing (c ∷ cs) = (if ltb c 128 then c else 0xfffd) ∷ replacing cs

replacing_ascii : IsAsciiDecoder replacing
replacing_ascii [] h = refl
replacing_ascii (c ∷ cs) (small, h) = ground (arith, replacing_ascii cs h)

abbrev payload : List ℕ
payload = 80 ∷ 65 ∷ 67 ∷ 75 ∷ 0 ∷ []

decode-create_example :
    (decode_pkt_lines replacing (concat_chunks (create_sideband_packet_chunks 1 payload 2))
      ≡ map (λ s. line (replacing (1 ∷ s)) (1 ∷ s)) (slices_of 2 payload))
    × All (λ s. length s ≤ 2) (slices_of 2 payload)
    × (concat_chunks (slices_of 2 payload) ≡ payload)
decode-create_example =
    decode-create replacing 1 payload 2 replacing_ascii (omega arith) (omega arith)

abbrev events : List Event
events =
    pushes "one"
    ∷ sends_pending 200 201
    ∷ pushes "two"
    ∷ sends_pending 250 251
    ∷ pushes "three"
    ∷ sends_remaining
    ∷ pushes "four"
    ∷ []

emitted-pending_example :
    emitted events (new_mux 100) ++ pending (after events (new_mux 100)) ≡ pushed events
emitted-pending_example = emitted-pending 100 events

-- The second send comes too soon, so its message waits.
three_messages : emitted events (new_mux 100) ≡ "one" ∷ "two" ∷ "three" ∷ []
unfolding emitted react new_mux push send_pending send_remaining should_send_progress pending
three_messages = refl
