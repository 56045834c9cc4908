-- ===== src/Sideband.antt =====
-- src/worker/git/operations/fetch/sideband.ts: a pack and its progress messages in one stream.
-- A step of `SidebandProgressMux` takes the answers of `Date.now()` and returns what it emits.
pub mod Chunks
pub mod Progress
mod Tests
use gitedge.Shared.{
  ℕ, zero, suc, ◌+◌, ◌-◌, ◌≤◌, String, Bool, true, false, List, [], ◌∷◌, ◌++◌, map, ltb, leb, ◌&&◌,
  not, if◌then◌else◌, is_nil, length, take, drop,
}
use gitedge.PktLine.{pkt_line}

abbrev pub sideband_payload_max_bytes : ℕ
sideband_payload_max_bytes = 65515

-- The slices of `for (let off = 0; off < payload.byteLength; off += maxChunk)`.
unfoldable pub slices : ℕ → ℕ → List ℕ → List (List ℕ)
slices zero max_chunk payload = []
slices (suc f) max_chunk [] = []
slices (suc f) max_chunk (b ∷ bytes) =
    take max_chunk (b ∷ bytes) ∷ slices f max_chunk (drop max_chunk (b ∷ bytes))

-- A slice has a byte at least, and an empty payload has one empty slice.
unfoldable pub slices_of : ℕ → List ℕ → List (List ℕ)
slices_of max_chunk payload =
    if is_nil payload then [] ∷ [] else slices (length payload) max_chunk payload

unfoldable pub create_sideband_packet_chunks : ℕ → List ℕ → ℕ → List (List ℕ)
create_sideband_packet_chunks band payload max_chunk =
    map (λ slice. pkt_line (band ∷ slice)) (slices_of max_chunk payload)

-- `SidebandProgressMux`, without the promise for the first message.
pub record SidebandProgressMux : Type 0 where
  pub progress_messages : List String
  pub progress_idx : ℕ
  pub last_progress_time : ℕ
  pub in_progress : Bool
  pub interval_ms : ℕ

unfoldable pub new_mux : ℕ → SidebandProgressMux
new_mux interval = record {
  progress_messages = [];
  progress_idx = 0;
  last_progress_time = 0;
  in_progress = false;
  interval_ms = interval;
}

unfoldable pub push : String → SidebandProgressMux → SidebandProgressMux
push msg mux = record mux { progress_messages = mux.progress_messages ++ (msg ∷ []) }

unfoldable pub should_send_progress : ℕ → SidebandProgressMux → Bool
should_send_progress now mux =
    leb (mux.last_progress_time + mux.interval_ms) now
    && not mux.in_progress
    && ltb mux.progress_idx (length mux.progress_messages)

-- `while (this.progressIdx < this.progressMessages.length)`: what it emits.
unfoldable pub pending : SidebandProgressMux → List String
pending mux = drop mux.progress_idx mux.progress_messages

abbrev pub all_sent : SidebandProgressMux → SidebandProgressMux
all_sent mux = record mux {
  progress_idx =
      if ltb mux.progress_idx (length mux.progress_messages)
      then length mux.progress_messages
      else mux.progress_idx;
}

unfoldable pub send_pending : ℕ → ℕ → SidebandProgressMux → SidebandProgressMux × List String
send_pending now after mux =
    if should_send_progress now mux
    then (record (all_sent mux) { last_progress_time = after; in_progress = false }, pending mux)
    else (mux, [])

unfoldable pub send_remaining : SidebandProgressMux → SidebandProgressMux × List String
send_remaining mux = (all_sent mux, pending mux)
