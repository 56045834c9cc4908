-- ===== src/Fetch/Advert.antt =====
-- capabilityAdvertisement of src/worker/git/core/protocol.ts: what a client learns before a fetch or a
-- push. The refs are those that the durable object lists, or none if the call failed.
pub mod Read
use gitedge.Shared.{
  ℕ, suc, ◌+◌, ◌<◌, ◌≡◌, ◌≢◌, refl, sym, ap, ◌∙◌, true, false, List, [], ◌∷◌, ◌++◌, map, is_nil,
  All, All-append, All-map, length, length-append, drop, replicate, ltb, every, &&-eq-true, arith,
}
use gitedge.Shared.Text.{codes}
use gitedge.PktLine.{PktItem, line, flush, pkt_line, flush_pkt, concat_chunks, decode_pkt_lines}
use gitedge.PktLine.RoundTrip.{IsAsciiDecoder, encode_item, IsFrame, decode-encode}
use gitedge.Push.{join_spaces}
use gitedge.Objects.{until, from, zero_oid}
use gitedge.Objects.Raw.{until-append, from-append}
use gitedge.Repo.State.{Ref}

unfoldable pub upload_advertisement : List ℕ
unfolding pkt_line concat_chunks
upload_advertisement = concat_chunks (
    pkt_line (codes "version 2\n")
    ∷ pkt_line (codes "agent=git-on-cloudflare/0.1\n")
    ∷ pkt_line (codes "ls-refs\n")
    ∷ pkt_line (codes "fetch\n")
    ∷ pkt_line (codes "side-band-64k\n")
    ∷ pkt_line (codes "ofs-delta\n")
    ∷ pkt_line (codes "object-format=sha1\n")
    ∷ flush_pkt
    ∷ [])

abbrev pub capabilities : List ℕ
capabilities =
    codes
      "report-status delete-refs side-band-64k quiet atomic ofs-delta agent=git-on-cloudflare/0.1"

abbrev pub first_text : List ℕ → List ℕ → List ℕ
first_text oid name = oid ++ (b' ' ∷ (name ++ (0 ∷ (capabilities ++ (10 ∷ [])))))

abbrev pub ref_text : Ref → List ℕ
ref_text r = codes r.oid ++ (b' ' ∷ (codes r.name ++ (10 ∷ [])))

-- The texts of the lines about refs: the first one has the capabilities.
unfoldable pub ref_texts : List Ref → List (List ℕ)
unfolding zero_oid
ref_texts [] = first_text zero_oid (codes "capabilities^{}") ∷ []
ref_texts (r ∷ refs) = first_text (codes r.oid) (codes r.name) ∷ map ref_text refs

unfoldable pub receive_advertisement : List Ref → List ℕ
unfolding ref_texts concat_chunks pkt_line
receive_advertisement refs = concat_chunks (
    pkt_line (codes "# service=git-receive-pack\n")
    ∷ flush_pkt
    ∷ (map pkt_line (ref_texts refs) ++ (flush_pkt ∷ [])))

-- How a client reads a line: the object up to the space, and the name up to a NUL or the end.
abbrev pub read_oid : List ℕ → List ℕ
read_oid text = until b' ' text

abbrev pub read_name : List ℕ → List ℕ
read_name text = until 10 (until 0 (drop 1 (from b' ' text)))

-- ASCII without a space, a NUL and a line feed.
abbrev pub IsWordText : List ℕ → Type 0
IsWordText w = All (λ c. (c < 128) × (c ≢ b' ') × (c ≢ 0) × (c ≢ 10)) w

abbrev pub IsRefLine : Ref → Type 0
IsRefLine r =
    IsWordText (codes r.oid)
    × IsWordText (codes r.name)
    × (length (codes r.oid) < 100)
    × (length (codes r.name) < 60000)

abbrev pub text_item : List ℕ → PktItem
text_item t = line t t

abbrev pub advertised : List (List ℕ) → List PktItem
advertised texts =
    text_item (codes "# service=git-receive-pack\n") ∷ flush ∷ (map text_item texts ++ (flush ∷ []))
