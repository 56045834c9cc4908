-- ===== src/Fetch/Advert/Read.antt =====
-- What a client reads in the advertisement for a push.
use gitedge.Shared.{
  ℕ, ◌+◌, ◌<◌, ◌≡◌, ◌≢◌, refl, sym, ap, ◌∙◌, true, false, List, [], ◌∷◌, ◌++◌, map, is_nil, All,
  All-append, All-map, length, length-append, drop, ltb, every, &&-eq-true, arith,
}
use gitedge.Shared.Text.{codes}
use gitedge.PktLine.{flush, pkt_line, flush_pkt, concat_chunks, decode_pkt_lines}
use gitedge.PktLine.RoundTrip.{IsAsciiDecoder, encode_item, IsFrame, decode-encode}
use gitedge.Objects.{until}
use gitedge.Objects.Raw.{until-append, from-append}
use gitedge.Repo.State.{Ref}
use gitedge.Fetch.Advert.{
  capabilities, first_text, ref_text, ref_texts, receive_advertisement, read_oid, read_name,
  IsWordText, IsRefLine, text_item, advertised,
}

until-none : (c : ℕ) (w : List ℕ) → All (λ x. x ≢ c) w → until c w ≡ w
unfolding until
until-none c [] h = refl
until-none c (x ∷ w) (n, h) = ground (arith, until-none c w h)

no_space : (w : List ℕ) → IsWordText w → All (λ c. c ≢ b' ') w
no_space w = All-map _ (λ c. c ≢ b' ') (λ c p. p.1) w

no_nul : (w : List ℕ) → IsWordText w → All (λ c. c ≢ 0) w
no_nul w = All-map _ (λ c. c ≢ 0) (λ c p. p.2) w

no_feed : (w : List ℕ) → IsWordText w → All (λ c. c ≢ 10) w
no_feed w = All-map _ (λ c. c ≢ 10) (λ c p. p.3) w

first-read :
    (oid name : List ℕ)
    → IsWordText oid
    → IsWordText name
    → (read_oid (first_text oid name) ≡ oid) × (read_name (first_text oid name) ≡ name)
first-read oid name ho hn =
    let rest = name ++ (0 ∷ (capabilities ++ (10 ∷ []))) in
    let at_space = from-append b' ' oid rest (no_space oid ho) in
    let at_nul = until-append 0 name (capabilities ++ (10 ∷ [])) (no_nul name hn) in
    (
      until-append b' ' oid rest (no_space oid ho),
      ap (λ t. until 10 (until 0 (drop 1 t))) at_space
          ∙ ap (until 10) at_nul
          ∙ until-none 10 name (no_feed name hn),
    )

other-read :
    (r : Ref)
    → IsRefLine r
    → (read_oid (ref_text r) ≡ codes r.oid) × (read_name (ref_text r) ≡ codes r.name)
other-read r (ho, hn, _, _) =
    let rest = codes r.name ++ (10 ∷ []) in
    let at_space = from-append b' ' (codes r.oid) rest (no_space (codes r.oid) ho) in
    let whole = until-none 0 rest (
      All-append (λ c. c ≢ 0) (codes r.name) (10 ∷ []) (no_nul (codes r.name) hn)
        (ground arith, tt)) in
    (
      until-append b' ' (codes r.oid) rest (no_space (codes r.oid) ho),
      ap (λ t. until 10 (until 0 (drop 1 t))) at_space
          ∙ ap (until 10) whole
          ∙ until-append 10 (codes r.name) [] (no_feed (codes r.name) hn),
    )

others-read :
    (refs : List Ref)
    → All IsRefLine refs
    → (map read_oid (map ref_text refs) ≡ map (λ (r : Ref). codes r.oid) refs)
      × (map read_name (map ref_text refs) ≡ map (λ (r : Ref). codes r.name) refs)
others-read [] h = (refl, refl)
others-read (r ∷ refs) (h, hs) =
    let (o, n) = other-read r h in
    let (os, ns) = others-read refs hs in (rw (o, os) refl, rw (n, ns) refl)

texts-items :
    (texts : List (List ℕ))
    → map pkt_line texts ++ (flush_pkt ∷ []) ≡ map encode_item (map text_item texts ++ (flush ∷ []))
unfolding encode_item
texts-items [] = refl
texts-items (t ∷ texts) = ap (◌∷◌ (pkt_line t)) (texts-items texts)

advertisement-items :
    (refs : List Ref)
    → receive_advertisement refs ≡ concat_chunks (map encode_item (advertised (ref_texts refs)))
unfolding encode_item receive_advertisement
advertisement-items refs =
    ap (λ l. concat_chunks (pkt_line (codes "# service=git-receive-pack\n") ∷ flush_pkt ∷ l))
      (texts-items (ref_texts refs))

abbrev IsLine : List ℕ → Type 0
IsLine t = All (λ c. c < 128) t × (length t + 4 < 65536)

small : (w : List ℕ) → IsWordText w → All (λ c. c < 128) w
small w = All-map _ (λ c. c < 128) (λ c p. p.0) w

ascii_codes : (w : List ℕ) → every (λ c. ltb c 128) w ≡ true → All (λ c. c < 128) w
ascii_codes [] h = tt
ascii_codes (c ∷ w) h =
    let (one, rest) = &&-eq-true (ltb c 128) _ h in (ground (arith, one), ascii_codes w rest)

ref-IsLine : (r : Ref) → IsRefLine r → IsLine (ref_text r)
ref-IsLine r (ho, hn, so, sn) = (
  All-append (λ c. c < 128) (codes r.oid) (b' ' ∷ (codes r.name ++ (10 ∷ []))) (small _ ho)
      (
        omega arith,
        All-append (λ c. c < 128) (codes r.name) (10 ∷ []) (small _ hn) (omega arith, tt),
      ),
  omega (
    arith,
    so,
    sn,
    length-append (codes r.oid) (b' ' ∷ (codes r.name ++ (10 ∷ []))),
    length-append (codes r.name) (10 ∷ []),
  ),
)

first-IsLine : (r : Ref) → IsRefLine r → IsLine (first_text (codes r.oid) (codes r.name))
first-IsLine r (ho, hn, so, sn) = (
  All-append (λ c. c < 128) (codes r.oid)
      (b' ' ∷ (codes r.name ++ (0 ∷ (capabilities ++ (10 ∷ []))))) (small _ ho)
      (
        omega arith,
        All-append (λ c. c < 128) (codes r.name) (0 ∷ (capabilities ++ (10 ∷ []))) (small _ hn)
            (ascii_codes (0 ∷ (capabilities ++ (10 ∷ []))) refl),
      ),
  omega (
    arith,
    so,
    sn,
    length-append (codes r.oid) (b' ' ∷ (codes r.name ++ (0 ∷ (capabilities ++ (10 ∷ []))))),
    length-append (codes r.name) (0 ∷ (capabilities ++ (10 ∷ []))),
  ),
)

others-IsLine : (refs : List Ref) → All IsRefLine refs → All IsLine (map ref_text refs)
others-IsLine [] h = tt
others-IsLine (r ∷ refs) (h, hs) = (ref-IsLine r h, others-IsLine refs hs)

module _ (decode : List ℕ → List ℕ) (ascii : IsAsciiDecoder decode) where
  line-IsFrame : (t : List ℕ) → IsLine t → IsFrame decode ascii (text_item t)
  line-IsFrame t (h, short) = (sym (ascii t h), short)

  lines-frames :
      (texts : List (List ℕ))
      → All IsLine texts
      → All (IsFrame decode ascii) (map text_item texts ++ (flush ∷ []))
  lines-frames [] h = (tt, tt)
  lines-frames (t ∷ texts) (h, hs) = (line-IsFrame t h, lines-frames texts hs)

  advertised-frames :
      (texts : List (List ℕ)) → All IsLine texts → All (IsFrame decode ascii) (advertised texts)
  advertised-frames texts h = (
    line-IsFrame (codes "# service=git-receive-pack\n")
        (ascii_codes (codes "# service=git-receive-pack\n") refl, omega arith),
    (tt, lines-frames texts h),
  )

-- If texts of ASCII bytes decode to themselves, there is a ref, and the refs are words that fit in a
-- line, then the advertisement for a push decodes to the line about the service, a flush, a line for
-- each ref, and a flush, and from these lines a client reads the objects and the names of exactly the
-- refs, in their order.
pub advertisement-read :
    (decode : List ℕ → List ℕ) (refs : List Ref)
    → IsAsciiDecoder decode
    → is_nil refs ≡ false
    → All IsRefLine refs
    → (decode_pkt_lines decode (receive_advertisement refs) ≡ advertised (ref_texts refs))
      × (map read_oid (ref_texts refs) ≡ map (λ (r : Ref). codes r.oid) refs)
      × (map read_name (ref_texts refs) ≡ map (λ (r : Ref). codes r.name) refs)
advertisement-read decode [] ascii n h = absurd (ground (arith, n))
advertisement-read decode (r ∷ refs) ascii n (h, hs) =
    let (o, m) = first-read (codes r.oid) (codes r.name) h.0 h.1 in
    let (os, ms) = others-read refs hs in
    let frames =
      advertised-frames decode ascii (ref_texts (r ∷ refs))
        (unfold ref_texts in (first-IsLine r h, others-IsLine refs hs)) in
    (
      ap (decode_pkt_lines decode) (advertisement-items (r ∷ refs))
          ∙ decode-encode decode ascii (advertised (ref_texts (r ∷ refs))) frames,
      unfold ref_texts in rw (o, os) refl,
      unfold ref_texts in rw (m, ms) refl,
    )
