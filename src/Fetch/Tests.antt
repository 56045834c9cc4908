-- ===== src/Fetch/Tests.antt =====
-- A clone and an update.
use gitedge.Shared.{
  ℕ, ◌≡◌, ◌↔◌, refl, true, false, Bool, List, [], ◌∷◌, ◌++◌, map, not, ◌==◌, ◌&&◌, ltb, every,
  &&-eq-true, length, replicate, take, is_nil, All, arith,
}
use gitedge.Shared.Text.{codes}
use gitedge.PktLine.{is_space, decode_pkt_lines}
use gitedge.Closure.{Oid, has, lower}
use gitedge.Fetch.{
  parse_fetch_args, parse_v2_command, handle_fetch_v2_streaming, answered, match_command,
}
use gitedge.Repo.State.{Ref}
use gitedge.Fetch.Advert.{
  receive_advertisement, advertised, ref_texts, read_oid, read_name, IsWordText, IsRefLine,
}
use gitedge.Fetch.Advert.Read.{advertisement-read}
use gitedge.Fetch.Lines.{IsPlain}
use gitedge.Fetch.Request.{
  Arg, want_arg, have_arg, arg_text, IsOid, IsArg, IsCapability, request_body, wants_after,
  haves_of, is_done,
}
use gitedge.Fetch.Parsed.{parse-request}
use gitedge.Fetch.Common.{IsCommon}
use gitedge.Fetch.Answer.{answer_items, acks_of, handle-answers}

abbrev decode : List ℕ → List ℕ
decode s = s

plain : (w : List ℕ) → every (λ c. not (is_space c) && ltb c 128) w ≡ true → IsPlain w
plain [] h = tt
plain (c ∷ w) h =
    let (one, rest) = &&-eq-true (not (is_space c) && ltb c 128) _ h in
    ((ground (arith, one), ground (arith, one)), plain w rest)

abbrev first : Oid
first = replicate 40 b'A'

abbrev second : Oid
second = replicate 40 b'2'

abbrev agent : List ℕ
agent = codes "agent=git/2.40"

abbrev update : List Arg
update = want_arg second ∷ have_arg first ∷ want_arg second ∷ have_arg second ∷ []

-- The store has the first object.
abbrev store : List Oid → List Bool
store oids = true ∷ false ∷ []

first-IsOid : IsOid first
unfolding is_space
first-IsOid = (refl, plain first refl)

second-IsOid : IsOid second
unfolding is_space
second-IsOid = (refl, plain second refl)

agent-IsCapability : IsCapability agent
unfolding is_space gitedge.Shared.Text.starts_with gitedge.Shared.Text.codes_eq
agent-IsCapability = (plain agent refl, refl, refl, omega arith)

fetch-IsPlain : IsPlain (codes "fetch")
unfolding is_space
fetch-IsPlain = plain (codes "fetch") refl

update-IsArg : All IsArg update
update-IsArg = (second-IsOid, (first-IsOid, (second-IsOid, (second-IsOid, tt))))

parse-request_example :
    (parse_v2_command decode (request_body (codes "fetch") (agent ∷ []) update)
      ≡ record { command = codes "fetch"; args = map arg_text update })
    × (parse_fetch_args decode (request_body (codes "fetch") (agent ∷ []) update)
        ≡ record { wants = wants_after [] update; haves = haves_of update; done = is_done update })
parse-request_example =
    parse-request decode (codes "fetch") (agent ∷ []) update (λ s h. refl) fetch-IsPlain refl
      (omega arith) (agent-IsCapability, tt) update-IsArg

update-wants : is_nil (wants_after [] update) ≡ false
unfolding wants_after has gitedge.Shared.Text.codes_eq
update-wants = refl

handle-answers_example :
    (bytes : List ℕ) × (handle_fetch_v2_streaming decode store
        (request_body (codes "fetch") (agent ∷ []) update)
      ≡ answered bytes)
    × (decode_pkt_lines decode bytes ≡ answer_items (acks_of store (haves_of update)))
    × ((has (lower first) (acks_of store (haves_of update)) ≡ true)
        ↔ IsCommon (take 128 (haves_of update)) (store (take 128 (haves_of update))) (lower first))
handle-answers_example =
    handle-answers decode store (codes "fetch") (agent ∷ []) update (lower first) (λ s h. refl)
      fetch-IsPlain refl (omega arith) (agent-IsCapability, tt) update-IsArg update-wants refl

-- A want that is repeated is listed once.
wanted_once : wants_after [] update ≡ second ∷ []
unfolding wants_after has gitedge.Shared.Text.codes_eq
wanted_once = refl

acks_small : acks_of store (haves_of update) ≡ replicate 40 b'a' ∷ []
unfolding gitedge.Closure.find_common_haves gitedge.Closure.common_loop
acks_small = refl

loose_command : match_command (codes "xcommand=ls-refs;") ≡ codes "ls-refs"
unfolding match_command
loose_command = refl

abbrev main_ref : Ref
main_ref = record { name = "refs/heads/main"; oid = "2222" }

abbrev two_refs : List Ref
two_refs = main_ref ∷ record { name = "refs/tags/v1"; oid = "3333" } ∷ []

word :
    (w : List ℕ)
    → every (λ c. ltb c 128 && (not (c == b' ') && (not (c == 0) && not (c == 10)))) w ≡ true
    → IsWordText w
word [] h = tt
word (c ∷ w) h =
    let (one, rest) =
      &&-eq-true (ltb c 128 && (not (c == b' ') && (not (c == 0) && not (c == 10)))) _ h in
    (
      (ground (arith, one), ground (arith, one), ground (arith, one), ground (arith, one)),
      word w rest,
    )

two_refs-IsRefLine : All IsRefLine two_refs
two_refs-IsRefLine = (
  (word (codes "2222") refl, word (codes "refs/heads/main") refl, omega arith, omega arith),
  ((word (codes "3333") refl, word (codes "refs/tags/v1") refl, omega arith, omega arith), tt),
)

advertisement-read_example :
    (decode_pkt_lines decode (receive_advertisement two_refs) ≡ advertised (ref_texts two_refs))
    × (map read_oid (ref_texts two_refs) ≡ map (λ (r : Ref). codes r.oid) two_refs)
    × (map read_name (ref_texts two_refs) ≡ map (λ (r : Ref). codes r.name) two_refs)
advertisement-read_example =
    advertisement-read decode two_refs (λ s h. refl) refl two_refs-IsRefLine

-- An empty repository has one line, with the name that stands for the capabilities.
no_refs : map read_name (ref_texts []) ≡ codes "capabilities^{}" ∷ []
unfolding ref_texts gitedge.Objects.until gitedge.Objects.from
no_refs = refl
