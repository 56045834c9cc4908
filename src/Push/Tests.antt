-- ===== src/Push/Tests.antt =====
-- A push of two refs, in one chunk and in many.
use gitedge.Shared.{
  ℕ, ◌≡◌, ◌≢◌, refl, true, false, List, [], ◌∷◌, ◌==◌, ◌&&◌, not, every, is_nil, All, &&-eq-true,
  arith,
}
use gitedge.Shared.Text.{codes}
use gitedge.PktLine.{is_space, concat_chunks}
use gitedge.Push.{
  RequestCommand, SectionRead, section, refused, unexpected_delimiter, read_pkt_section_stream,
  parse_receive_request, capabilities_of,
}
use gitedge.Push.Stream.{ReadMeans, read-ReadMeans}
use gitedge.Push.Request.{IsWord, IsWords, request_lines, parse-request_lines}

abbrev decode : List ℕ → List ℕ
decode s = s

abbrev main_command : RequestCommand
main_command = record { old_oid = codes "00"; new_oid = codes "ab"; ref = codes "refs/heads/main" }

abbrev drop_command : RequestCommand
drop_command = record { old_oid = codes "cd"; new_oid = codes "00"; ref = codes "refs/tags/v1" }

-- The characters of a word, checked by evaluation.
word_codes :
    (w : List ℕ)
    → every (λ c. not (is_space c) && not (c == 0)) w ≡ true
    → All (λ c. (is_space c ≡ false) × (c ≢ 0)) w
word_codes [] h = tt
word_codes (c ∷ w) h =
    let (one, rest) = &&-eq-true (not (is_space c) && not (c == 0)) _ h in
    ((ground (arith, one), ground (arith, one)), word_codes w rest)

word :
    (w : List ℕ)
    → is_nil w ≡ false
    → every (λ c. not (is_space c) && not (c == 0)) w ≡ true
    → IsWord w
word w n h = (n, word_codes w h)

main-IsWords : IsWords main_command
unfolding is_space
main-IsWords = (
  word (codes "00") refl refl,
  word (codes "ab") refl refl,
  word (codes "refs/heads/main") refl refl,
)

drop-IsWords : IsWords drop_command
unfolding is_space
drop-IsWords = (
  word (codes "cd") refl refl,
  word (codes "00") refl refl,
  word (codes "refs/tags/v1") refl refl,
)

tokens-IsWord : All IsWord (codes "atomic" ∷ codes "agent=git/2" ∷ [])
unfolding is_space
tokens-IsWord = (word (codes "atomic") refl refl, (word (codes "agent=git/2") refl refl, tt))

parse-request_lines_example :
    parse_receive_request
      (request_lines main_command (drop_command ∷ []) (codes "atomic" ∷ codes "agent=git/2" ∷ []))
    ≡ record {
      commands = main_command ∷ drop_command ∷ [];
      capabilities = capabilities_of (codes "atomic" ∷ codes "agent=git/2" ∷ []);
    }
parse-request_lines_example =
    parse-request_lines main_command (drop_command ∷ []) (codes "atomic" ∷ codes "agent=git/2" ∷ [])
      (main-IsWords, (drop-IsWords, tt)) tokens-IsWord

read-ReadMeans_example :
    ReadMeans decode
      (concat_chunks (codes "000" ∷ codes "5a0000PA" ∷ codes "CK" ∷ []))
      (read_pkt_section_stream decode (codes "000" ∷ codes "5a0000PA" ∷ codes "CK" ∷ []))
read-ReadMeans_example = read-ReadMeans decode (codes "000" ∷ codes "5a0000PA" ∷ codes "CK" ∷ [])

two_chunks :
    read_pkt_section_stream decode (codes "000" ∷ codes "5a0000PA" ∷ codes "CK" ∷ [])
    ≡ section (codes "a" ∷ []) 9 (codes "PA" ∷ codes "CK" ∷ [])
unfolding read_pkt_section_stream gitedge.Push.read_loop gitedge.Push.parse_pkt_section_prefix
    gitedge.Push.prefix_loop gitedge.PktLine.header_of gitedge.Shared.Text.codes_eq
    gitedge.PktLine.parse_int16 gitedge.PktLine.skip_spaces gitedge.PktLine.is_space
    gitedge.PktLine.parse_signed gitedge.PktLine.skip_0x gitedge.PktLine.digits_value
    gitedge.PktLine.hex_value gitedge.Push.pack_stream gitedge.PktLine.chomp
two_chunks = refl

delimiter : read_pkt_section_stream decode (codes "0001" ∷ []) ≡ refused unexpected_delimiter
unfolding read_pkt_section_stream gitedge.Push.read_loop gitedge.Push.parse_pkt_section_prefix
    gitedge.Push.prefix_loop gitedge.PktLine.header_of gitedge.Shared.Text.codes_eq
delimiter = refl
