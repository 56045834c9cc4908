-- ===== src/Push/Request.antt =====
-- `parseReceiveRequest` on the lines that a client sends: each command is its old object, its new
-- object and its ref between spaces, and the first line has a NUL and the capabilities behind it.
use gitedge.Shared.{
  ℕ, ◌≡◌, ◌≢◌, refl, ap, ◌∙◌, true, false, List, [], ◌∷◌, ◌++◌, some, map, is_nil, All, arith,
}
use mathlib.Core.List.{append-nil, append_assoc}
use gitedge.Shared.Text.{push_code}
use gitedge.PktLine.{is_space, skip_spaces}
use gitedge.Push.{
  RequestCommand, before_nul, after_nul, trim_end, trim, split_spaces, join_spaces,
  capability_tokens, capability_text, capabilities_of, parse_capabilities, add_command,
  parse_commands, cut_first, first_line, parse_receive_request,
}

-- A text that is not empty, without white space and NUL.
abbrev pub IsWord : List ℕ → Type 0
IsWord w = (is_nil w ≡ false) × All (λ c. (is_space c ≡ false) × (c ≢ 0)) w

abbrev pub IsWords : RequestCommand → Type 0
IsWords c = IsWord c.old_oid × IsWord c.new_oid × IsWord c.ref

abbrev pub words_of : RequestCommand → List (List ℕ)
words_of c = c.old_oid ∷ c.new_oid ∷ c.ref ∷ []

abbrev pub command_line : RequestCommand → List ℕ
command_line c = join_spaces (words_of c)

-- The lines of a request with at least one command.
abbrev pub request_lines : RequestCommand → List RequestCommand → List (List ℕ) → List (List ℕ)
request_lines c cs tokens =
    (command_line c ++ (0 ∷ b' ' ∷ join_spaces tokens)) ∷ map command_line cs

space : is_space b' ' ≡ true
unfolding is_space
space = refl

split_word-append :
    (w s : List ℕ)
    → All (λ c. (is_space c ≡ false) × (c ≢ 0)) w
    → split_spaces false (w ++ (b' ' ∷ s)) ≡ w ∷ split_spaces true s
unfolding split_spaces push_code
split_word-append [] s h = rw (space, split_spaces) refl
split_word-append (c ∷ w) s ((n, z), h) =
    rw (n, split_spaces) (ap (push_code c) (split_word-append w s h))

split_word :
    (w : List ℕ) → All (λ c. (is_space c ≡ false) × (c ≢ 0)) w → split_spaces false w ≡ w ∷ []
unfolding split_spaces push_code
split_word [] h = refl
split_word (c ∷ w) ((n, z), h) = rw (n, split_spaces) (ap (push_code c) (split_word w h))

split_begun : (w s : List ℕ) → IsWord w → split_spaces true (w ++ s) ≡ split_spaces false (w ++ s)
unfolding split_spaces
split_begun [] s (e, h) = absurd (ground arith)
split_begun (c ∷ w) s (e, ((n, z), h)) = rw (n, split_spaces) refl

-- A word at the head of words that are joined.
join_begun :
    (w : List ℕ) (ws : List (List ℕ))
    → IsWord w
    → split_spaces true (join_spaces (w ∷ ws)) ≡ split_spaces false (join_spaces (w ∷ ws))
unfolding join_spaces
join_begun w [] h = rw append-nil at (split_begun w [] h)
join_begun w (v ∷ ws) h = split_begun w (b' ' ∷ join_spaces (v ∷ ws)) h

split-join :
    (w : List ℕ) (ws : List (List ℕ))
    → All IsWord (w ∷ ws)
    → split_spaces false (join_spaces (w ∷ ws)) ≡ w ∷ ws
unfolding join_spaces
split-join w [] ((e, h), _) = split_word w h
split-join w (v ∷ ws) ((e, h), (k, ks)) =
    split_word-append w (join_spaces (v ∷ ws)) h
    ∙ ap (◌∷◌ w) (join_begun v ws k ∙ split-join v ws (k, ks))

nil-append {ℓ} : {A : Type ℓ} (xs ys : List A) → is_nil ys ≡ false → is_nil (xs ++ ys) ≡ false
nil-append [] ys h = h
nil-append (x ∷ xs) ys h = refl

trim_end-append :
    (xs ys : List ℕ) → is_nil ys ≡ false → trim_end ys ≡ ys → trim_end (xs ++ ys) ≡ xs ++ ys
unfolding trim_end
trim_end-append [] ys n h = h
trim_end-append (x ∷ xs) ys n h = rw (trim_end-append xs ys n h, nil-append xs ys n) refl

trim_end-word : (w : List ℕ) → All (λ c. (is_space c ≡ false) × (c ≢ 0)) w → trim_end w ≡ w
unfolding trim_end
trim_end-word [] h = refl
trim_end-word (c ∷ w) ((n, z), h) = rw (trim_end-word w h) (ground (arith, n))

join-nil : (w : List ℕ) (ws : List (List ℕ)) → IsWord w → is_nil (join_spaces (w ∷ ws)) ≡ false
unfolding join_spaces
join-nil w [] (e, h) = e
join-nil w (v ∷ ws) (e, h) = nil-append w (b' ' ∷ join_spaces (v ∷ ws)) refl

trim_end-join :
    (w : List ℕ) (ws : List (List ℕ))
    → All IsWord (w ∷ ws)
    → trim_end (join_spaces (w ∷ ws)) ≡ join_spaces (w ∷ ws)
unfolding join_spaces
trim_end-join w [] ((e, h), _) = trim_end-word w h
trim_end-join w (v ∷ ws) ((e, h), (k, ks)) = trim_end-append w (b' ' ∷ join_spaces (v ∷ ws)) refl (
    trim_end-append (b' ' ∷ []) (join_spaces (v ∷ ws)) (join-nil v ws k)
      (trim_end-join v ws (k, ks)))

skip-word : (w s : List ℕ) → IsWord w → skip_spaces (w ++ s) ≡ w ++ s
unfolding skip_spaces
skip-word [] s (e, h) = absurd (ground arith)
skip-word (c ∷ w) s (e, ((n, z), h)) = rw n refl

skip-join :
    (w : List ℕ) (ws : List (List ℕ))
    → IsWord w
    → skip_spaces (join_spaces (w ∷ ws)) ≡ join_spaces (w ∷ ws)
unfolding join_spaces
skip-join w [] h = rw append-nil at (skip-word w [] h)
skip-join w (v ∷ ws) h = skip-word w (b' ' ∷ join_spaces (v ∷ ws)) h

trim-join :
    (w : List ℕ) (ws : List (List ℕ))
    → All IsWord (w ∷ ws)
    → trim (join_spaces (w ∷ ws)) ≡ join_spaces (w ∷ ws)
unfolding trim
trim-join w ws (h, hs) = ap trim_end (skip-join w ws h) ∙ trim_end-join w ws (h, hs)

trim-space : (s : List ℕ) → trim (b' ' ∷ s) ≡ trim s
unfolding trim skip_spaces is_space
trim-space s = refl

before-append :
    (w s : List ℕ)
    → All (λ c. (is_space c ≡ false) × (c ≢ 0)) w
    → before_nul (w ++ s) ≡ w ++ before_nul s
unfolding before_nul
before-append [] s h = refl
before-append (c ∷ w) s ((n, z), h) = ground (arith, before-append w s h)

after-append :
    (w s : List ℕ) → All (λ c. (is_space c ≡ false) × (c ≢ 0)) w → after_nul (w ++ s) ≡ after_nul s
unfolding after_nul
after-append [] s h = refl
after-append (c ∷ w) s ((n, z), h) = ground (arith, after-append w s h)

module _ (c : RequestCommand) (words : IsWords c) (s : List ℕ) where
  line-nul :
      command_line c ++ (0 ∷ s) ≡ c.old_oid ++ (b' ' ∷ (c.new_oid ++ (b' ' ∷ (c.ref ++ (0 ∷ s)))))
  unfolding join_spaces
  line-nul = simp append_assoc

  before-line : before_nul (command_line c ++ (0 ∷ s)) ≡ command_line c
  unfolding join_spaces before_nul
  before-line =
      ap before_nul line-nul
      ∙ before-append c.old_oid _ words.0.1
      ∙ ap (λ t. c.old_oid ++ (b' ' ∷ t))
          (before-append c.new_oid _ words.1.1
            ∙ ap (λ t. c.new_oid ++ (b' ' ∷ t))
                (before-append c.ref _ words.2.1 ∙ append-nil c.ref))

  after-line : after_nul (command_line c ++ (0 ∷ s)) ≡ some s
  unfolding after_nul
  after-line =
      ap after_nul line-nul
      ∙ after-append c.old_oid _ words.0.1
      ∙ after-append c.new_oid _ words.1.1
      ∙ after-append c.ref _ words.2.1

parse_line :
    (c : RequestCommand) → IsWords c → split_spaces false (trim (command_line c)) ≡ words_of c
parse_line c (o, n, r) =
    let all : All IsWord (words_of c) = (o, (n, (r, tt))) in
    ap (split_spaces false) (trim-join c.old_oid _ all) ∙ split-join c.old_oid _ all

parse_commands-lines :
    (cs : List RequestCommand) → All IsWords cs → parse_commands (map command_line cs) ≡ cs
unfolding parse_commands
parse_commands-lines [] h = refl
parse_commands-lines (c ∷ cs) (h, hs) =
    ap (λ p. add_command p (parse_commands (map command_line cs))) (parse_line c h)
    ∙ unfold add_command join_spaces in ap (◌∷◌ c) (parse_commands-lines cs hs)

tokens-join :
    (tokens : List (List ℕ))
    → All IsWord tokens
    → capability_tokens (capability_text (some (b' ' ∷ join_spaces tokens))) ≡ tokens
unfolding capability_tokens capability_text
tokens-join [] h = unfold join_spaces trim skip_spaces trim_end is_space in refl
tokens-join (t ∷ ts) (h, hs) =
    let e : trim (b' ' ∷ join_spaces (t ∷ ts)) ≡ join_spaces (t ∷ ts) =
      trim-space (join_spaces (t ∷ ts)) ∙ trim-join t ts (h, hs) in
    rw (e, join-nil t ts h) (split-join t ts (h, hs))

-- If the parts of the commands and the capabilities are words without white space and NUL, then the
-- lines of a request, in the format of Git, parse to exactly these commands in their order, and to
-- what the capabilities say.
pub parse-request_lines :
    (c : RequestCommand) (cs : List RequestCommand) (tokens : List (List ℕ))
    → All IsWords (c ∷ cs)
    → All IsWord tokens
    → parse_receive_request (request_lines c cs tokens)
      ≡ record { commands = c ∷ cs; capabilities = capabilities_of tokens }
unfolding parse_receive_request parse_capabilities cut_first first_line
parse-request_lines c cs tokens (h, hs) k =
    rw
      (
        before-line c h (b' ' ∷ join_spaces tokens),
        after-line c h (b' ' ∷ join_spaces tokens),
        tokens-join tokens k,
        parse_commands-lines (c ∷ cs) (h, hs),
      )
      refl
