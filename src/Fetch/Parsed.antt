-- ===== src/Fetch/Parsed.antt =====
-- A request read back by both parsers, from its bytes.
use gitedge.Shared.{
  ℕ, ◌<◌, ◌≡◌, ◌≢◌, refl, sym, ap, ◌∙◌, true, false, List, [], ◌∷◌, ◌++◌, ◌==◌, ◌&&◌, not, ltb,
  is_nil, map, All, All-append, All-map, length, length-append, every, &&-eq-true, arith,
}
use mathlib.Core.List.{append-nil, append_assoc}
use gitedge.Shared.Text.{codes, starts_with}
use gitedge.PktLine.{PktItem, delim, chomp}
use gitedge.PktLine.RoundTrip.{IsAsciiDecoder, IsFrame, decode-encode}
use gitedge.Fetch.{parse_fetch_args, V2Command, command_text, v2_loop, parse_v2_command}
use gitedge.Fetch.Lines.{IsPlain, chomp-line, no_return}
use gitedge.Fetch.Request.{
  Arg, want_arg, have_arg, done_arg, arg_text, IsArg, IsCapability, line_item, arg_items,
  request_items, request_body, wants_after, haves_of, is_done, args_loop-request,
}

-- Text of one line that decodes to itself.
abbrev IsText : List ℕ → Type 0
IsText w = All (λ c. (c ≢ 13) × (c < 128)) w

codes-IsText : (w : List ℕ) → every (λ c. not (c == 13) && ltb c 128) w ≡ true → IsText w
codes-IsText [] h = tt
codes-IsText (c ∷ w) h =
    let (one, rest) = &&-eq-true (not (c == 13) && ltb c 128) _ h in
    ((ground (arith, one), ground (arith, one)), codes-IsText w rest)

plain-IsText : (w : List ℕ) → IsPlain w → IsText w
plain-IsText [] h = tt
plain-IsText (c ∷ w) h = let (n, _) = no_return (c ∷ w) h in ((n, h.0.1), plain-IsText w h.1)

prefix-IsText :
    (p w : List ℕ) → every (λ c. not (c == 13) && ltb c 128) p ≡ true → IsPlain w → IsText (p ++ w)
prefix-IsText p w e h =
    All-append (λ c. (c ≢ 13) × (c < 128)) p w (codes-IsText p e) (plain-IsText w h)

arg-IsText : (x : Arg) → IsArg x → IsText (arg_text x)
arg-IsText (want_arg oid) (_, h) = prefix-IsText (codes "want ") oid refl h
arg-IsText (have_arg oid) (_, h) = prefix-IsText (codes "have ") oid refl h
arg-IsText done_arg h = codes-IsText (codes "done") refl

text-chomp : (w : List ℕ) → IsText w → chomp (w ++ (10 ∷ [])) ≡ w
text-chomp w h = chomp-line w (All-map (λ c. (c ≢ 13) × (c < 128)) (λ c. c ≢ 13) (λ c p. p.0) w h)

v2_loop-args :
    (args : List Arg) (c : V2Command)
    → All IsArg args
    → v2_loop false c (arg_items args) ≡ record c { args = c.args ++ map arg_text args }
unfolding v2_loop
v2_loop-args [] c h = rw (append-nil c.args) refl
v2_loop-args (x ∷ args) c (h, hs) =
    let e = text-chomp (arg_text x) (arg-IsText x h) in
    ap (λ t. v2_loop false (record c { args = c.args ++ (t ∷ []) }) (arg_items args)) e
    ∙ v2_loop-args args _ hs
    ∙ rw (append_assoc c.args (arg_text x ∷ []) (map arg_text args)) refl

v2_loop-capabilities :
    (c : V2Command) (caps : List (List ℕ)) (items : List PktItem)
    → All IsCapability caps
    → v2_loop true c (map line_item caps ++ items) ≡ v2_loop true c items
unfolding v2_loop command_text
v2_loop-capabilities c [] items h = refl
v2_loop-capabilities c (w ∷ caps) items ((p, no_command, _, _), hs) =
    let e = chomp-line w (no_return w p) in
    rw (e, no_command) (v2_loop-capabilities c caps items hs)

command_text-line :
    (command : List ℕ)
    → IsPlain command
    → command_text [] (chomp ((codes "command=" ++ command) ++ (10 ∷ []))) ≡ command
command_text-line command h =
    ap (command_text [])
      (text-chomp (codes "command=" ++ command) (prefix-IsText (codes "command=") command refl h))
    ∙ unfold command_text starts_with in refl

abbrev no_command : V2Command
no_command = record { command = []; args = [] }

v2_loop-request :
    (command : List ℕ) (caps : List (List ℕ)) (args : List Arg)
    → IsPlain command
    → All IsCapability caps
    → All IsArg args
    → v2_loop true no_command (request_items command caps args)
      ≡ record { command = command; args = map arg_text args }
unfolding v2_loop
v2_loop-request command caps args h hc ha =
    ap
      (λ t.
        v2_loop true (record { command = t; args = [] })
          (map line_item caps ++ (delim ∷ arg_items args)))
      (command_text-line command h)
    ∙ v2_loop-capabilities (record { command = command; args = [] }) caps (delim ∷ arg_items args)
        hc
    ∙ v2_loop-args args (record { command = command; args = [] }) ha

module _ (decode : List ℕ → List ℕ) (ascii : IsAsciiDecoder decode) where
  frame : (w : List ℕ) → IsText w → length w < 65100 → IsFrame decode ascii (line_item w)
  frame w h small =
      let all =
        All-append (λ c. c < 128) w (10 ∷ [])
          (All-map (λ c. (c ≢ 13) × (c < 128)) (λ c. c < 128) (λ c p. p.1) w h) (omega arith, tt) in
      (sym (ascii (w ++ (10 ∷ [])) all), omega (arith, small, length-append w (10 ∷ [])))

  arg-IsFrame : (x : Arg) → IsArg x → IsFrame decode ascii (line_item (arg_text x))
  arg-IsFrame (want_arg oid) (long, h) =
      frame (codes "want " ++ oid) (arg-IsText (want_arg oid) (long, h)) (omega (arith, long))
  arg-IsFrame (have_arg oid) (long, h) =
      frame (codes "have " ++ oid) (arg-IsText (have_arg oid) (long, h)) (omega (arith, long))
  arg-IsFrame done_arg h = frame (codes "done") (arg-IsText done_arg h) (omega arith)

  args-frames : (args : List Arg) → All IsArg args → All (IsFrame decode ascii) (arg_items args)
  args-frames [] h = (tt, tt)
  args-frames (x ∷ args) (h, hs) = (arg-IsFrame x h, args-frames args hs)

  request-frames :
      (caps : List (List ℕ)) (args : List Arg)
      → All IsCapability caps
      → All IsArg args
      → All (IsFrame decode ascii) (map line_item caps ++ (delim ∷ arg_items args))
  request-frames [] args h ha = (tt, args-frames args ha)
  request-frames (w ∷ caps) args ((p, _, _, small), hs) ha =
      (frame w (plain-IsText w p) (omega (arith, small)), request-frames caps args hs ha)

-- If texts of ASCII bytes decode to themselves, the command and the capabilities are words that fit in
-- a line, no capability is `done` or starts with `command=`, and the wants and haves have forty
-- characters and no white space, then both parsers read the bytes of a request back: one gives the
-- command and the lines behind the delimiter, the other each want once, in the order of the first
-- mention, all haves in their order, and whether `done` stands anywhere.
pub parse-request :
    (decode : List ℕ → List ℕ) (command : List ℕ) (caps : List (List ℕ)) (args : List Arg)
    → IsAsciiDecoder decode
    → IsPlain command
    → is_nil command ≡ false
    → length command < 65000
    → All IsCapability caps
    → All IsArg args
    → (parse_v2_command decode (request_body command caps args)
        ≡ record { command = command; args = map arg_text args })
      × (parse_fetch_args decode (request_body command caps args)
          ≡ record { wants = wants_after [] args; haves = haves_of args; done = is_done args })
parse-request decode command caps args ascii h n small hc ha =
    let text = prefix-IsText (codes "command=") command refl h in
    let frames : All (IsFrame decode ascii) (request_items command caps args) = (
      frame decode ascii (codes "command=" ++ command) text (omega (arith, small)),
      request-frames decode ascii caps args hc ha,
    ) in
    let items = decode-encode decode ascii (request_items command caps args) frames in
    (
      unfold parse_v2_command in rw (items, v2_loop-request command caps args h hc ha, n) refl,
      unfold parse_fetch_args in rw items (args_loop-request command caps args h n hc ha),
    )
