-- ===== src/Fetch/Request.antt =====
-- A request as a client sends it: its command and capabilities, and behind a delimiter what it wants
-- and has. Both parsers read the same body.
use gitedge.Shared.{
  ℕ, ◌<◌, ◌≡◌, refl, ap, ◌∙◌, true, false, Bool, List, [], ◌∷◌, ◌++◌, ◌||◌, is_nil, map, All,
  length, if◌then◌else◌, take-all, leb, arith, Bool-cases, inl, inr,
}
use mathlib.Core.List.{append-nil, append_assoc}
use gitedge.Shared.Text.{codes, codes_eq, starts_with}
use gitedge.PktLine.{is_space, PktItem, line, flush, delim, concat_chunks}
use gitedge.PktLine.RoundTrip.{encode_item}
use gitedge.Push.{trim_end}
use gitedge.Closure.{Oid, has}
use gitedge.Fetch.{FetchArgs, insert_want, text_step, item_step, args_loop, no_args}
use gitedge.Fetch.Lines.{IsPlain, trim_end-line, trim_end-append, word-starts}

pub data Arg : Type 0 where
  want_arg have_arg : Oid → Arg
  done_arg : Arg

abbrev pub arg_text : Arg → List ℕ
arg_text (want_arg oid) = codes "want " ++ oid
arg_text (have_arg oid) = codes "have " ++ oid
arg_text done_arg = codes "done"

abbrev pub IsOid : Oid → Type 0
IsOid oid = (length oid ≡ 40) × IsPlain oid

abbrev pub IsArg : Arg → Type 0
IsArg (want_arg oid) = IsOid oid
IsArg (have_arg oid) = IsOid oid
IsArg done_arg = Unit

-- A capability is a word that fits in a line and is neither a command nor `done`.
abbrev pub IsCapability : List ℕ → Type 0
IsCapability w =
    IsPlain w
    × (starts_with (codes "command=") w ≡ false)
    × (codes_eq w (codes "done") ≡ false)
    × (length w < 65000)

abbrev pub line_item : List ℕ → PktItem
line_item text = line (text ++ (10 ∷ [])) (text ++ (10 ∷ []))

abbrev pub arg_items : List Arg → List PktItem
arg_items args = map (λ a. line_item (arg_text a)) args ++ (flush ∷ [])

abbrev pub request_items : List ℕ → List (List ℕ) → List Arg → List PktItem
request_items command caps args =
    line_item (codes "command=" ++ command) ∷ (map line_item caps ++ (delim ∷ arg_items args))

abbrev pub request_body : List ℕ → List (List ℕ) → List Arg → List ℕ
request_body command caps args = concat_chunks (map encode_item (request_items command caps args))

-- What the arguments say: each want once, the haves in their order.
unfoldable pub wants_after : List Oid → List Arg → List Oid
unfolding has
wants_after seen [] = seen
wants_after seen (want_arg oid ∷ args) =
    if has oid seen then wants_after seen args else wants_after (seen ++ (oid ∷ [])) args
wants_after seen (have_arg oid ∷ args) = wants_after seen args
wants_after seen (done_arg ∷ args) = wants_after seen args

abbrev pub haves_of : List Arg → List Oid
haves_of [] = []
haves_of (want_arg oid ∷ args) = haves_of args
haves_of (have_arg oid ∷ args) = oid ∷ haves_of args
haves_of (done_arg ∷ args) = haves_of args

abbrev pub is_done : List Arg → Bool
is_done [] = false
is_done (want_arg oid ∷ args) = is_done args
is_done (have_arg oid ∷ args) = is_done args
is_done (done_arg ∷ args) = true

-- A line that is trimmed.
line_step :
    (a : FetchArgs) (text : List ℕ)
    → trim_end (text ++ (10 ∷ [])) ≡ text
    → item_step a (line_item text) ≡ text_step a text
unfolding item_step
line_step a [] e = ap (text_step a) e
line_step a (c ∷ w) e = ap (text_step a) e

-- A word behind a prefix.
trim-prefix :
    (p w : List ℕ) → IsPlain w → is_nil w ≡ false → trim_end (p ++ (w ++ (10 ∷ []))) ≡ p ++ w
trim-prefix p w h n =
    let e = trim_end-line w h in
    trim_end-append p (w ++ (10 ∷ [])) (ap is_nil e ∙ n) ∙ ap (λ t. p ++ t) e

oid-nil : (oid : Oid) → length oid ≡ 40 → is_nil oid ≡ false
oid-nil [] h = absurd (omega (arith, h))
oid-nil (c ∷ oid) h = refl

want_step :
    (a : FetchArgs) (oid : Oid)
    → IsOid oid
    → item_step a (line_item (arg_text (want_arg oid)))
      ≡ record a { wants = insert_want oid a.wants }
want_step a oid (long, h) =
    let all = take-all 40 oid (omega (arith, long)) in
    let enough : leb 40 (length oid) ≡ true = ground (arith, long) in
    line_step a (codes "want " ++ oid) (trim-prefix (codes "want ") oid h (oid-nil oid long))
    ∙ unfold text_step starts_with in rw (enough, all) refl

have_step :
    (a : FetchArgs) (oid : Oid)
    → IsOid oid
    → item_step a (line_item (arg_text (have_arg oid))) ≡ record a { haves = a.haves ++ (oid ∷ []) }
have_step a oid (long, h) =
    let all = take-all 40 oid (omega (arith, long)) in
    let enough : leb 40 (length oid) ≡ true = ground (arith, long) in
    line_step a (codes "have " ++ oid) (trim-prefix (codes "have ") oid h (oid-nil oid long))
    ∙ unfold text_step starts_with in rw (enough, all) refl

done_step : (a : FetchArgs) → item_step a (line_item (codes "done")) ≡ record a { done = true }
unfolding item_step text_step starts_with codes_eq trim_end is_space
done_step a = refl

capability_step : (a : FetchArgs) (w : List ℕ) → IsCapability w → item_step a (line_item w) ≡ a
capability_step a w (h, _, not_done, _) =
    let no_want : starts_with (codes "want ") w ≡ false = word-starts (codes "want") w h in
    let no_have : starts_with (codes "have ") w ≡ false = word-starts (codes "have") w h in
    line_step a w (trim_end-line w h) ∙ unfold text_step in rw (no_want, no_have, not_done) refl

command_step :
    (a : FetchArgs) (command : List ℕ)
    → IsPlain command
    → is_nil command ≡ false
    → item_step a (line_item (codes "command=" ++ command)) ≡ a
command_step a command h n =
    line_step a (codes "command=" ++ command) (trim-prefix (codes "command=") command h n)
    ∙ unfold text_step starts_with codes_eq in refl

-- The state that a list of arguments leaves.
abbrev pub after : FetchArgs → List Arg → FetchArgs
after a args = record {
  wants = wants_after a.wants args;
  haves = a.haves ++ haves_of args;
  done = a.done || is_done args;
}

wants-insert :
    (oid : Oid) (seen : List Oid) (args : List Arg)
    → wants_after (insert_want oid seen) args ≡ wants_after seen (want_arg oid ∷ args)
unfolding wants_after insert_want
wants-insert oid seen args = elim (Bool-cases (has oid seen)) [
  | inl t ↦ rw t refl
  | inr f ↦ rw f refl
]

after-nil : (a : FetchArgs) → a ≡ after a []
after-nil a = unfold wants_after in rw (append-nil a.haves, or-false a.done) refl
  where
    or-false : (b : Bool) → (b || false) ≡ b
    or-false true = refl
    or-false false = refl

after-want :
    (a : FetchArgs) (oid : Oid) (args : List Arg)
    → after (record a { wants = insert_want oid a.wants }) args ≡ after a (want_arg oid ∷ args)
after-want a oid args = rw (wants-insert oid a.wants args) refl

after-have :
    (a : FetchArgs) (oid : Oid) (args : List Arg)
    → after (record a { haves = a.haves ++ (oid ∷ []) }) args ≡ after a (have_arg oid ∷ args)
after-have a oid args =
    unfold wants_after in rw (append_assoc a.haves (oid ∷ []) (haves_of args)) refl

after-done :
    (a : FetchArgs) (args : List Arg)
    → after (record a { done = true }) args ≡ after a (done_arg ∷ args)
after-done a args = unfold wants_after in rw (or-true a.done) refl
  where
    or-true : (b : Bool) → (b || true) ≡ true
    or-true true = refl
    or-true false = refl

args_loop-args :
    (args : List Arg) (a : FetchArgs) → All IsArg args → args_loop a (arg_items args) ≡ after a args
unfolding args_loop
args_loop-args [] a h = unfold item_step in after-nil a
args_loop-args (want_arg oid ∷ args) a (h, hs) =
    ap (λ b. args_loop b (arg_items args)) (want_step a oid h)
    ∙ args_loop-args args _ hs
    ∙ after-want a oid args
args_loop-args (have_arg oid ∷ args) a (h, hs) =
    ap (λ b. args_loop b (arg_items args)) (have_step a oid h)
    ∙ args_loop-args args _ hs
    ∙ after-have a oid args
args_loop-args (done_arg ∷ args) a (h, hs) =
    ap (λ b. args_loop b (arg_items args)) (done_step a)
    ∙ args_loop-args args _ hs
    ∙ after-done a args

args_loop-capabilities :
    (a : FetchArgs) (caps : List (List ℕ)) (args : List Arg)
    → All IsCapability caps
    → args_loop a (map line_item caps ++ (delim ∷ arg_items args)) ≡ args_loop a (arg_items args)
unfolding args_loop
args_loop-capabilities a [] args h = unfold item_step in refl
args_loop-capabilities a (w ∷ caps) args (h, hs) =
    ap (λ b. args_loop b (map line_item caps ++ (delim ∷ arg_items args))) (capability_step a w h)
    ∙ args_loop-capabilities a caps args hs

pub args_loop-request :
    (command : List ℕ) (caps : List (List ℕ)) (args : List Arg)
    → IsPlain command
    → is_nil command ≡ false
    → All IsCapability caps
    → All IsArg args
    → args_loop no_args (request_items command caps args) ≡ after no_args args
args_loop-request command caps args h n hc ha =
    unfold args_loop in
    ap (λ b. args_loop b (map line_item caps ++ (delim ∷ arg_items args)))
      (command_step no_args command h n)
    ∙ args_loop-capabilities no_args caps args hc
    ∙ args_loop-args args no_args ha
