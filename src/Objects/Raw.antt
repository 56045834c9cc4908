-- ===== src/Objects/Raw.antt =====
-- The raw form of an object: its header up to a NUL, then its payload.
use gitedge.Shared.{
  ℕ, zero, suc, ◌+◌, ◌/◌, ◌%◌, ◌≡◌, ◌≢◌, refl, ap, ◌∙◌, List, [], ◌∷◌, ◌++◌, ltb, ◌<◌, ◌≤◌, length,
  All, All-append, All-map, Bool-cases, inl, inr, arith,
}
use mathlib.Core.List.{append_assoc}
use gitedge.Shared.Text.{codes_eq}
use gitedge.Shared.Decimal.{to_decimal, number}
use gitedge.Objects.{
  until, from, GitObjectType, blob, tree, commit, tag, type_name, encode_git_object_header,
  build_raw_git_object, parsed_object, typed_object, parse_git_object,
}

-- The first occurrence of a code behind a text without it.
pub until-append : (c : ℕ) (w s : List ℕ) → All (λ x. x ≢ c) w → until c (w ++ (c ∷ s)) ≡ w
unfolding until
until-append c [] s h = ground arith
until-append c (x ∷ w) s (n, h) = ground (arith, until-append c w s h)

pub from-append : (c : ℕ) (w s : List ℕ) → All (λ x. x ≢ c) w → from c (w ++ (c ∷ s)) ≡ c ∷ s
unfolding from
from-append c [] s h = ground arith
from-append c (x ∷ w) s (n, h) = ground (arith, from-append c w s h)

pub from-none : (c : ℕ) (w : List ℕ) → All (λ x. x ≢ c) w → from c w ≡ []
unfolding from
from-none c [] h = refl
from-none c (x ∷ w) (n, h) = ground (arith, from-none c w h)

to_decimal-digits : (f n : ℕ) → All (λ c. 48 ≤ c) (to_decimal f n)
unfolding to_decimal
to_decimal-digits zero n = tt
to_decimal-digits (suc f) n = elim (Bool-cases (ltb n 10)) [
  | inl t ↦ rw t (omega arith, tt)
  | inr e ↦ rw e (
      All-append (λ c. 48 ≤ c) (to_decimal f (n / 10)) ((48 + n % 10) ∷ [])
        (to_decimal-digits f (n / 10)) (omega arith, tt))
]

number-nonzero : (n : ℕ) → All (λ c. c ≢ 0) (number n)
unfolding number
number-nonzero n =
    All-map (λ c. 48 ≤ c) (λ c. c ≢ 0) (λ c h e. omega (arith, h, e)) (to_decimal 16 n)
      (to_decimal-digits 16 n)

name_letters : (type : GitObjectType) → All (λ c. 97 ≤ c) (type_name type)
name_letters blob = (omega arith, (omega arith, (omega arith, (omega arith, tt))))
name_letters tree = (omega arith, (omega arith, (omega arith, (omega arith, tt))))
name_letters commit =
    (omega arith, (omega arith, (omega arith, (omega arith, (omega arith, (omega arith, tt))))))
name_letters tag = (omega arith, (omega arith, (omega arith, tt)))

letters_avoid : (c : ℕ) (type : GitObjectType) → c < 97 → All (λ x. x ≢ c) (type_name type)
letters_avoid c type h =
    All-map (λ x. 97 ≤ x) (λ x. x ≢ c) (λ x l e. omega (arith, h, l, e)) (type_name type)
      (name_letters type)

typed-name :
    (type : GitObjectType) (payload : List ℕ)
    → typed_object (type_name type) payload ≡ parsed_object type payload
unfolding typed_object codes_eq
typed-name blob payload = refl
typed-name tree payload = refl
typed-name commit payload = refl
typed-name tag payload = refl

parse_at_nul :
    (decode : List ℕ → List ℕ) (header payload : List ℕ)
    → All (λ c. c ≢ 0) header
    → parse_git_object decode (header ++ (0 ∷ payload))
      ≡ typed_object (until b' ' (decode header)) payload
unfolding parse_git_object typed_object
parse_at_nul decode header payload h =
    let here = from-append 0 header payload h in
    let before = until-append 0 header payload h in rw (parse_git_object, here, before) refl

-- If the text decoder takes the header of an object to itself, then the raw form that is built for
-- an object is read back as its type and its payload, whatever bytes the payload has.
pub parse-build :
    (decode : List ℕ → List ℕ) (type : GitObjectType) (payload : List ℕ)
    → decode (type_name type ++ (b' ' ∷ number (length payload)))
      ≡ type_name type ++ (b' ' ∷ number (length payload))
    → parse_git_object decode (build_raw_git_object type payload) ≡ parsed_object type payload
parse-build decode type payload plain =
    let n = number (length payload) in
    let header = type_name type ++ (b' ' ∷ n) in
    let whole : build_raw_git_object type payload ≡ header ++ (0 ∷ payload) =
      unfold build_raw_git_object encode_git_object_header in simp append_assoc in
    let nonzero : All (λ c. c ≢ 0) header =
      All-append (λ c. c ≢ 0) (type_name type) (b' ' ∷ n) (letters_avoid 0 type (omega arith))
        (ground arith, number-nonzero (length payload)) in
    ap (parse_git_object decode) whole
    ∙ parse_at_nul decode header payload nonzero
    ∙ ap (λ t. typed_object (until b' ' t) payload) plain
    ∙ ap (λ t. typed_object t payload)
        (until-append b' ' (type_name type) n (letters_avoid b' ' type (omega arith)))
    ∙ typed-name type payload
