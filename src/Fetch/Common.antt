-- ===== src/Fetch/Common.antt =====
-- findCommonHaves of src/worker/git/operations/closure.ts: which haves are acknowledged.
use gitedge.Shared.{
  ℕ, zero, suc, ◌<◌, ◌≡◌, ◌↔◌, refl, sym, ap, ◌∙◌, true, false, Bool, List, [], ◌∷◌, ◌||◌, not,
  is_nil, All, All-map, length, get_or, Bool-cases, inl, inr, arith,
}
use mathlib.Core.Path.{subst}
use gitedge.Shared.Text.{codes_eq, codes_eq_iff, to_lower}
use gitedge.PktLine.{is_space}
use gitedge.Closure.{Oid, lower, has, common_loop}
use gitedge.Fetch.Lines.{IsPlain}
use gitedge.Fetch.Request.{IsOid}

-- The name is one of the haves, in lower case, and the store has it.
abbrev pub IsCommon : List Oid → List Bool → Oid → Type 0
IsCommon haves present oid =
    (i : ℕ) × (i < length haves)
    × (get_or present i false ≡ true)
    × (lower (get_or haves i []) ≡ oid)

IsCommon-cons :
    (have : Oid) (haves : List Oid) (p : Bool) (present : List Bool) (oid : Oid)
    → IsCommon haves present oid
    → IsCommon (have ∷ haves) (p ∷ present) oid
IsCommon-cons have haves p present oid (i, h, e, o) = (suc i, omega (arith, h), e, o)

common_loop-IsCommon :
    (haves : List Oid) (present : List Bool) (seen : List Oid)
    → All (IsCommon haves present) (common_loop haves present seen)
unfolding common_loop
common_loop-IsCommon haves [] seen = tt
common_loop-IsCommon [] (p ∷ present) seen = tt
common_loop-IsCommon (oid ∷ haves) (p ∷ present) seen =
    elim (Bool-cases (is_nil (lower oid) || has (lower oid) seen || not p)) [
      | inl t ↦ rw t (
          All-map (IsCommon haves present) (IsCommon (oid ∷ haves) (p ∷ present))
            (IsCommon-cons oid haves p present) (common_loop haves present seen)
            (common_loop-IsCommon haves present seen))
      | inr f ↦
          let here : p ≡ true = ground (arith, f) in
          rw f (
            (zero, omega arith, here, refl),
            All-map (IsCommon haves present) (IsCommon (oid ∷ haves) (p ∷ present))
                (IsCommon-cons oid haves p present) (common_loop haves present (lower oid ∷ seen))
                (common_loop-IsCommon haves present (lower oid ∷ seen)),
          )
    ]

codes_eq_refl : (s : List ℕ) → codes_eq s s ≡ true
codes_eq_refl s = (codes_eq_iff s s).1 refl

skipped :
    (oid : Oid) (haves : List Oid) (p : Bool) (present : List Bool) (seen : List Oid)
    → (is_nil (lower oid) || has (lower oid) seen || not p) ≡ true
    → common_loop (oid ∷ haves) (p ∷ present) seen ≡ common_loop haves present seen
unfolding common_loop
skipped oid haves p present seen t = rw t refl

kept :
    (oid : Oid) (haves : List Oid) (p : Bool) (present : List Bool) (seen : List Oid)
    → (is_nil (lower oid) || has (lower oid) seen || not p) ≡ false
    → common_loop (oid ∷ haves) (p ∷ present) seen
      ≡ lower oid ∷ common_loop haves present (lower oid ∷ seen)
unfolding common_loop
kept oid haves p present seen f = rw f refl

has_self : (x : Oid) (xs : List Oid) → has x (x ∷ xs) ≡ true
unfolding has
has_self x xs = rw (codes_eq_refl x) refl

has-move :
    (x y : Oid) (xs ys : List Oid)
    → (has x xs || has x (y ∷ ys)) ≡ true
    → (has x (y ∷ xs) || has x ys) ≡ true
unfolding has
has-move x y xs ys h = ground (arith, h)

-- A have that the store has is acknowledged, or was before.
common_loop-has :
    (haves : List Oid) (present : List Bool) (seen : List Oid) (i : ℕ)
    → i < length haves
    → get_or present i false ≡ true
    → is_nil (lower (get_or haves i [])) ≡ false
    → (has (lower (get_or haves i [])) (common_loop haves present seen)
        || has (lower (get_or haves i [])) seen)
      ≡ true
common_loop-has haves [] seen i h e n = absurd (ground (arith, e))
common_loop-has [] (p ∷ present) seen i h e n = absurd (omega (arith, h))
common_loop-has (oid ∷ haves) (p ∷ present) seen zero h e n =
    elim (Bool-cases (is_nil (lower oid) || has (lower oid) seen || not p)) [
      | inl t ↦
          let before : has (lower oid) seen ≡ true = ground (arith, t, n, e) in
          rw before (ground arith)
      | inr f ↦
          rw (kept oid haves p present seen f)
            (rw (has_self (lower oid) (common_loop haves present (lower oid ∷ seen))) refl)
    ]
common_loop-has (oid ∷ haves) (p ∷ present) seen (suc i) h e n =
    elim (Bool-cases (is_nil (lower oid) || has (lower oid) seen || not p)) [
      | inl t ↦
          rw (skipped oid haves p present seen t)
            (common_loop-has haves present seen i (omega (arith, h)) e n)
      | inr f ↦ rw (kept oid haves p present seen f) (
          has-move (lower (get_or haves i [])) (lower oid)
            (common_loop haves present (lower oid ∷ seen)) seen
            (common_loop-has haves present (lower oid ∷ seen) i (omega (arith, h)) e n))
    ]

lower_code :
    (c : ℕ) → is_space c ≡ false → c < 128 → (is_space (to_lower c) ≡ false) × (to_lower c < 128)
unfolding is_space to_lower
lower_code c n h = ground (arith, n, h)

lower-IsPlain : (w : List ℕ) → IsPlain w → IsPlain (lower w)
unfolding lower
lower-IsPlain [] h = tt
lower-IsPlain (c ∷ w) ((n, l), h) = (lower_code c n l, lower-IsPlain w h)

length-lower : (w : List ℕ) → length (lower w) ≡ length w
unfolding lower
length-lower [] = refl
length-lower (c ∷ w) = ap (λ n. suc n) (length-lower w)

pub common_loop-IsOid :
    (haves : List Oid) (present : List Bool) (seen : List Oid)
    → All IsOid haves
    → All IsOid (common_loop haves present seen)
unfolding common_loop
common_loop-IsOid haves [] seen h = tt
common_loop-IsOid [] (p ∷ present) seen h = tt
common_loop-IsOid (oid ∷ haves) (p ∷ present) seen ((long, plain), hs) =
    elim (Bool-cases (is_nil (lower oid) || has (lower oid) seen || not p)) [
      | inl t ↦ rw t (common_loop-IsOid haves present seen hs)
      | inr f ↦ rw f (
        (length-lower oid ∙ long, lower-IsPlain oid plain),
        common_loop-IsOid haves present (lower oid ∷ seen) hs,
      )
    ]

has-get {ℓ} : (P : Oid → Type ℓ) (oid : Oid) (xs : List Oid) → All P xs → has oid xs ≡ true → P oid
unfolding has
has-get P oid [] h e = absurd (ground (arith, e))
has-get P oid (x ∷ xs) (p, h) e = elim (Bool-cases (codes_eq oid x)) [
  | inl t ↦ subst P (sym ((codes_eq_iff oid x).0 t)) p
  | inr f ↦ has-get P oid xs h (ground (arith, e, f))
]

oid-lower : (oid : Oid) → length oid ≡ 40 → is_nil (lower oid) ≡ false
unfolding lower
oid-lower [] h = absurd (omega (arith, h))
oid-lower (c ∷ oid) h = refl

get-IsOid :
    (haves : List Oid) (i : ℕ) → All IsOid haves → i < length haves → IsOid (get_or haves i [])
get-IsOid [] i h l = absurd (omega (arith, l))
get-IsOid (x ∷ haves) zero (h, hs) l = h
get-IsOid (x ∷ haves) (suc i) (h, hs) l = get-IsOid haves i hs (omega (arith, l))

pub common_loop_iff :
    (haves : List Oid) (present : List Bool) (oid : Oid)
    → All IsOid haves
    → (has oid (common_loop haves present []) ≡ true) ↔ IsCommon haves present oid
unfolding has
common_loop_iff haves present oid h = (
  has-get (IsCommon haves present) oid (common_loop haves present [])
      (common_loop-IsCommon haves present []),
  λ (i, l, e, o).
      let there =
        common_loop-has haves present [] i l e
          (oid-lower (get_or haves i []) (get-IsOid haves i h l).0) in
      subst (λ x. has x (common_loop haves present []) ≡ true) o
        (or-false (has (lower (get_or haves i [])) (common_loop haves present [])) there),
)
  where
    or-false : (b : Bool) → (b || false) ≡ true → b ≡ true
    or-false true e = refl
    or-false false e = e
