-- ===== src/Repo/Refs/Names.antt =====
-- What `isValidRefName` lets through.
use gitedge.Shared.{
  ℕ, ◌<◌, Bool, true, false, List, [], ◌∷◌, ◌++◌, ◌≡◌, ◌≢◌, refl, ◌==◌, if◌then◌else◌, every, any,
  is_nil, All, All-map, Bool-cases, inl, inr, arith,
}
use gitedge.Shared.Text.{codes, codes_eq_iff, starts_with, ends_with, includes, split, push_code}
use gitedge.Repo.Refs.{is_forbidden, is_dots, is_valid_ref_codes}

starts_with_split : (p s : List ℕ) → starts_with p s ≡ true → (rest : List ℕ) × (s ≡ p ++ rest)
unfolding starts_with
starts_with_split [] s h = (s, refl)
starts_with_split (p ∷ ps) [] h = absurd (ground arith)
starts_with_split (p ∷ ps) (c ∷ s) h =
    let (rest, e) = starts_with_split ps s (ground arith) in (rest, ground arith)

any-eq-false {ℓ} :
    {A : Type ℓ} (p : A → Bool) (xs : List A) → any p xs ≡ false → All (λ x. p x ≡ false) xs
any-eq-false p [] h = tt
any-eq-false p (x ∷ xs) h = (ground arith, any-eq-false p xs (ground arith))

abbrev has_codes : List ℕ → Bool
has_codes w = if is_nil w then false else true

abbrev first_has : List (List ℕ) → Bool
first_has [] = false
first_has (w ∷ ws) = has_codes w

abbrev rest_has : List (List ℕ) → Bool
rest_has [] = false
rest_has (w ∷ ws) = every has_codes ws

-- One more character in front of a text whose parts are `ws`.
split_step :
    (x : ℕ) (xs : List ℕ) (ws : List (List ℕ))
    → includes (codes "//") (x ∷ xs) ≡ false
    → ends_with (codes "/") (x ∷ xs) ≡ false
    → rest_has ws ≡ true
    → (starts_with (codes "/") xs ≡ false → is_nil xs ≡ false → first_has ws ≡ true)
    → (rest_has (if x == b'/' then [] ∷ ws else push_code x ws) ≡ true)
      × (starts_with (codes "/") (x ∷ xs) ≡ false
          → first_has (if x == b'/' then [] ∷ ws else push_code x ws) ≡ true)
unfolding includes ends_with push_code
split_step x xs [] h k r f = absurd (ground arith)
split_step x [] (w ∷ ws) h k r f = ground arith
split_step x (y ∷ ys) (w ∷ ws) h k r f = elim (Bool-cases (x == b'/')) [
  | inl e ↦ ground (arith, f (ground arith) refl)
  | inr e ↦ ground arith
]

-- Without `//` and with no slash at the end, no part but the first can be empty.
split_parts :
    (s : List ℕ)
    → includes (codes "//") s ≡ false
    → ends_with (codes "/") s ≡ false
    → (rest_has (split b'/' s) ≡ true)
      × (starts_with (codes "/") s ≡ false → is_nil s ≡ false → first_has (split b'/' s) ≡ true)
unfolding split
split_parts [] h k = (refl, λ _ e. cc)
split_parts (x ∷ xs) h k =
    let (r, f) =
      split_parts xs (unfold includes in ground arith) (unfold ends_with in ground arith) in
    let (r', f') = split_step x xs (split b'/' xs) h k r f in (r', λ e _. f' e)

-- A code that no rule of the pattern `[\x00-\x20~^:?*\[]` excludes.
abbrev IsAllowed : ℕ → Type 0
IsAllowed c =
    (0x20 < c) × (c ≢ b'~') × (c ≢ b'^') × (c ≢ b':') × (c ≢ b'?') × (c ≢ b'*') × (c ≢ b'[')

is_forbidden→IsAllowed : (c : ℕ) → is_forbidden c ≡ false → IsAllowed c
unfolding is_forbidden
is_forbidden→IsAllowed c h = ground arith

-- A part of a path: not empty, and neither `.` nor `..`.
abbrev IsPart : List ℕ → Type 0
IsPart w = (w ≢ []) × (w ≢ codes ".") × (w ≢ codes "..")

has_codes-IsPart : (w : List ℕ) → has_codes w ≡ true → is_dots w ≡ false → IsPart w
unfolding is_dots
has_codes-IsPart w h d = (
  λ e. ground arith,
  λ e. ground (arith, codes_eq_iff w (codes ".")),
  λ e. ground (arith, codes_eq_iff w (codes "..")),
)

parts_of_rest :
    (ws : List (List ℕ)) → every has_codes ws ≡ true → any is_dots ws ≡ false → All IsPart ws
parts_of_rest [] r d = tt
parts_of_rest (w ∷ ws) r d = (
  has_codes-IsPart w (ground arith) (ground arith),
  parts_of_rest ws (ground arith) (ground arith),
)

parts_of :
    (ws : List (List ℕ))
    → first_has ws ≡ true
    → rest_has ws ≡ true
    → any is_dots ws ≡ false
    → All IsPart ws
parts_of [] f r d = absurd (ground arith)
parts_of (w ∷ ws) f r d = (has_codes-IsPart w f (ground arith), parts_of_rest ws r (ground arith))

pub record IsRefName (s : List ℕ) : Type 0 where
  pub prefix : (rest : List ℕ) × (s ≡ codes "refs/" ++ rest)
  pub clean : All IsAllowed s
  pub parts : All IsPart (split b'/' s)
  pub no_dot : ends_with (codes ".") s ≡ false
  pub no_lock : ends_with (codes ".lock") s ≡ false
  pub no_reflog : includes (codes "@{") s ≡ false
  pub no_backslash : includes (codes "\\") s ≡ false

-- A name that passes starts with `refs/`, has no control character, space or pattern character,
-- no backslash, no `@{`, no `.` or `.lock` at the end, and is cut by `/` into parts that are
-- neither empty nor `.` nor `..`.
pub is_valid-IsRefName : (s : List ℕ) → is_valid_ref_codes s ≡ true → IsRefName s
unfolding is_valid_ref_codes
is_valid-IsRefName s h = record {
  prefix = starts_with_split (codes "refs/") s (ground arith);
  clean = All-map _ IsAllowed is_forbidden→IsAllowed s (any-eq-false is_forbidden s (ground arith));
  parts =
      parts_of (split b'/' s) (split_ok.1 (ground arith) (ground arith)) split_ok.0 (ground arith);
  no_dot = ground arith;
  no_lock = ground arith;
  no_reflog = ground arith;
  no_backslash = ground arith;
}
  where
    split_ok :
        (rest_has (split b'/' s) ≡ true)
        × (starts_with (codes "/") s ≡ false → is_nil s ≡ false → first_has (split b'/' s) ≡ true)
    split_ok = split_parts s (ground arith) (ground arith)
