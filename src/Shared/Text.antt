-- ===== src/Shared/Text.antt =====
-- Texts: native strings where whole texts are compared, lists of codes where they are walked.
use Prim.Native.Char.{code}
use text.Mathlib.Text.{◌==◌}
use text.Mathlib.TextEquality.{eq_iff}
use gitedge.Shared.Tests
use gitedge.Shared.Tests.{leb, if◌then◌else◌}
use Prim.Native.Nat.{◌+◌}
use mathlib.Core.Bool.{◌||◌}
use Prim.Native.Nat.{ℕ}
use Prim.Native.String.{String}
use mathlib.Core.Path.{◌≡◌, refl}
use mathlib.Core.Logic.{◌↔◌}
use mathlib.Core.Bool.{Bool, true, false, ◌&&◌}
use mathlib.Core.List.{List, [], ◌∷◌}
use native.Mathlib.Omega.{arith}

-- `a === b` on texts.
abbrev pub str_eq : String → String → Bool
str_eq a b = a == b

pub str_eq_iff : (a b : String) → (str_eq a b ≡ true) ↔ (a ≡ b)
str_eq_iff a b = eq_iff a b

abbrev pub codes : String → List ℕ
codes String.[] = []
codes (String.◌∷◌ c s) = code c ∷ codes s

-- `!s` on a text.
abbrev pub is_empty : String → Bool
is_empty String.[] = true
is_empty (String.◌∷◌ c s) = false

-- Equality of two lists of codes.
unfoldable pub codes_eq : List ℕ → List ℕ → Bool
codes_eq [] [] = true
codes_eq [] (y ∷ ys) = false
codes_eq (x ∷ xs) [] = false
codes_eq (x ∷ xs) (y ∷ ys) = Tests.◌==◌ x y && codes_eq xs ys

pub codes_eq_iff : (xs ys : List ℕ) → (codes_eq xs ys ≡ true) ↔ (xs ≡ ys)
unfolding codes_eq
codes_eq_iff [] [] = (λ _. refl, λ _. refl)
codes_eq_iff [] (y ∷ ys) = (λ h. cc, λ h. cc)
codes_eq_iff (x ∷ xs) [] = (λ h. cc, λ h. cc)
codes_eq_iff (x ∷ xs) (y ∷ ys) = ground (arith, codes_eq_iff xs ys)

-- `s.startsWith(p)`, `s.endsWith(p)` and `s.includes(p)` on codes.
unfoldable pub starts_with : List ℕ → List ℕ → Bool
starts_with [] s = true
starts_with (p ∷ ps) [] = false
starts_with (p ∷ ps) (c ∷ s) = Tests.◌==◌ p c && starts_with ps s

unfoldable pub ends_with : List ℕ → List ℕ → Bool
unfolding codes_eq
ends_with p [] = codes_eq p []
ends_with p (c ∷ s) = codes_eq p (c ∷ s) || ends_with p s

unfoldable pub includes : List ℕ → List ℕ → Bool
unfolding starts_with
includes p [] = starts_with p []
includes p (c ∷ s) = starts_with p (c ∷ s) || includes p s

-- `s.split(c)` at one character.
unfoldable pub push_code : ℕ → List (List ℕ) → List (List ℕ)
push_code x [] = (x ∷ []) ∷ []
push_code x (w ∷ ws) = (x ∷ w) ∷ ws

unfoldable pub split : ℕ → List ℕ → List (List ℕ)
unfolding push_code
split c [] = [] ∷ []
split c (x ∷ xs) = if Tests.◌==◌ x c then [] ∷ split c xs else push_code x (split c xs)

-- `s.toLowerCase()` on ASCII.
unfoldable pub to_lower : ℕ → ℕ
to_lower c = if leb b'A' c && leb c b'Z' then c + 32 else c
