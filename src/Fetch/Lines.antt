-- ===== src/Fetch/Lines.antt =====
-- Lines of a request: what is trimmed from a text that ends with a line feed, and how it starts.
use gitedge.Shared.{
  ℕ, ◌<◌, ◌≡◌, ◌≢◌, refl, ap, true, false, List, [], ◌∷◌, ◌++◌, is_nil, All, arith,
}
use gitedge.Shared.Text.{starts_with}
use gitedge.PktLine.{is_space, chomp}
use gitedge.Push.{trim_end}

-- ASCII without white space.
abbrev pub IsPlain : List ℕ → Type 0
IsPlain w = All (λ c. (is_space c ≡ false) × (c < 128)) w

pub trim_end-line : (w : List ℕ) → IsPlain w → trim_end (w ++ (10 ∷ [])) ≡ w
unfolding trim_end
trim_end-line [] h = unfold is_space in refl
trim_end-line (c ∷ w) ((n, _), h) = rw (trim_end-line w h) (ground (arith, n))

pub trim_end-append :
    (p s : List ℕ) → is_nil (trim_end s) ≡ false → trim_end (p ++ s) ≡ p ++ trim_end s
unfolding trim_end
trim_end-append [] s h = refl
trim_end-append (c ∷ p) s h =
    rw (trim_end-append p s h) (ground (arith, nil-append p (trim_end s) h))
  where
    nil-append : (xs ys : List ℕ) → is_nil ys ≡ false → is_nil (xs ++ ys) ≡ false
    nil-append [] ys e = e
    nil-append (x ∷ xs) ys e = refl

pub chomp-line : (w : List ℕ) → All (λ c. c ≢ 13) w → chomp (w ++ (10 ∷ [])) ≡ w
unfolding chomp
chomp-line [] h = refl
chomp-line (c ∷ []) (n, h) = ground (arith, n)
chomp-line (c ∷ d ∷ []) (n, h) = ap (◌∷◌ c) (chomp-line (d ∷ []) h)
chomp-line (c ∷ d ∷ e ∷ w) (n, h) = ap (◌∷◌ c) (chomp-line (d ∷ e ∷ w) h)

space_not : (c : ℕ) → is_space c ≡ false → c ≢ b' '
unfolding is_space
space_not c n e = ground (arith, n, e)

-- A word does not start with a text that ends with a space.
pub word-starts : (p w : List ℕ) → IsPlain w → starts_with (p ++ (b' ' ∷ [])) w ≡ false
unfolding starts_with
word-starts [] [] h = refl
word-starts [] (c ∷ w) ((n, _), h) = ground (arith, space_not c n)
word-starts (p ∷ ps) [] h = refl
word-starts (p ∷ ps) (c ∷ w) ((n, _), h) = ground (arith, word-starts ps w h)

space_return : (c : ℕ) → is_space c ≡ false → c ≢ 13
unfolding is_space
space_return c n e = ground (arith, n, e)

pub no_return : (w : List ℕ) → IsPlain w → All (λ c. c ≢ 13) w
no_return [] h = tt
no_return (c ∷ w) ((n, _), h) = (space_return c n, no_return w h)

pub starts-append : (p s : List ℕ) → starts_with p (p ++ s) ≡ true
unfolding starts_with
starts-append [] s = refl
starts-append (c ∷ p) s = ground (arith, starts-append p s)
