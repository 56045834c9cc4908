-- ===== src/PackMeta/Distance.antt =====
-- A distance that is written is read back.
use gitedge.Shared.{
  ℕ, zero, suc, ◌+◌, ◌-◌, ◌*◌, ◌/◌, ◌%◌, ◌<◌, ◌≡◌, ◌≢◌, refl, ◌∙◌, ap, true, false, List, [], ◌∷◌,
  ◌++◌, Option, none, some, map, ◌==◌, length, length-append, All, Bool-cases, inl, inr, arith,
}
use gitedge.PackMeta.{
  distance_groups, reversed, flag_but_last, encode_ofs_delta_distance, count_groups,
  ofs_delta_distance_length, read_more, read_distance,
}

-- The number that groups stand for, the lowest first.
value : List ℕ → ℕ
value [] = 0
value (g ∷ []) = g
value (g ∷ h ∷ gs) = (value (h ∷ gs) + 1) * 128 + g

-- What is read after the groups so far, which stand for `v`.
read_from : ℕ → List ℕ → Option (ℕ × List ℕ)
read_from v [] = none
read_from v (b ∷ bytes) = read_more ((v + 1) * 128 % 4294967296 + b % 128) b bytes

abbrev flagged : List ℕ → List ℕ
flagged = map (λ g. g + 128)

append-append {ℓ} : {A : Type ℓ} (xs ys zs : List A) → (xs ++ ys) ++ zs ≡ xs ++ (ys ++ zs)
append-append [] ys zs = refl
append-append (x ∷ xs) ys zs = ap (◌∷◌ x) (append-append xs ys zs)

flagged-append : (xs ys : List ℕ) → flagged (xs ++ ys) ≡ flagged xs ++ flagged ys
flagged-append [] ys = refl
flagged-append (x ∷ xs) ys = ap (◌∷◌ (x + 128)) (flagged-append xs ys)

more_flagged : (d g : ℕ) (t : List ℕ) → read_more d (g + 128) t ≡ read_from d t
unfolding read_more read_from
more_flagged d g [] = ground arith
more_flagged d g (b ∷ t) = ground arith

read-flagged :
    (g : ℕ) (gs t : List ℕ)
    → All (λ x. x < 128) (g ∷ gs)
    → value (g ∷ gs) < 4294967296
    → read_distance (flagged (reversed (g ∷ gs)) ++ t) ≡ read_from (value (g ∷ gs)) t
unfolding read_distance reversed value read_from
read-flagged g [] t (small, _) h =
    ap (λ d. read_more d (g + 128) t) (omega arith) ∙ more_flagged g g t
read-flagged g (k ∷ gs) t (small, rest) h =
    ap read_distance (
      ap (◌++ t) (flagged-append (reversed (k ∷ gs)) (g ∷ []))
      ∙ append-append (flagged (reversed (k ∷ gs))) ((g + 128) ∷ []) t)
    ∙ read-flagged k gs ((g + 128) ∷ t) rest (omega arith)
    ∙ ap (λ d. read_more d (g + 128) t) (omega arith)
    ∙ more_flagged (value (g ∷ k ∷ gs)) g t

unfoldable pub pow128 : ℕ → ℕ
pow128 zero = 1
pow128 (suc f) = pow128 f * 128

groups-last :
    (f current : ℕ) → (current / 128 == 0) ≡ true → distance_groups (suc f) current ≡ current ∷ []
unfolding distance_groups
groups-last f current h = ground arith

groups-more :
    (f current : ℕ)
    → (current / 128 == 0) ≡ false
    → distance_groups (suc f) current ≡ current % 128 ∷ distance_groups f (current / 128 - 1)
unfolding distance_groups
groups-more f current h = ground arith

value-cons :
    (g f current : ℕ)
    → value (g ∷ distance_groups (suc f) current)
      ≡ (value (distance_groups (suc f) current) + 1) * 128 + g
unfolding distance_groups value
value-cons g f current = refl

groups-value :
    (f current : ℕ)
    → current < pow128 (suc f)
    → (value (distance_groups (suc f) current) ≡ current)
      × All (λ x. x < 128) (distance_groups (suc f) current)
groups-value zero current h =
    let y : (current / 128 == 0) ≡ true = unfold pow128 in ground arith in
    rw (groups-last 0 current y) (unfold value in refl, (unfold pow128 in omega arith, tt))
groups-value (suc f) current h = elim (Bool-cases (current / 128 == 0)) [
  | inl y ↦ rw (groups-last (suc f) current y) (unfold value in refl, (ground arith, tt))
  | inr n ↦
      let smaller : current / 128 - 1 < pow128 (suc f) = unfold pow128 in ground arith in
      let (same, small) = groups-value f (current / 128 - 1) smaller in
      rw (groups-more (suc f) current n) (
        value-cons (current % 128) f (current / 128 - 1) ∙ ground (arith, same),
        (omega arith, small),
      )
]

-- The last group is not flagged.
flag-append : (g : ℕ) (xs : List ℕ) → flag_but_last (xs ++ (g ∷ [])) ≡ flagged xs ++ (g ∷ [])
unfolding flag_but_last
flag-append g [] = refl
flag-append g (x ∷ []) = refl
flag-append g (x ∷ y ∷ xs) = ap (◌∷◌ (x + 128)) (flag-append g (y ∷ xs))

more_plain : (d g : ℕ) (t : List ℕ) → g < 128 → read_more d g t ≡ some (d, t)
unfolding read_more
more_plain d g [] h = ground arith
more_plain d g (b ∷ t) h = ground arith

read-groups :
    (g : ℕ) (gs rest : List ℕ)
    → All (λ x. x < 128) (g ∷ gs)
    → value (g ∷ gs) < 4294967296
    → read_distance (flag_but_last (reversed (g ∷ gs)) ++ rest) ≡ some (value (g ∷ gs), rest)
unfolding reversed value
read-groups g [] rest (small, _) h =
    unfold read_distance flag_but_last in
    ap (λ d. read_more d g rest) (omega arith) ∙ more_plain g g rest small
read-groups g (k ∷ gs) rest (small, others) h =
    ap read_distance (
      ap (◌++ rest) (flag-append g (reversed (k ∷ gs)))
      ∙ append-append (flagged (reversed (k ∷ gs))) (g ∷ []) rest)
    ∙ read-flagged k gs (g ∷ rest) others (omega arith)
    ∙ unfold read_from in
      ap (λ d. read_more d g rest) (omega arith) ∙ more_plain (value (g ∷ k ∷ gs)) g rest small

read-any :
    (gs rest : List ℕ)
    → gs ≢ []
    → All (λ x. x < 128) gs
    → value gs < 4294967296
    → read_distance (flag_but_last (reversed gs) ++ rest) ≡ some (value gs, rest)
read-any [] rest n h l = absurd (n refl)
read-any (g ∷ gs) rest n h l = read-groups g gs rest h l

-- The 32 bits of a distance that is written come back, and the rest is left.
pub read-encode :
    (rel : ℕ) (rest : List ℕ)
    → rel < 4294967296
    → read_distance (encode_ofs_delta_distance rel ++ rest) ≡ some (rel, rest)
unfolding encode_ofs_delta_distance
read-encode rel rest h = elim (Bool-cases (rel == 0)) [
  | inl y ↦
      let z : rel ≡ 0 = ground arith in
      rw (y, z) (unfold read_distance in more_plain 0 0 rest (omega arith))
  | inr n ↦
      let e : rel % 4294967296 ≡ rel = omega arith in
      let (same, small) = groups-value 4 rel (unfold pow128 in omega arith) in
      rw (n, e)
        (read-any (distance_groups 5 rel) rest (unfold distance_groups in λ q. cc) small
            (omega (arith, same))
          ∙ ap (λ v. some (v, rest)) same)
]

length-flag : (xs : List ℕ) → length (flag_but_last xs) ≡ length xs
unfolding flag_but_last
length-flag [] = refl
length-flag (g ∷ []) = refl
length-flag (g ∷ h ∷ gs) = omega (arith, length-flag (h ∷ gs))

length-reversed : (xs : List ℕ) → length (reversed xs) ≡ length xs
unfolding reversed
length-reversed [] = refl
length-reversed (x ∷ xs) = omega (arith, length-append (reversed xs) (x ∷ []), length-reversed xs)

count-groups : (f current : ℕ) → count_groups f current ≡ length (distance_groups f current)
unfolding count_groups distance_groups
count-groups zero current = refl
count-groups (suc f) current = ground (arith, count-groups f (current / 128 - 1))

-- For every distance the count without the encoding is the length of the encoding.
pub length-encode :
    (rel : ℕ) → ofs_delta_distance_length rel ≡ length (encode_ofs_delta_distance rel)
unfolding ofs_delta_distance_length encode_ofs_delta_distance
length-encode rel = ground (
  arith,
  count-groups 5 (rel % 4294967296),
  length-flag (reversed (distance_groups 5 (rel % 4294967296))),
  length-reversed (distance_groups 5 (rel % 4294967296)),
)
