-- ===== src/Objects/Tree.antt =====
-- Trees: `parseTree` and `parseTreeChildOids`, on whole trees and on trees that are cut.
use gitedge.Shared.{
  ℕ, zero, suc, ◌+◌, ◌-◌, ◌≤◌, ◌<◌, ◌≡◌, ◌≢◌, ◌⊎◌, refl, ap, ◌∙◌, true, false, List, [], ◌∷◌, ◌++◌,
  map, ltb, ◌==◌, if◌then◌else◌, length, take, drop, All, All-take, length-append, length-take,
  take-length, take-all, drop-all, drop-length, Bool-cases, inl, inr, arith,
}
use mathlib.Core.Path.{subst}
use mathlib.Core.List.{append_assoc}
use gitedge.Objects.{bytes_to_hex, TreeEntry, tree_loop, parse_tree}
use gitedge.Objects.Raw.{until-append, from-append, from-none}

-- An entry as it stands in a tree.
pub record RawEntry : Type 0 where
  pub mode : List ℕ
  pub name : List ℕ
  pub oid : List ℕ

abbrev pub IsRawEntry : RawEntry → Type 0
IsRawEntry e = All (λ c. c ≢ b' ') e.mode × All (λ c. c ≢ 0) e.name × (length e.oid ≡ 20)

abbrev pub entry_bytes : RawEntry → List ℕ
entry_bytes e = e.mode ++ (b' ' ∷ (e.name ++ (0 ∷ e.oid)))

abbrev pub tree_bytes : List RawEntry → List ℕ
tree_bytes [] = []
tree_bytes (e ∷ es) = entry_bytes e ++ tree_bytes es

-- What `parseTree` has to say of an entry, if the bytes of its name of an object are `oid`.
abbrev pub entry_of : (List ℕ → List ℕ) → RawEntry → List ℕ → TreeEntry
entry_of decode e oid = record {
  mode = decode e.mode;
  name = decode e.name;
  oid = bytes_to_hex oid;
}

-- A prefix of two lists ends in the first or in the second.
take_cases {ℓ} :
    {A : Type ℓ} (n : ℕ) (xs ys : List A)
    → ((n ≤ length xs) × (take n (xs ++ ys) ≡ take n xs))
      ⊎ ((k : ℕ) × (n ≡ suc k + length xs) × (take n (xs ++ ys) ≡ xs ++ take (suc k) ys))
take_cases zero [] [] = inl (omega arith, refl)
take_cases zero [] (y ∷ ys) = inl (omega arith, refl)
take_cases zero (x ∷ xs) ys = inl (omega arith, refl)
take_cases (suc n) [] ys = inr (n, omega arith, refl)
take_cases (suc n) (x ∷ xs) ys = elim (take_cases n xs ys) [
  | inl (h, e) ↦ inl (omega (arith, h), ap (◌∷◌ x) e)
  | inr (k, h, e) ↦ inr (k, omega (arith, h), ap (◌∷◌ x) e)
]

-- One round of the loop: no space, no NUL, and both.
loop_no_space :
    (decode : List ℕ → List ℕ) (fuel : ℕ) (w : List ℕ)
    → All (λ c. c ≢ b' ') w
    → tree_loop decode fuel w ≡ []
unfolding tree_loop
loop_no_space decode zero w h = refl
loop_no_space decode (suc fuel) w h = let none = from-none b' ' w h in rw (none, tree_loop) refl

loop_no_nul :
    (decode : List ℕ → List ℕ) (fuel : ℕ) (mode w : List ℕ)
    → All (λ c. c ≢ b' ') mode
    → All (λ c. c ≢ 0) w
    → tree_loop decode fuel (mode ++ (b' ' ∷ w)) ≡ []
unfolding tree_loop
loop_no_nul decode zero mode w m h = refl
loop_no_nul decode (suc fuel) mode w m h =
    let space = from-append b' ' mode w m in
    let none = from-none 0 w h in rw (tree_loop, space, none) refl

loop_entry :
    (decode : List ℕ → List ℕ) (fuel : ℕ) (mode name s : List ℕ)
    → All (λ c. c ≢ b' ') mode
    → All (λ c. c ≢ 0) name
    → tree_loop decode (suc fuel) (mode ++ (b' ' ∷ (name ++ (0 ∷ s)))) ≡ (
        if ltb (suc (length s)) 20
        then []
        else (record { mode = decode mode; name = decode name; oid = bytes_to_hex (take 20 s) })
          ∷ tree_loop decode fuel (drop 20 s))
unfolding tree_loop bytes_to_hex
loop_entry decode fuel mode name s m h =
    let space = from-append b' ' mode (name ++ (0 ∷ s)) m in
    let before = until-append b' ' mode (name ++ (0 ∷ s)) m in
    let nul = from-append 0 name s h in
    let between = until-append 0 name s h in rw (tree_loop, space, before, nul, between) refl

loop_nil : (decode : List ℕ → List ℕ) (fuel : ℕ) → tree_loop decode fuel [] ≡ []
loop_nil decode fuel = loop_no_space decode fuel [] tt

-- Behind a whole entry the loop goes on.
loop_whole :
    (decode : List ℕ → List ℕ) (fuel : ℕ) (e : RawEntry) (s : List ℕ)
    → IsRawEntry e
    → tree_loop decode (suc fuel) (entry_bytes e ++ s)
      ≡ entry_of decode e e.oid ∷ tree_loop decode fuel s
loop_whole decode fuel e s (m, h, long) =
    let whole : entry_bytes e ++ s ≡ e.mode ++ (b' ' ∷ (e.name ++ (0 ∷ (e.oid ++ s)))) =
      simp append_assoc in
    let many = length-append e.oid s in
    let enough : ltb (suc (length (e.oid ++ s))) 20 ≡ false = ground (arith, many, long) in
    let name : take 20 (e.oid ++ s) ≡ e.oid =
      subst (λ n. take n (e.oid ++ s) ≡ e.oid) long (take-length e.oid s) in
    let rest : drop 20 (e.oid ++ s) ≡ s =
      subst (λ n. drop n (e.oid ++ s) ≡ s) long (drop-length e.oid s) in
    ap (tree_loop decode (suc fuel)) whole
    ∙ loop_entry decode fuel e.mode e.name (e.oid ++ s) m h
    ∙ rw (enough, name, rest) refl

-- An entry that is cut inside its name of an object, which keeps `j` bytes.
loop_cut :
    (decode : List ℕ → List ℕ) (fuel j : ℕ) (e : RawEntry)
    → IsRawEntry e
    → j < 20
    → tree_loop decode (suc fuel) (e.mode ++ (b' ' ∷ (e.name ++ (0 ∷ take j e.oid))))
      ≡ (if j == 19 then entry_of decode e (take 19 e.oid) ∷ [] else [])
loop_cut decode fuel j e (m, h, long) small =
    let many = length-take j e.oid in
    let all : take 20 (take j e.oid) ≡ take j e.oid =
      take-all 20 (take j e.oid) (omega (arith, many)) in
    let nothing : drop 20 (take j e.oid) ≡ [] = drop-all 20 (take j e.oid) (omega (arith, many)) in
    loop_entry decode fuel e.mode e.name (take j e.oid) m h ∙ elim (Bool-cases (j == 19)) [
      | inl t ↦
          let last : j ≡ 19 = ground (arith, t) in
          let enough : ltb (suc (length (take j e.oid))) 20 ≡ false =
            ground (arith, many, long, last) in
          rw (enough, all, nothing, loop_nil decode fuel, last) refl
      | inr f ↦
          let short : ltb (suc (length (take j e.oid))) 20 ≡ true = ground (arith, many, long, f) in
          rw (short, f) refl
    ]

loop_prefix :
    (decode : List ℕ → List ℕ) (fuel n : ℕ) (e : RawEntry)
    → IsRawEntry e
    → n < length (entry_bytes e)
    → n ≤ fuel
    → tree_loop decode fuel (take n (entry_bytes e))
      ≡ (if suc n == length (entry_bytes e) then entry_of decode e (take 19 e.oid) ∷ [] else [])
loop_prefix decode fuel n e valid less enough =
    let (m, h, long) = valid in
    let size : length (entry_bytes e) ≡ length e.mode + length e.name + 22 = omega (
      arith,
      length-append e.mode (b' ' ∷ (e.name ++ (0 ∷ e.oid))),
      length-append e.name (0 ∷ e.oid),
      long,
    ) in
    let early : n < length e.mode + length e.name + 21 → (suc n == length (entry_bytes e)) ≡ false =
      λ l. ground (arith, size, l) in
    elim (take_cases n e.mode (b' ' ∷ (e.name ++ (0 ∷ e.oid)))) [
      | inl (l, eq) ↦
          let no = early (omega (arith, l)) in
          rw (eq, no)
            (loop_no_space decode fuel (take n e.mode) (All-take (λ c. c ≢ b' ') n e.mode m))
      | inr (k, at, eq) ↦ elim (take_cases k e.name (0 ∷ e.oid)) [
        | inl (l, eq2) ↦
            let no = early (omega (arith, at, l)) in
            rw (eq, eq2, no)
              (loop_no_nul decode fuel e.mode (take k e.name) m (All-take (λ c. c ≢ 0) k e.name h))
        | inr (j, at2, eq2) ↦
            let step : fuel ≡ suc (fuel - 1) = omega (arith, enough, at) in
            let same : (j == 19) ≡ (suc n == length (entry_bytes e)) =
              ground (arith, size, at, at2) in
            rw (eq, eq2, step, ← same)
              (loop_cut decode (fuel - 1) j e valid (omega (arith, less, size, at, at2)))
      ]
    ]

loop_entries :
    (decode : List ℕ → List ℕ) (fuel n : ℕ) (es : List RawEntry) (e : RawEntry)
    → All IsRawEntry es
    → IsRawEntry e
    → n < length (entry_bytes e)
    → length (tree_bytes es) + n ≤ fuel
    → tree_loop decode fuel (tree_bytes es ++ take n (entry_bytes e))
      ≡ map (λ x. entry_of decode x x.oid) es
        ++ (if suc n == length (entry_bytes e) then entry_of decode e (take 19 e.oid) ∷ [] else [])
loop_entries decode fuel n [] e all valid less enough =
    loop_prefix decode fuel n e valid less (omega (arith, enough))
loop_entries decode fuel n (x ∷ es) e (hx, hs) valid less enough =
    let size = length-append (entry_bytes x) (tree_bytes es) in
    let some_bytes = length-append x.mode (b' ' ∷ (x.name ++ (0 ∷ x.oid))) in
    let step : fuel ≡ suc (fuel - 1) = omega (arith, enough, size, some_bytes) in
    ap (tree_loop decode fuel) (append_assoc (entry_bytes x) (tree_bytes es) _)
    ∙ ap (λ f. tree_loop decode f (entry_bytes x ++ (tree_bytes es ++ take n (entry_bytes e)))) step
    ∙ loop_whole decode (fuel - 1) x (tree_bytes es ++ take n (entry_bytes e)) hx
    ∙ ap (◌∷◌ (entry_of decode x x.oid)) (
        loop_entries decode (fuel - 1) n es e hs valid less
          (omega (arith, enough, size, some_bytes)))

-- If the modes of the entries have no space, their names no NUL, and their names of objects twenty
-- bytes, then a tree of some entries, followed by an entry that is cut anywhere, parses to exactly
-- these entries; only if the last byte alone is missing, the cut entry is added, with the nineteen
-- bytes that it has as the name of its object.
pub parse-tree_cut :
    (decode : List ℕ → List ℕ) (es : List RawEntry) (e : RawEntry) (n : ℕ)
    → All IsRawEntry es
    → IsRawEntry e
    → n < length (entry_bytes e)
    → parse_tree decode (tree_bytes es ++ take n (entry_bytes e))
      ≡ map (λ x. entry_of decode x x.oid) es
        ++ (if suc n == length (entry_bytes e) then entry_of decode e (take 19 e.oid) ∷ [] else [])
parse-tree_cut decode es e n all valid less =
    unfold parse_tree in
    loop_entries decode _ n es e all valid less (
      omega (
        arith,
        length-append (tree_bytes es) (take n (entry_bytes e)),
        length-take n (entry_bytes e),
        less,
      ))
