-- ===== src/Closure/Weights.antt =====
-- Sums over names, and how much a map of references holds.
use gitedge.Shared.{
  ℕ, ◌+◌, ◌≤◌, ◌≡◌, refl, sym, ap, ◌∙◌, true, List, [], ◌∷◌, Option, none, some, not, keep, length,
  length-append, length-keep-le, Bool-cases, Option-cases, inl, inr, arith,
}
use mathlib.Core.Path.{subst}
use mathlib.Core.Option.{some-injective, none-ne-some}
use gitedge.Shared.Text.{codes_eq, codes_eq_iff}
use gitedge.Closure.{Oid, lower, has, Refs, lookup, insert, memo_hits, batch_refs, new_refs}
use gitedge.Closure.Rounds.{lookup-insert, Entries}

-- Sums over a list of names.
abbrev pub total : (Oid → ℕ) → List Oid → ℕ
total f [] = 0
total f (u ∷ us) = f u + total f us

pub total-le : (f g : Oid → ℕ) (us : List Oid) → ((u : Oid) → f u ≤ g u) → total f us ≤ total g us
total-le f g [] h = omega arith
total-le f g (u ∷ us) h = omega (arith, h u, total-le f g us h)

pub total-add :
    (f g h : Oid → ℕ) (us : List Oid)
    → ((u : Oid) → f u + g u ≤ h u)
    → total f us + total g us ≤ total h us
total-add f g h [] p = omega arith
total-add f g h (u ∷ us) p = omega (arith, p u, total-add f g h us p)

-- How much a name has in a map.
abbrev pub size : Option (List Oid) → ℕ
size none = 0
size (some refs) = length refs

-- No key stands twice.
abbrev pub IsMap : Refs → Type 0
IsMap [] = Unit
IsMap ((o, refs) ∷ m) = (lookup o m ≡ none) × IsMap m

abbrev pub refs_total : Refs → ℕ
refs_total [] = 0
refs_total ((o, refs) ∷ m) = length refs + refs_total m

insert-IsMap : (o : Oid) (refs : List Oid) (m : Refs) → IsMap m → IsMap (insert o refs m)
unfolding insert lookup
insert-IsMap o refs [] h = (refl, tt)
insert-IsMap o refs ((k, old) ∷ m) (n, h) = elim (Bool-cases (codes_eq o k)) [
  | inl y ↦ rw y (n, h)
  | inr f ↦ rw f (
    lookup-insert k o refs m ∙ ground (arith, n, f, codes_eq_iff o k, codes_eq_iff k o),
    insert-IsMap o refs m h,
  )
]

pub memo_hits-IsMap :
    (memo : Option Refs) (oids : List Oid) (m : Refs) → IsMap m → IsMap (memo_hits memo oids m)
unfolding memo_hits
memo_hits-IsMap none oids m h = h
memo_hits-IsMap (some memo) [] m h = h
memo_hits-IsMap (some memo) (o ∷ oids) m h = elim (Option-cases (lookup (lower o) memo)) [
  | inl n ↦ rw (n, memo_hits) (memo_hits-IsMap (some memo) oids m h)
  | inr (refs, s) ↦
      rw (s, memo_hits)
        (memo_hits-IsMap (some memo) oids (insert o refs m) (insert-IsMap o refs m h))
]

pub batch_refs-IsMap :
    (batch : Refs) (oids : List Oid) (m : Refs) → IsMap m → IsMap (batch_refs batch oids m)
unfolding batch_refs
batch_refs-IsMap batch [] m h = h
batch_refs-IsMap batch (o ∷ oids) m h = elim (Option-cases (lookup o batch)) [
  | inl n ↦ rw (n, batch_refs) (batch_refs-IsMap batch oids m h)
  | inr (refs, s) ↦
      rw (s, batch_refs) (batch_refs-IsMap batch oids (insert o refs m) (insert-IsMap o refs m h))
]

pub length-new_refs : (seen : List Oid) (m : Refs) → length (new_refs seen m) ≤ refs_total m
unfolding new_refs
length-new_refs seen [] = omega arith
length-new_refs seen ((o, refs) ∷ m) = omega (
  arith,
  length-new_refs seen m,
  length-keep-le (λ r. not (has r seen)) refs,
  length-append (keep (λ r. not (has r seen)) refs) (new_refs seen m),
)

-- An entry more, under a new key that stands among the names.
total-cons :
    (o : Oid) (refs : List Oid) (m : Refs) (us : List Oid)
    → lookup o m ≡ none
    → has o us ≡ true
    → length refs + total (λ u. size (lookup u m)) us
      ≤ total (λ u. size (lookup u ((o, refs) ∷ m))) us
unfolding has lookup
total-cons o refs m [] n h = absurd (ground arith)
total-cons o refs m (u ∷ us) n h = elim (Bool-cases (codes_eq u o)) [
  | inl y ↦
      let none_here : lookup u m ≡ none = ap (λ z. lookup z m) ((codes_eq_iff u o).0 y) ∙ n in
      let more =
        total-le (λ x. size (lookup x m)) (λ x. size (lookup x ((o, refs) ∷ m))) us
          (grow o refs m n) in
      rw (y, none_here) (omega (arith, more))
  | inr f ↦
      let rest =
        total-cons o refs m us n (ground (arith, f, h, codes_eq_iff o u, codes_eq_iff u o)) in
      rw f (omega (arith, rest))
]
  where
    grow :
        (o : Oid) (refs : List Oid) (m : Refs)
        → lookup o m ≡ none
        → (x : Oid) → size (lookup x m) ≤ size (lookup x ((o, refs) ∷ m))
    grow o refs m n x = elim (Bool-cases (codes_eq x o)) [
      | inl y ↦
          let gone : lookup x m ≡ none = ap (λ z. lookup z m) ((codes_eq_iff x o).0 y) ∙ n in
          rw (gone, y) (omega arith)
      | inr f ↦ rw f (omega arith)
    ]

pub refs_total-le :
    (m : Refs) (us : List Oid)
    → IsMap m
    → Entries (λ o refs. has o us ≡ true) m
    → refs_total m ≤ total (λ u. size (lookup u m)) us
refs_total-le [] us h e = omega arith
refs_total-le ((o, refs) ∷ m) us (n, h) (i, e) =
    omega (arith, refs_total-le m us h e, total-cons o refs m us n i)

pub Entries-lookup :
    (P : Oid → List Oid → Type 0) (m : Refs) (o : Oid) (refs : List Oid)
    → Entries P m
    → lookup o m ≡ some refs
    → P o refs
unfolding lookup
Entries-lookup P [] o refs h e = absurd (none-ne-some refs e)
Entries-lookup P ((k, r) ∷ m) o refs (p, h) e = elim (Bool-cases (codes_eq o k)) [
  | inl y ↦
      let same : r ≡ refs = some-injective r refs (rw y at e) in
      subst (λ z. P z refs) (sym ((codes_eq_iff o k).0 y)) (subst (P k) same p)
  | inr n ↦ Entries-lookup P m o refs h (rw n at e)
]

pub Entries-map :
    (P Q : Oid → List Oid → Type 0) (m : Refs)
    → ((o : Oid) (refs : List Oid) → P o refs → Q o refs)
    → Entries P m
    → Entries Q m
Entries-map P Q [] f h = tt
Entries-map P Q ((o, refs) ∷ m) f (p, h) = (f o refs p, Entries-map P Q m f h)
