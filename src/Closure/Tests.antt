-- ===== src/Closure/Tests.antt =====
-- A store that answers from a function, and a graph with a cycle.
use gitedge.Shared.{
  ℕ, ◌≤◌, ltb, ◌≡◌, ◌↔◌, refl, ap, ◌∙◌, sym, true, false, List, [], ◌∷◌, Option, none, some,
  if◌then◌else◌, is_nil, or_else, Bool-cases, Option-cases, inl, inr, arith,
}
use mathlib.Core.Path.{subst}
use mathlib.Core.Option.{some-injective, none-ne-some}
use gitedge.Shared.Text.{codes, codes_eq, codes_eq_iff}
use gitedge.Closure.{
  Oid, lower, has, Refs, lookup, Search, search_loop, start_search, find_common_haves, stop_set,
}
use gitedge.Closure.Sound.{Reach, IsTruthful, needed-Reach}
use gitedge.Closure.Complete.{IsTotal}
use gitedge.Closure.Ends.{IsUniverse, rounds, search-selects_iff}

-- Objects without references are missing in the store, and every batch is answered without them.
module _ (refs_of : Oid → List Oid) where
  abbrev table : List Oid → Refs
  table [] = []
  table (o ∷ oids) =
      let rest = table oids in
      if is_nil (refs_of (lower o)) then rest else (o, refs_of (lower o)) ∷ rest

  abbrev store : ℕ → List Oid → Option Refs
  store t oids = some (table oids)

  table-skip :
      (k : Oid) (oids : List Oid)
      → is_nil (refs_of (lower k)) ≡ true
      → table (k ∷ oids) ≡ table oids
  table-skip k oids e = rw e refl

  table-keep :
      (k : Oid) (oids : List Oid)
      → is_nil (refs_of (lower k)) ≡ false
      → table (k ∷ oids) ≡ (k, refs_of (lower k)) ∷ table oids
  table-keep k oids e = rw e refl

  lookup-keep :
      (o k : Oid) (refs : List Oid) (m : Refs)
      → lookup o ((k, refs) ∷ m) ≡ (if codes_eq o k then some refs else lookup o m)
  unfolding lookup
  lookup-keep o k refs m = refl

  table-true :
      (oids : List Oid) (o : Oid) (refs : List Oid)
      → lookup o (table oids) ≡ some refs
      → refs ≡ refs_of (lower o)
  table-true [] o refs e = absurd (none-ne-some refs (unfold lookup in e))
  table-true (k ∷ oids) o refs e = elim (Bool-cases (is_nil (refs_of (lower k)))) [
    | inl y ↦ table-true oids o refs (rw (table-skip k oids y) at e)
    | inr n ↦
        let f =
          sym (lookup-keep o k (refs_of (lower k)) (table oids))
          ∙ (rw (table-keep k oids n) at e) in
        elim (Bool-cases (codes_eq o k)) [
          | inl y ↦
              sym (some-injective (refs_of (lower k)) refs (rw y at f))
              ∙ ap (λ z. refs_of (lower z)) (sym ((codes_eq_iff o k).0 y))
          | inr m ↦ table-true oids o refs (rw m at f)
        ]
  ]

  nil_refs : (xs : List Oid) → is_nil xs ≡ true → xs ≡ []
  nil_refs [] e = refl
  nil_refs (x ∷ xs) e = absurd (ground (arith, e))

  -- A name that is not answered has no references.
  table-none :
      (oids : List Oid) (o : Oid)
      → has o oids ≡ true
      → lookup o (table oids) ≡ none
      → refs_of (lower o) ≡ []
  table-none [] o h e = absurd (unfold has in ground (arith, h))
  table-none (k ∷ oids) o h e = elim (Bool-cases (codes_eq o k)) [
    | inl y ↦
        let same = (codes_eq_iff o k).0 y in
        elim (Bool-cases (is_nil (refs_of (lower k)))) [
          | inl z ↦ subst (λ x. refs_of (lower x) ≡ []) (sym same) (nil_refs (refs_of (lower k)) z)
          | inr n ↦
              let f =
                sym (lookup-keep o k (refs_of (lower k)) (table oids))
                ∙ (rw (table-keep k oids n) at e) in
              absurd (none-ne-some (refs_of (lower k)) (sym (rw y at f)))
        ]
    | inr m ↦
        let later : has o oids ≡ true = rest k oids o h m in
        elim (Bool-cases (is_nil (refs_of (lower k)))) [
          | inl z ↦ table-none oids o later (rw (table-skip k oids z) at e)
          | inr n ↦
              let f =
                sym (lookup-keep o k (refs_of (lower k)) (table oids))
                ∙ (rw (table-keep k oids n) at e) in
              table-none oids o later (rw m at f)
        ]
  ]
    where
      rest :
          (k : Oid) (oids : List Oid) (o : Oid)
          → has o (k ∷ oids) ≡ true
          → codes_eq o k ≡ false
          → has o oids ≡ true
      rest k oids o h m = unfold has in ground (arith, h, m)

  store-IsTruthful : IsTruthful refs_of store
  store-IsTruthful t oids batch o refs e l =
      table-true oids o refs (ap (lookup o) (some-injective (table oids) batch e) ∙ l)

  store-IsTotal : (us : List Oid) → IsTotal us refs_of store
  store-IsTotal us t oids inside = (
    table oids,
    refl,
    λ o h. elim (Option-cases (lookup o (table oids))) [
      | inl n ↦ ap (λ l. or_else l []) n ∙ sym (table-none oids o h n)
      | inr (refs, e) ↦ ap (λ l. or_else l []) e ∙ table-true oids o refs e
    ],
  )

abbrev a : Oid
a = codes "a"

abbrev b : Oid
b = codes "b"

abbrev c : Oid
c = codes "c"

-- `a` refers to `b` and `c`, and `b` to `a`.
abbrev graph : Oid → List Oid
graph o = if codes_eq o a then b ∷ c ∷ [] else if codes_eq o b then a ∷ [] else []

graph_in : (r k : Oid) → has r (graph k) ≡ true → has r (a ∷ b ∷ c ∷ []) ≡ true
unfolding has
graph_in r k h = ground (arith, h)

graph-IsUniverse : IsUniverse (a ∷ []) graph (a ∷ b ∷ c ∷ [])
unfolding has
graph-IsUniverse = (λ x h. ground (arith, h), λ o r i j. graph_in r (lower o) j)

enough : rounds (a ∷ []) graph (a ∷ b ∷ c ∷ []) ≤ 9
unfolding has codes_eq lower
enough = omega arith

search-selects_iff_example :
    (result : Search) × (search_loop
        (c ∷ [])
        (store graph)
        (λ _. false)
        9
        0
        (start_search (a ∷ []) none)
      ≡ some result)
    × ((x : Oid) → (has x result.needed ≡ true) ↔ Reach (a ∷ []) (c ∷ []) graph x)
search-selects_iff_example =
    search-selects_iff (a ∷ []) (c ∷ []) graph (store graph) (a ∷ b ∷ c ∷ []) none 9
      (store-IsTruthful graph) (store-IsTotal graph (a ∷ b ∷ c ∷ [])) tt graph-IsUniverse enough

-- One round with the whole time, and then the timeout.
abbrev cut_short : Search
cut_short = record {
  queue = b ∷ c ∷ [];
  seen = a ∷ [];
  needed = a ∷ [];
  memo = none;
  timed_out = false;
}

cut_short_run :
    search_loop (c ∷ []) (store graph) (λ t. ltb 0 t) 9 0 (start_search (a ∷ []) none)
    ≡ some cut_short
unfolding search_loop gitedge.Closure.search_round gitedge.Closure.expand gitedge.Closure.mark_all
    gitedge.Closure.mark gitedge.Closure.memo_hits gitedge.Closure.batch_refs
    gitedge.Closure.memo_refs gitedge.Closure.new_refs gitedge.Closure.answer
    gitedge.Closure.push_refs gitedge.Closure.insert gitedge.Closure.add lookup has codes_eq lower
cut_short_run = refl

a_needed : has a (a ∷ []) ≡ true
unfolding has codes_eq
a_needed = refl

needed-Reach_example : Reach (a ∷ []) (c ∷ []) graph a
needed-Reach_example =
    needed-Reach (a ∷ []) (c ∷ []) graph (store graph) (λ t. ltb 0 t) 9 none cut_short a
      (store-IsTruthful graph) tt cut_short_run a_needed

-- The common names are told once each, in lower case, and the parents of a few of them stop too.
commons :
    find_common_haves (λ _. true ∷ true ∷ false ∷ true ∷ []) (codes "Aa" ∷ codes "aA" ∷ b ∷ c ∷ [])
    ≡ codes "aa" ∷ c ∷ []
unfolding find_common_haves gitedge.Closure.common_loop has codes_eq lower
commons = refl

parents_stop :
    stop_set (λ o. if codes_eq o a then some b else none) (λ _. false) (a ∷ []) ≡ b ∷ a ∷ []
unfolding stop_set gitedge.Closure.mainline_loop has codes_eq lower
parents_stop = refl
