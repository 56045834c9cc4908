-- ===== src/Closure/Ends.antt =====
-- The search ends: each round takes a name off the queue, and an object puts its references on it
-- once.
use gitedge.Shared.{
  ℕ, zero, suc, ◌+◌, ◌≤◌, ◌<◌, ◌≡◌, ◌↔◌, &&-eq-true, refl, sym, ◌∙◌, Bool, true, false, List, [],
  ◌∷◌, Option, none, some, ◌||◌, ◌&&◌, not, if◌then◌else◌, is_nil, is_some, take, drop, keep,
  length, length-append, length-drop, Bool-cases, inl, inr, arith,
}
use mathlib.Core.Option.{none-ne-some}
use gitedge.Closure.{
  Oid, lower, has, Refs, lookup, Search, Marked, mark_all, memo_hits, batch_refs, new_refs, answer,
  push_refs, expand, search_round, search_loop, start_search,
}
use gitedge.Closure.Rounds.{has-append, has-keep, has-take-drop, mark_all-has, new_refs-from}
use gitedge.Closure.Sound.{
  Reach, Knows, IsTruthful, memo_refs-Knows, answer-truthful, refs_map-Entries, has-rest,
  needed-Reach,
}
use gitedge.Closure.Weights.{
  total, total-le, total-add, size, memo_hits-IsMap, batch_refs-IsMap, length-new_refs,
  refs_total-le, Entries-lookup, Entries-map,
}
use gitedge.Closure.Complete.{IsTotal, search-selects, start-IsClosed}

nonempty : (xs : List Oid) → is_nil xs ≡ false → 0 < length xs
nonempty [] h = absurd (ground arith)
nonempty (x ∷ xs) h = omega arith

has-taken : (x : Oid) (n : ℕ) (queue : List Oid) → has x (take n queue) ≡ true → has x queue ≡ true
has-taken x n queue i = ground (arith, has-take-drop x n queue)

eq_false : (b : Bool) → not b ≡ true → b ≡ false
eq_false b h = ground arith

seen_case : (u seen seen' : Bool) → seen' ≡ (u || seen) → seen ≡ true → seen' ≡ true
seen_case u seen seen' e h = ground arith

process_case :
    (u stopped seen p seen' : Bool)
    → p ≡ (false || (u && not stopped))
    → seen' ≡ (u || seen)
    → p ≡ true
    → (u ≡ true) × (seen' ≡ true)
process_case u stopped seen p seen' e f h = (ground arith, ground arith)

-- A finite set of names that holds the wanted ones and with an object its references.
abbrev pub IsUniverse : List Oid → (Oid → List Oid) → List Oid → Type 0
IsUniverse wants refs_of us =
    ((x : Oid) → has x wants ≡ true → has x us ≡ true)
    × ((o r : Oid) → has o us ≡ true → has r (refs_of (lower o)) ≡ true → has r us ≡ true)

-- The references of the names that have not been seen.
abbrev pub weight : (Oid → List Oid) → List Oid → Oid → ℕ
weight refs_of seen u = if has u seen then 0 else length (refs_of (lower u))

-- The number of rounds that is always enough.
abbrev pub rounds : List Oid → (Oid → List Oid) → List Oid → ℕ
rounds queue refs_of us = length queue + total (weight refs_of []) us

module _ (wants stop : List Oid) (refs_of : Oid → List Oid) (read_refs : ℕ → List Oid → Option Refs)
    (truthful : IsTruthful refs_of read_refs) (us : List Oid)
    (universe : IsUniverse wants refs_of us) where
  abbrev measure : Search → ℕ
  measure s = length s.queue + total (weight refs_of s.seen) us

  record IsInside (s : Search) : Type 0 where
    queue_in : (x : Oid) → has x s.queue ≡ true → has x us ≡ true
    memo_ok : Knows refs_of s.memo

  -- What marking does to the names: those to process are new.
  abbrev IsFresh : Search → Marked → Type 0
  IsFresh s m =
      ((x : Oid) → has x s.seen ≡ true → has x m.seen ≡ true)
      × ((x : Oid)
          → has x m.to_process ≡ true
          → (has x m.seen ≡ true) × (has x s.seen ≡ false) × (has x us ≡ true))

  weight-le :
      (s : Search) (m : Marked)
      → IsFresh s m
      → (u : Oid) → weight refs_of m.seen u ≤ weight refs_of s.seen u
  weight-le s m (grow, fresh) u = ground (arith, grow u)

  weight-add :
      (s : Search) (m : Marked) (l : Option (List Oid)) (u : Oid)
      → IsFresh s m
      → ((refs : List Oid)
          → l ≡ some refs
          → (has u m.to_process ≡ true) × (refs ≡ refs_of (lower u)))
      → size l + weight refs_of m.seen u ≤ weight refs_of s.seen u
  weight-add s m none u f h = omega (arith, weight-le s m f u)
  weight-add s m (some refs) u (grow, fresh) h =
      let (here, same) = h refs refl in
      let (a, b, c) = fresh u here in rw (a, b, same) (omega arith)

  push-falls :
      (s : Search) (m : Marked) (queue batch_oids : List Oid) (batch : Refs)
      → IsInside s
      → IsFresh s m
      → length queue < length s.queue
      → ((x : Oid) → has x queue ≡ true → has x us ≡ true)
      → ((o : Oid) (refs : List Oid) → lookup o batch ≡ some refs → refs ≡ refs_of (lower o))
      → ((o : Oid) → has o batch_oids ≡ true → has o m.to_process ≡ true)
      → IsInside
          (push_refs stop read_refs s m queue batch_oids (memo_hits s.memo m.to_process []) batch)
        × (measure (
              push_refs stop read_refs s m queue batch_oids
                (memo_hits s.memo m.to_process [])
                batch)
            < measure s)
  unfolding push_refs
  push-falls s m queue batch_oids batch inside fresh less rest t sub =
      let hits = memo_hits s.memo m.to_process [] in
      let refs_map = batch_refs batch batch_oids hits in
      let P =
        λ (o : Oid) (refs : List Oid). (has o m.to_process ≡ true) × (refs ≡ refs_of (lower o)) in
      let entries =
        refs_map-Entries wants stop refs_of read_refs truthful s.memo batch m.to_process batch_oids
          inside.memo_ok t sub in
      let is_map =
        batch_refs-IsMap batch batch_oids hits (memo_hits-IsMap s.memo m.to_process [] tt) in
      let keys =
        Entries-map P (λ o refs. has o us ≡ true) refs_map (λ o refs p. (fresh.1 o p.0).2)
          entries in
      let new = new_refs m.seen refs_map in
      let sums =
        total-add (λ u. size (lookup u refs_map)) (weight refs_of m.seen) (weight refs_of s.seen) us
          (λ u.
            weight-add s m (lookup u refs_map) u fresh
              (λ refs e. Entries-lookup P refs_map u refs entries e)) in
      (
        record {
          queue_in = λ x i. elim (Bool-cases (has x queue)) [
            | inl y ↦ rest x y
            | inr n ↦
                let (o, refs, (p, e), r) =
                  new_refs-from P m.seen refs_map x entries
                    (ground (arith, n, i, has-append x queue new)) in
                universe.1 o x (fresh.1 o p).2 (rw e at r)
          ];
          memo_ok = memo_refs-Knows refs_of batch batch_oids s.memo t inside.memo_ok;
        },
        omega (
          arith,
          length-append queue new,
          length-new_refs m.seen refs_map,
          refs_total-le refs_map us is_map keys,
          sums,
        ),
      )

  expand-falls :
      (t : ℕ) (s : Search) (queue : List Oid) (m : Marked)
      → IsInside s
      → IsFresh s m
      → length queue < length s.queue
      → ((x : Oid) → has x queue ≡ true → has x us ≡ true)
      → IsInside (expand stop read_refs t s queue m)
        × (measure (expand stop read_refs t s queue m) < measure s)
  unfolding expand
  expand-falls t s queue m inside fresh less rest =
      let hits = memo_hits s.memo m.to_process [] in
      let test = λ (o : Oid). not (is_some (lookup o hits)) in
      let asked = keep test m.to_process in
      let sub : (o : Oid) → has o asked ≡ true → has o m.to_process ≡ true =
        λ o h. ground (arith, has-keep o test m.to_process) in
      elim (Bool-cases (is_nil m.to_process)) [
        | inl y ↦ rw y (
          record { queue_in = rest; memo_ok = inside.memo_ok },
          omega (
            arith,
            total-le (weight refs_of m.seen) (weight refs_of s.seen) us (weight-le s m fresh),
          ),
        )
        | inr n ↦ elim (Bool-cases (is_nil asked)) [
          | inl e ↦
              rw (n, e)
                (push-falls s m queue asked [] inside fresh less rest
                  (λ o refs l. absurd (none-ne-some refs (unfold lookup in l))) sub)
          | inr f ↦
              rw (n, f)
                (push-falls s m queue asked (answer (read_refs t asked)) inside fresh less rest
                  (answer-truthful wants stop refs_of read_refs truthful t asked (read_refs t asked)
                    refl)
                  sub)
        ]
      ]

  round-falls :
      (t : ℕ) (s : Search)
      → IsInside s
      → is_nil s.queue ≡ false
      → IsInside (search_round stop read_refs t s)
        × (measure (search_round stop read_refs t s) < measure s)
  unfolding search_round has
  round-falls t s inside n =
      let test = λ (o : Oid). not (has o s.seen) in
      let unseen = keep test (take 128 s.queue) in
      let start : Marked = record { seen = s.seen; needed = s.needed; to_process = [] } in
      let m = mark_all stop unseen start in
      expand-falls t s (drop 128 s.queue) m inside
        (
          λ x i. seen_case (has x unseen) (has x s.seen) _ (mark_all-has stop x unseen start).0 i,
          λ x i.
              let batch = has-keep x test (take 128 s.queue) in
              let (u, z) =
                process_case (has x unseen) (has (lower x) stop) (has x s.seen) _ _
                  (mark_all-has stop x unseen start).2 (mark_all-has stop x unseen start).0 i in
              let (in_batch, new) =
                &&-eq-true (has x (take 128 s.queue)) (test x) (sym batch ∙ u) in
              (
                z,
                eq_false (has x s.seen) new,
                inside.queue_in x (has-taken x 128 s.queue in_batch),
              ),
        )
        (omega (arith, length-drop 128 s.queue, nonempty s.queue n))
        (λ x i. inside.queue_in x (has-rest x 128 s.queue i))

  search-ends :
      (f t : ℕ) (s : Search)
      → IsInside s
      → measure s ≤ f
      → (result : Search) × (search_loop stop read_refs (λ _. false) f t s ≡ some result)
  unfolding search_loop
  search-ends zero t s inside h = elim (Bool-cases (is_nil s.queue)) [
    | inl y ↦ (s, rw y refl)
    | inr n ↦ absurd (omega (arith, nonempty s.queue n))
  ]
  search-ends (suc f) t s inside h = elim (Bool-cases (is_nil s.queue)) [
    | inl y ↦ (s, rw (y, search_loop) refl)
    | inr n ↦
        let (next, falls) = round-falls t s inside n in
        let (result, e) =
          search-ends f (t + 1) (search_round stop read_refs t s) next (omega arith) in
        (result, rw (n, search_loop) e)
  ]

-- Let `us` be a finite set of names that holds the wanted ones and, with an object, its references. Let
-- the store answer truly, and each batch of names in `us` completely, where an object that has no
-- references, as a missing one, may be omitted, and let the memo be true. Then the search ends
-- without its timeout, after at most as many rounds as there are wanted names and references in
-- `us`, and it selects exactly the objects that are reachable from the wanted ones along references
-- without a name of the stop set on the way.
pub search-selects_iff :
    (wants stop : List Oid) (refs_of : Oid → List Oid) (read_refs : ℕ → List Oid → Option Refs)
    (us : List Oid) (memo : Option Refs) (f : ℕ)
    → IsTruthful refs_of read_refs
    → IsTotal us refs_of read_refs
    → Knows refs_of memo
    → IsUniverse wants refs_of us
    → rounds wants refs_of us ≤ f
    → (result : Search) × (search_loop stop read_refs (λ _. false) f 0 (start_search wants memo)
        ≡ some result)
      × ((x : Oid) → (has x result.needed ≡ true) ↔ Reach wants stop refs_of x)
search-selects_iff wants stop refs_of read_refs us memo f truthful total_store k universe h =
    let (result, e) =
      search-ends wants stop refs_of read_refs truthful us universe f 0 (start_search wants memo)
        (record { queue_in = universe.0; memo_ok = k }) h in
    (
      result,
      e,
      λ x. (
        needed-Reach wants stop refs_of read_refs (λ _. false) f memo result x truthful k e,
        search-selects wants stop us refs_of read_refs
            (IsInside wants stop refs_of read_refs truthful us universe) (λ s i. i.queue_in)
            (λ t s i n. (round-falls wants stop refs_of read_refs truthful us universe t s i n).0)
            truthful total_store f 0 (start_search wants memo) result
            (record { queue_in = universe.0; memo_ok = k })
            (start-IsClosed wants stop us refs_of read_refs memo k) e x,
      ),
    )
