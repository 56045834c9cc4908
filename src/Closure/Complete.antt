-- ===== src/Closure/Complete.antt =====
-- What is reachable is selected, if the store answers and the time suffices.
use gitedge.Shared.{
  &&-eq-true, ℕ, zero, suc, ◌+◌, ◌≡◌, refl, sym, ap, ◌∙◌, Bool, true, false, List, [], ◌∷◌, ◌++◌,
  Option, none, some, ◌||◌, ◌&&◌, not, if◌then◌else◌, is_nil, is_some, or_else, take, drop, keep,
  Bool-cases, Option-cases, inl, inr, arith,
}
use mathlib.Core.Path.{subst}
use mathlib.Core.Option.{some-injective, none-ne-some}
use gitedge.Closure.{
  Oid, lower, has, Refs, lookup, Search, Marked, mark_all, memo_hits, batch_refs, new_refs, answer,
  push_refs, expand, search_round, search_loop, start_search,
}
use gitedge.Closure.Rounds.{
  has-append, has-keep, has-take-drop, mark_all-has, lookup-memo_hits, lookup-batch_refs,
  new_refs-all,
}
use gitedge.Closure.Sound.{Reach, want, along, Knows, IsTruthful, memo_refs-Knows}

-- The store answers each batch of names in `us`. It may omit an object only if that has no references,
-- as a missing object has none.
abbrev pub IsTotal : List Oid → (Oid → List Oid) → (ℕ → List Oid → Option Refs) → Type 0
IsTotal us refs_of read_refs =
    (t : ℕ) (oids : List Oid)
    → ((o : Oid) → has o oids ≡ true → has o us ≡ true)
    → (batch : Refs) × (read_refs t oids ≡ some batch)
      × ((o : Oid) → has o oids ≡ true → or_else (lookup o batch) [] ≡ refs_of (lower o))

-- A name that was seen or queued is seen, or it stays on the queue.
moved :
    (x : Oid) (seen queue : List Oid) (n : ℕ)
    → (has x seen || has x queue) ≡ true
    → ((has x (keep (λ o. not (has o seen)) (take n queue)) || has x seen) || has x (drop n queue))
      ≡ true
moved x seen queue n h =
    ground (arith, has-keep x (λ o. not (has o seen)) (take n queue), has-take-drop x n queue)

or_left : (a b c : Bool) → (a || b) ≡ true → (a || (b || c)) ≡ true
or_left a b c h = ground arith

or_right : (a b c : Bool) → (a || c) ≡ true → (a || (b || c)) ≡ true
or_right a b c h = ground arith

marked_case :
    (u seen stopped needed seen' needed' : Bool)
    → seen' ≡ (u || seen)
    → needed' ≡ ((u && not stopped) || needed)
    → seen' ≡ true
    → (seen ≡ true → (stopped || needed) ≡ true)
    → (stopped || needed') ≡ true
marked_case u seen stopped needed seen' needed' e f i h = ground arith

-- What is processed was on the queue.
process_in :
    (x : Oid) (seen queue : List Oid) (stopped p : Bool)
    → p ≡ (false || (has x (keep (λ o. not (has o seen)) (take 128 queue)) && not stopped))
    → p ≡ true
    → has x queue ≡ true
process_in x seen queue stopped p e h =
    let test = λ (o : Oid). not (has o seen) in
    let (taken, _) =
      &&-eq-true (has x (take 128 queue)) (test x)
        (sym (has-keep x test (take 128 queue)) ∙ first stopped p _ e h) in
    ground (arith, taken, has-take-drop x 128 queue)
  where
    first : (stopped p u : Bool) → p ≡ (false || (u && not stopped)) → p ≡ true → u ≡ true
    first stopped p u e h = ground arith

nil-has : (x : Oid) (xs : List Oid) → is_nil xs ≡ true → has x xs ≡ false
unfolding has
nil-has x [] h = refl
nil-has x (y ∷ ys) h = absurd (ground arith)

module _ (wants stop us : List Oid) (refs_of : Oid → List Oid)
    (read_refs : ℕ → List Oid → Option Refs) where
  pub record IsClosed (s : Search) : Type 0 where
    pub wants_ok : (x : Oid) → has x wants ≡ true → (has x s.seen || has x s.queue) ≡ true
    pub refs_ok :
        (o r : Oid)
        → has o s.needed ≡ true
        → has r (refs_of (lower o)) ≡ true
        → (has r s.seen || has r s.queue) ≡ true
    pub seen_ok : (x : Oid) → has x s.seen ≡ true → (has (lower x) stop || has x s.needed) ≡ true
    pub memo_ok : Knows refs_of s.memo

  -- A name that the memo knows.
  hits-known :
      (memo : Option Refs) (oids : List Oid) (o : Oid) (refs : List Oid)
      → Knows refs_of memo
      → lookup o (memo_hits memo oids []) ≡ some refs
      → refs ≡ refs_of (lower o)
  unfolding memo_hits lookup
  hits-known none oids o refs k e = absurd (none-ne-some refs e)
  hits-known (some memo) oids o refs k e =
      k (lower o) refs
        (found (has o oids) (lookup (lower o) memo) (sym (lookup-memo_hits o memo oids []) ∙ e))
    where
      found :
          (h : Bool) (l : Option (List Oid))
          → (if h && is_some l then l else none) ≡ some refs
          → l ≡ some refs
      found true none e = absurd (none-ne-some refs e)
      found true (some r) e = e
      found false l e = absurd (none-ne-some refs e)

  -- An object with a reference is in the answer.
  answered :
      (r o : Oid) (l : Option (List Oid))
      → has r (refs_of (lower o)) ≡ true
      → or_else l [] ≡ refs_of (lower o)
      → l ≡ some (refs_of (lower o))
  unfolding has
  answered r o none j e = absurd (ground (arith, subst (λ xs. has r xs ≡ true) (sym e) j))
  answered r o (some refs) j e = ap some e

  -- `refsMap` has the references of every name that is processed and has any.
  refs_map-lookup :
      (memo : Option Refs) (oids : List Oid) (batch : Refs) (o r : Oid)
      → Knows refs_of memo
      → has o oids ≡ true
      → has r (refs_of (lower o)) ≡ true
      → ((x : Oid)
          → has x (keep (λ y. not (is_some (lookup y (memo_hits memo oids [])))) oids) ≡ true
          → or_else (lookup x batch) [] ≡ refs_of (lower x))
      → lookup o (
          batch_refs batch
            (keep (λ y. not (is_some (lookup y (memo_hits memo oids [])))) oids)
            (memo_hits memo oids []))
        ≡ some (refs_of (lower o))
  refs_map-lookup memo oids batch o r k i j known =
      let hits = memo_hits memo oids [] in
      let test = λ (y : Oid). not (is_some (lookup y hits)) in
      let kept = has-keep o test oids in
      let step = lookup-batch_refs o batch (keep test oids) hits in
      elim (Option-cases (lookup o hits)) [
        | inl n ↦
            let asked : has o (keep test oids) ≡ true = ground (arith, kept, n, i) in
            ground (arith, step, asked, answered r o (lookup o batch) j (known o asked))
        | inr (refs, e) ↦
            let skipped : has o (keep test oids) ≡ false = ground (arith, kept, e) in
            let right = hits-known memo oids o refs k e in step ∙ rw skipped (e ∙ ap some right)
      ]

  -- What marking a batch gives, for a search and the rest of its queue.
  abbrev Follows : Search → List Oid → Marked → Type 0
  Follows s queue m =
      ((x : Oid) → (has x s.seen || has x s.queue) ≡ true → (has x m.seen || has x queue) ≡ true)
      × ((x : Oid) → has x m.needed ≡ (has x m.to_process || has x s.needed))
      × ((x : Oid) → has x m.seen ≡ true → (has (lower x) stop || has x m.needed) ≡ true)

  push-IsClosed :
      (s : Search) (m : Marked) (queue : List Oid) (batch : Refs)
      → IsClosed s
      → Follows s queue m
      → ((o : Oid) (refs : List Oid) → lookup o batch ≡ some refs → refs ≡ refs_of (lower o))
      → ((x : Oid)
          → has x
              (keep (λ y. not (is_some (lookup y (memo_hits s.memo m.to_process [])))) m.to_process)
            ≡ true
          → or_else (lookup x batch) [] ≡ refs_of (lower x))
      → IsClosed (
          push_refs stop read_refs s m queue
            (keep (λ y. not (is_some (lookup y (memo_hits s.memo m.to_process [])))) m.to_process)
            (memo_hits s.memo m.to_process [])
            batch)
  unfolding push_refs
  push-IsClosed s m queue batch h (stay, need, mark) truthful known =
      let hits = memo_hits s.memo m.to_process [] in
      let asked = keep (λ y. not (is_some (lookup y hits))) m.to_process in
      let refs_map = batch_refs batch asked hits in
      let new = new_refs m.seen refs_map in
      let later : (x : Oid)
          → (has x m.seen || has x queue) ≡ true
          → (has x m.seen || has x (queue ++ new)) ≡ true =
        λ x i. rw (has-append x queue new) (or_left (has x m.seen) (has x queue) (has x new) i) in
      record {
        wants_ok = λ x i. later x (stay x (h.wants_ok x i));
        refs_ok = λ o r i j. elim (Bool-cases (has o m.to_process)) [
          | inl y ↦
              let here = refs_map-lookup s.memo m.to_process batch o r h.memo_ok y j known in
              let all = new_refs-all m.seen refs_map o r (refs_of (lower o)) here j in
              rw (has-append r queue new) (or_right (has r m.seen) (has r queue) (has r new) all)
          | inr n ↦ later r (stay r (h.refs_ok o r (ground (arith, n, i, need o)) j))
        ];
        seen_ok = mark;
        memo_ok = memo_refs-Knows refs_of batch asked s.memo truthful h.memo_ok;
      }

  expand-IsClosed :
      (t : ℕ) (s : Search) (queue : List Oid) (m : Marked)
      → IsTruthful refs_of read_refs
      → IsTotal us refs_of read_refs
      → ((x : Oid) → has x m.to_process ≡ true → has x us ≡ true)
      → IsClosed s
      → Follows s queue m
      → IsClosed (expand stop read_refs t s queue m)
  unfolding expand
  expand-IsClosed t s queue m truthful total inside h (stay, need, mark) =
      let test = λ (o : Oid). not (is_some (lookup o (memo_hits s.memo m.to_process []))) in
      let asked = keep test m.to_process in
      let asked_in : (o : Oid) → has o asked ≡ true → has o m.to_process ≡ true =
        λ o i. ground (arith, has-keep o test m.to_process) in
      elim (Bool-cases (is_nil m.to_process)) [
        | inl y ↦ rw y (record {
          wants_ok = λ x i. stay x (h.wants_ok x i);
          refs_ok = λ o r i j.
              stay r (h.refs_ok o r (ground (arith, i, need o, nil-has o m.to_process y)) j);
          seen_ok = mark;
          memo_ok = h.memo_ok;
        })
        | inr n ↦ elim (Bool-cases (is_nil asked)) [
          | inl e ↦
              rw (n, e)
                (push-IsClosed s m queue [] h (stay, need, mark)
                  (λ o refs l. absurd (none-ne-some refs (unfold lookup in l)))
                  (λ x i. absurd (ground (arith, i, nil-has x asked e))))
          | inr f ↦
              let (batch, read, known) = total t asked (λ o i. inside o (asked_in o i)) in
              rw (n, f)
                (subst
                  (λ a. IsClosed (
                    push_refs stop read_refs s m queue asked (memo_hits s.memo m.to_process [])
                      (answer a)))
                  (sym read)
                  (unfold answer in
                    push-IsClosed s m queue batch h (stay, need, mark)
                      (λ o refs l. truthful t asked batch o refs read l) known))
        ]
      ]

  round-IsClosed :
      (t : ℕ) (s : Search)
      → IsTruthful refs_of read_refs
      → IsTotal us refs_of read_refs
      → ((x : Oid) → has x s.queue ≡ true → has x us ≡ true)
      → IsClosed s
      → IsClosed (search_round stop read_refs t s)
  unfolding search_round has
  round-IsClosed t s truthful total inside h =
      let unseen = keep (λ o. not (has o s.seen)) (take 128 s.queue) in
      let start : Marked = record { seen = s.seen; needed = s.needed; to_process = [] } in
      expand-IsClosed t s (drop 128 s.queue) (mark_all stop unseen start) truthful total
        (λ x i. inside x (
          process_in x s.seen s.queue (has (lower x) stop) _ (mark_all-has stop x unseen start).2
            i))
        h
        (
          λ x i. rw (mark_all-has stop x unseen start).0 (moved x s.seen s.queue 128 i),
          λ x.
              (mark_all-has stop x unseen start).1
              ∙ ap (λ b. b || has x s.needed) (sym (mark_all-has stop x unseen start).2),
          λ x i.
              marked_case (has x unseen) (has x s.seen) (has (lower x) stop) (has x s.needed) _ _
                (mark_all-has stop x unseen start).0 (mark_all-has stop x unseen start).1 i
                (h.seen_ok x),
        )

  -- A search with an empty queue has selected all that is reachable.
  closed-Reach :
      (s : Search)
      → IsClosed s
      → is_nil s.queue ≡ true
      → {x : Oid} → Reach wants stop refs_of x
      → has x s.needed ≡ true
  closed-Reach s h e (want x i free) =
      ground (arith, free, h.seen_ok x, h.wants_ok x i, nil-has x s.queue e)
  closed-Reach s h e (along o x r i free) =
      ground (arith, free, h.seen_ok x, h.refs_ok o x (closed-Reach s h e r) i, nil-has x s.queue e)

  pub start-IsClosed :
      (memo : Option Refs) → Knows refs_of memo → IsClosed (start_search wants memo)
  unfolding has
  start-IsClosed memo k = record {
    wants_ok = λ x i. i;
    refs_ok = λ o r i j. absurd (ground arith);
    seen_ok = λ x i. absurd (ground arith);
    memo_ok = k;
  }

  -- `Inside` is an invariant of the rounds that keeps the queue in `us`.
  pub search-selects :
      (Inside : Search → Type 0)
      → ((s : Search) → Inside s → (x : Oid) → has x s.queue ≡ true → has x us ≡ true)
      → ((t : ℕ) (s : Search)
          → Inside s
          → is_nil s.queue ≡ false
          → Inside (search_round stop read_refs t s))
      → IsTruthful refs_of read_refs
      → IsTotal us refs_of read_refs
      → (f t : ℕ) (s result : Search) → Inside s
      → IsClosed s
      → search_loop stop read_refs (λ _. false) f t s ≡ some result
      → (x : Oid) → Reach wants stop refs_of x
      → has x result.needed ≡ true
  unfolding search_loop
  search-selects Inside inside step truthful total zero t s result i h e =
      elim (Bool-cases (is_nil s.queue)) [
        | inl y ↦
            subst (λ r. (x : Oid) → Reach wants stop refs_of x → has x r.needed ≡ true)
              (some-injective s result (rw y at e)) (λ x r. closed-Reach s h y r)
        | inr n ↦ absurd (none-ne-some result (rw n at e))
      ]
  search-selects Inside inside step truthful total (suc f) t s result i h e =
      elim (Bool-cases (is_nil s.queue)) [
        | inl y ↦
            subst (λ r. (x : Oid) → Reach wants stop refs_of x → has x r.needed ≡ true)
              (some-injective s result (rw (y, search_loop) at e)) (λ x r. closed-Reach s h y r)
        | inr n ↦
            search-selects Inside inside step truthful total f (t + 1)
              (search_round stop read_refs t s) result (step t s i n)
              (round-IsClosed t s truthful total (inside s i) h) (rw (n, search_loop) at e)
      ]
