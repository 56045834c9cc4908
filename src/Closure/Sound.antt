-- ===== src/Closure/Sound.antt =====
-- What is selected is reachable.
use gitedge.Shared.{
  ℕ, zero, suc, ◌+◌, ◌≡◌, ◌⊎◌, refl, sym, ap, ◌∙◌, Bool, true, false, List, [], ◌∷◌, ◌++◌, Option,
  none, some, ◌||◌, ◌&&◌, not, is_nil, is_some, take, drop, keep, Bool-cases, Option-cases, inl,
  inr, arith,
}
use mathlib.Core.Path.{subst}
use mathlib.Core.Option.{some-injective, none-ne-some}
use gitedge.Shared.Text.{codes_eq, codes_eq_iff}
use gitedge.Closure.{
  Oid, lower, has, Refs, lookup, insert, Search, Marked, mark_all, memo_hits, batch_refs, memo_refs,
  new_refs, answer, push_refs, expand, search_round, search_loop, start_search,
}
use gitedge.Closure.Rounds.{
  has-append, has-keep, has-take-drop, mark_all-has, lookup-insert, Entries, memo_hits-Entries,
  batch_refs-Entries, new_refs-from,
}

module _ (wants stop : List Oid) (refs_of : Oid → List Oid) where
  -- Reachable from a want along references, without a name of the stop set on the way.
  pub data Reach : Oid → Type 0 where
    want : (o : Oid) → has o wants ≡ true → has (lower o) stop ≡ false → Reach o
    along :
        (o r : Oid)
        → Reach o
        → has r (refs_of (lower o)) ≡ true
        → has (lower r) stop ≡ false
        → Reach r

-- The memo and the answers of the store tell the references of an object.
abbrev pub Knows : (Oid → List Oid) → Option Refs → Type 0
Knows refs_of none = Unit
Knows refs_of (some m) = (k : Oid) (refs : List Oid) → lookup k m ≡ some refs → refs ≡ refs_of k

abbrev pub IsTruthful : (Oid → List Oid) → (ℕ → List Oid → Option Refs) → Type 0
IsTruthful refs_of read_refs =
    (t : ℕ) (oids : List Oid) (batch : Refs) (o : Oid) (refs : List Oid)
    → read_refs t oids ≡ some batch
    → lookup o batch ≡ some refs
    → refs ≡ refs_of (lower o)

insert-Knows :
    (refs_of : Oid → List Oid) (o : Oid) (refs : List Oid) (memo : Refs)
    → refs ≡ refs_of o
    → Knows refs_of (some memo)
    → Knows refs_of (some (insert o refs memo))
insert-Knows refs_of o refs memo e h k r l = elim (Bool-cases (codes_eq k o)) [
  | inl y ↦
      let found : some refs ≡ some r = ground (arith, l, lookup-insert k o refs memo, y) in
      sym (some-injective refs r found) ∙ e ∙ ap refs_of (sym ((codes_eq_iff k o).0 y))
  | inr n ↦ h k r (ground (arith, l, lookup-insert k o refs memo, n))
]

pub memo_refs-Knows :
    (refs_of : Oid → List Oid) (batch : Refs) (oids : List Oid) (memo : Option Refs)
    → ((o : Oid) (refs : List Oid) → lookup o batch ≡ some refs → refs ≡ refs_of (lower o))
    → Knows refs_of memo
    → Knows refs_of (memo_refs batch oids memo)
unfolding memo_refs
memo_refs-Knows refs_of batch [] none t h = tt
memo_refs-Knows refs_of batch (o ∷ oids) none t h = tt
memo_refs-Knows refs_of batch [] (some memo) t h = h
memo_refs-Knows refs_of batch (o ∷ oids) (some memo) t h = elim (Option-cases (lookup o batch)) [
  | inl n ↦ rw (n, memo_refs) (memo_refs-Knows refs_of batch oids (some memo) t h)
  | inr (refs, s) ↦
      rw (s, memo_refs)
        (memo_refs-Knows refs_of batch oids (some (insert (lower o) refs memo)) t
          (insert-Knows refs_of (lower o) refs memo (t o refs s) h))
]

has-batch :
    (x : Oid) (test : Oid → Bool) (n : ℕ) (queue : List Oid)
    → has x (keep test (take n queue)) ≡ true
    → has x queue ≡ true
has-batch x test n queue i = ground (arith, has-keep x test (take n queue), has-take-drop x n queue)

pub has-rest :
    (x : Oid) (n : ℕ) (queue : List Oid) → has x (drop n queue) ≡ true → has x queue ≡ true
has-rest x n queue i = ground (arith, has-take-drop x n queue)

or_false : (a b c : Bool) → ((a && not b) || c) ≡ true → c ≡ false → (a ≡ true) × (b ≡ false)
or_false a b c h n = ground arith

or_comm_false : (b : Bool) → (b || false) ≡ b
or_comm_false true = refl
or_comm_false false = refl

module _ (wants stop : List Oid) (refs_of : Oid → List Oid) (read_refs : ℕ → List Oid → Option Refs)
    (truthful : IsTruthful refs_of read_refs) where
  pub record IsSound (s : Search) : Type 0 where
    pub needed_ok : (x : Oid) → has x s.needed ≡ true → Reach wants stop refs_of x
    pub queue_ok :
        (x : Oid) → has x s.queue ≡ true → has (lower x) stop ≡ false → Reach wants stop refs_of x
    pub memo_ok : Knows refs_of s.memo

  pub answer-truthful :
      (t : ℕ) (oids : List Oid) (a : Option Refs)
      → read_refs t oids ≡ a
      → (o : Oid) (refs : List Oid) → lookup o (answer a) ≡ some refs
      → refs ≡ refs_of (lower o)
  unfolding answer lookup
  answer-truthful t oids none e o refs l = absurd (none-ne-some refs l)
  answer-truthful t oids (some batch) e o refs l = truthful t oids batch o refs e l

  -- The entries of `refsMap`: references of names that the round processes.
  pub refs_map-Entries :
      (memo : Option Refs) (batch : Refs) (oids batch_oids : List Oid)
      → Knows refs_of memo
      → ((o : Oid) (refs : List Oid) → lookup o batch ≡ some refs → refs ≡ refs_of (lower o))
      → ((o : Oid) → has o batch_oids ≡ true → has o oids ≡ true)
      → Entries
          (λ o refs. (has o oids ≡ true) × (refs ≡ refs_of (lower o)))
          (batch_refs batch batch_oids (memo_hits memo oids []))
  refs_map-Entries memo batch oids batch_oids k t sub =
      let P = λ (o : Oid) (refs : List Oid). (has o oids ≡ true) × (refs ≡ refs_of (lower o)) in
      batch_refs-Entries P batch batch_oids (memo_hits memo oids [])
        (λ o refs i l. (sub o i, t o refs l))
        (memo_hits-Entries P memo oids []
          (λ o known refs e i l. (i, subst (Knows refs_of) e k (lower o) refs l)) tt)

  push-IsSound :
      (s : Search) (m : Marked) (queue batch_oids : List Oid) (batch : Refs)
      → Knows refs_of s.memo
      → ((o : Oid) (refs : List Oid) → lookup o batch ≡ some refs → refs ≡ refs_of (lower o))
      → ((o : Oid) → has o batch_oids ≡ true → has o m.to_process ≡ true)
      → ((x : Oid) → has x m.needed ≡ true → Reach wants stop refs_of x)
      → ((x : Oid) → has x m.to_process ≡ true → Reach wants stop refs_of x)
      → ((x : Oid) → has x queue ≡ true → has (lower x) stop ≡ false → Reach wants stop refs_of x)
      → IsSound
          (push_refs stop read_refs s m queue batch_oids (memo_hits s.memo m.to_process []) batch)
  unfolding push_refs
  push-IsSound s m queue batch_oids batch k t sub needed process old = record {
    needed_ok = needed;
    queue_ok = λ x i free. queued x free (Bool-cases (has x queue)) i;
    memo_ok = memo_refs-Knows refs_of batch batch_oids s.memo t k;
  }
    where
      queued :
          (x : Oid)
          → has (lower x) stop ≡ false
          → (has x queue ≡ true) ⊎ (has x queue ≡ false)
          → has x (
              queue
              ++ new_refs m.seen (batch_refs batch batch_oids (memo_hits s.memo m.to_process [])))
            ≡ true
          → Reach wants stop refs_of x
      queued x free (inl y) i = old x y free
      queued x free (inr n) i =
          let refs_map = batch_refs batch batch_oids (memo_hits s.memo m.to_process []) in
          let new : has x (new_refs m.seen refs_map) ≡ true =
            ground (arith, n, i, has-append x queue (new_refs m.seen refs_map)) in
          let (o, refs, (here, e), r) =
            new_refs-from _ m.seen refs_map x
              (refs_map-Entries s.memo batch m.to_process batch_oids k t sub) new in
          along o x (process o here) (rw e at r) free

  expand-IsSound :
      (t : ℕ) (s : Search) (queue : List Oid) (m : Marked)
      → Knows refs_of s.memo
      → ((x : Oid) → has x m.needed ≡ true → Reach wants stop refs_of x)
      → ((x : Oid) → has x m.to_process ≡ true → Reach wants stop refs_of x)
      → ((x : Oid) → has x queue ≡ true → has (lower x) stop ≡ false → Reach wants stop refs_of x)
      → IsSound (expand stop read_refs t s queue m)
  unfolding expand
  expand-IsSound t s queue m k needed process old =
      let hits = memo_hits s.memo m.to_process [] in
      let test = λ (o : Oid). not (is_some (lookup o hits)) in
      let batch_oids = keep test m.to_process in
      let sub : (o : Oid) → has o batch_oids ≡ true → has o m.to_process ≡ true =
        λ o h. ground (arith, has-keep o test m.to_process) in
      elim (Bool-cases (is_nil m.to_process)) [
        | inl y ↦ rw y (record { needed_ok = needed; queue_ok = old; memo_ok = k })
        | inr n ↦ elim (Bool-cases (is_nil batch_oids)) [
          | inl e ↦
              rw (n, e)
                (push-IsSound s m queue batch_oids [] k
                  (λ o refs l. absurd (none-ne-some refs (unfold lookup in l))) sub needed process
                  old)
          | inr f ↦
              rw (n, f)
                (push-IsSound s m queue batch_oids (answer (read_refs t batch_oids)) k
                  (answer-truthful t batch_oids (read_refs t batch_oids) refl) sub needed process
                  old)
        ]
      ]

  needed_case :
      (x : Oid) (s : Search) (u n : Bool)
      → IsSound s
      → n ≡ ((u && not (has (lower x) stop)) || has x s.needed)
      → (u ≡ true → has x s.queue ≡ true)
      → n ≡ true
      → Reach wants stop refs_of x
  needed_case x s u n h e q i = elim (Bool-cases (has x s.needed)) [
    | inl y ↦ h.needed_ok x y
    | inr f ↦
        let (new, free) = or_false u (has (lower x) stop) (has x s.needed) (sym e ∙ i) f in
        h.queue_ok x (q new) free
  ]

  round-IsSound : (t : ℕ) (s : Search) → IsSound s → IsSound (search_round stop read_refs t s)
  unfolding search_round has
  round-IsSound t s h =
      let test = λ (o : Oid). not (has o s.seen) in
      let unseen = keep test (take 128 s.queue) in
      let start : Marked = record { seen = s.seen; needed = s.needed; to_process = [] } in
      let m = mark_all stop unseen start in
      expand-IsSound t s (drop 128 s.queue) m h.memo_ok
        (λ x i.
          needed_case x s (has x unseen) (has x m.needed) h (mark_all-has stop x unseen start).1
            (has-batch x test 128 s.queue) i)
        (λ x i.
          let (new, free) =
            or_false (has x unseen) (has (lower x) stop) false
              (or_comm_false _ ∙ sym (mark_all-has stop x unseen start).2 ∙ i) refl in
          h.queue_ok x (has-batch x test 128 s.queue new) free)
        (λ x i free. h.queue_ok x (has-rest x 128 s.queue i) free)

  pub search-IsSound :
      (late : ℕ → Bool) (f t : ℕ) (s : Search) (result : Search)
      → IsSound s
      → search_loop stop read_refs late f t s ≡ some result
      → IsSound result
  unfolding search_loop
  search-IsSound late zero t s result h e = elim (Bool-cases (is_nil s.queue)) [
    | inl y ↦ subst IsSound (some-injective s result (rw y at e)) h
    | inr n ↦ absurd (none-ne-some result (rw n at e))
  ]
  search-IsSound late (suc f) t s result h e = elim (Bool-cases (is_nil s.queue)) [
    | inl y ↦ subst IsSound (some-injective s result (rw (y, search_loop) at e)) h
    | inr n ↦ elim (Bool-cases (late t)) [
      | inl l ↦
          let stopped : Search = record s { timed_out = s.timed_out || is_some s.memo } in
          subst IsSound (some-injective stopped result (rw (n, l, search_loop) at e))
            (record { needed_ok = h.needed_ok; queue_ok = h.queue_ok; memo_ok = h.memo_ok })
      | inr l ↦
          search-IsSound late f (t + 1) (search_round stop read_refs t s) result
            (round-IsSound t s h) (rw (n, l, search_loop) at e)
    ]
  ]

  start-IsSound : (memo : Option Refs) → Knows refs_of memo → IsSound (start_search wants memo)
  start-IsSound memo k = record {
    needed_ok = λ x i. absurd (unfold has in ground (arith, i));
    queue_ok = λ x i free. want x i free;
    memo_ok = k;
  }

-- If the store and the memo tell the references of objects truly, then every object that a finished
-- search selects is reachable from a wanted one along references without a name of the stop set on
-- the way, also where the search was cut short by the timeout or where batches failed.
pub needed-Reach :
    (wants stop : List Oid) (refs_of : Oid → List Oid) (read_refs : ℕ → List Oid → Option Refs)
    (late : ℕ → Bool) (f : ℕ) (memo : Option Refs) (result : Search) (x : Oid)
    → IsTruthful refs_of read_refs
    → Knows refs_of memo
    → search_loop stop read_refs late f 0 (start_search wants memo) ≡ some result
    → has x result.needed ≡ true
    → Reach wants stop refs_of x
needed-Reach wants stop refs_of read_refs late f memo result x truthful k e i =
    (search-IsSound wants stop refs_of read_refs truthful late f 0 (start_search wants memo) result
        (start-IsSound wants stop refs_of read_refs truthful memo k) e).needed_ok
      x i
