-- ===== src/Closure.antt =====
-- src/worker/git/operations/fetch/neededFast.ts and src/worker/git/operations/closure.ts: which
-- objects a fetch sends. An object name is the list of its codes; a `Set` is the list of its members
-- with the newest first. What the object store answers is a parameter.
pub mod Rounds
pub mod Sound
pub mod Complete
pub mod Weights
pub mod Ends
mod Tests
use gitedge.Shared.{
  ℕ, zero, suc, ◌+◌, Bool, true, false, List, [], ◌∷◌, ◌++◌, Option, none, some, map, ◌||◌, ◌&&◌,
  not, ltb, leb, if◌then◌else◌, is_nil, is_some, length, take, drop, keep,
}
use gitedge.Shared.Text.{codes_eq, to_lower}

abbrev pub Oid : Type 0
Oid = List ℕ

unfoldable pub lower : Oid → Oid
unfolding to_lower
lower oid = map to_lower oid

-- `set.has(oid)` and `set.add(oid)`
unfoldable pub has : Oid → List Oid → Bool
unfolding codes_eq
has oid [] = false
has oid (x ∷ xs) = codes_eq oid x || has oid xs

unfoldable pub add : Oid → List Oid → List Oid
unfolding has
add oid set = if has oid set then set else oid ∷ set

abbrev pub Refs : Type 0
Refs = List (Oid × List Oid)

-- `map.get(oid)` and `map.set(oid, refs)`
unfoldable pub lookup : Oid → Refs → Option (List Oid)
unfolding codes_eq
lookup oid [] = none
lookup oid ((o, refs) ∷ m) = if codes_eq oid o then some refs else lookup oid m

unfoldable pub insert : Oid → List Oid → Refs → Refs
unfolding codes_eq
insert oid refs [] = (oid, refs) ∷ []
insert oid refs ((o, old) ∷ m) =
    if codes_eq oid o then (o, refs) ∷ m else (o, old) ∷ insert oid refs m

-- `findCommonHaves`: the loop over the capped haves and what the store has of them.
unfoldable pub common_loop : List Oid → List Bool → List Oid → List Oid
unfolding has lower
common_loop haves [] seen = []
common_loop [] (p ∷ present) seen = []
common_loop (oid ∷ haves) (p ∷ present) seen =
    let skipped = is_nil (lower oid) || has (lower oid) seen || not p in
    let rest = common_loop haves present (if skipped then seen else lower oid ∷ seen) in
    if skipped then rest else lower oid ∷ rest

unfoldable pub find_common_haves : (List Oid → List Bool) → List Oid → List Oid
find_common_haves has_objects_batch haves =
    let capped = take 128 haves in common_loop capped (has_objects_batch capped) []

-- The walk along first parents from the common commits, of twenty steps at most. `first_parent` is
-- what `readObject` and `parseCommitRefs` give for a commit, `late` whether the two seconds are over.
abbrev pub mainline_budget : ℕ
mainline_budget = 20

module _ (first_parent : Oid → Option Oid) (late : ℕ → Bool) where
  -- A round takes one name off the queue, and each name that is put on it counts as a step.
  unfoldable pub mainline_loop : ℕ → ℕ → ℕ → List Oid → List Oid → List Oid
  mainline_loop zero t walked queue stop = stop
  mainline_loop (suc f) t walked [] stop = stop
  mainline_loop (suc f) t walked (oid ∷ queue) stop =
      let skip = mainline_loop f (t + 1) walked queue stop in
      elim (leb mainline_budget walked || late t) [
        | true ↦ stop
        | false ↦ elim (first_parent oid) [
          | none ↦ skip
          | some parent ↦ elim (is_nil parent || has parent stop) [
            | true ↦ skip
            | false ↦ mainline_loop f (t + 1) (walked + 1) (queue ++ (parent ∷ [])) (parent ∷ stop)
          ]
        ]
      ]

  -- `for (const oid of ackOids) stopSet.add(oid.toLowerCase())`, and the walk for few names.
  unfoldable pub stop_set : List Oid → List Oid
  stop_set acks =
      let stop = map lower acks in
      if ltb 0 (length acks) && ltb (length acks) 10
      then mainline_loop (length acks + mainline_budget + 1) 0 0 acks stop
      else stop

-- The variables of the search for needed objects; `memo` is there if there is a cache context.
pub record Search : Type 0 where
  pub queue : List Oid
  pub seen : List Oid
  pub needed : List Oid
  pub memo : Option Refs
  pub timed_out : Bool

-- What the loop over `unseenBatch` changes.
pub record Marked : Type 0 where
  pub seen : List Oid
  pub needed : List Oid
  pub to_process : List Oid

unfoldable pub mark : List Oid → Oid → Marked → Marked
mark stop oid m = if has (lower oid) stop then record m { seen = add oid m.seen } else record {
  seen = add oid m.seen;
  needed = add oid m.needed;
  to_process = m.to_process ++ (oid ∷ []);
}

unfoldable pub mark_all : List Oid → List Oid → Marked → Marked
mark_all stop [] m = m
mark_all stop (oid ∷ oids) m = mark_all stop oids (mark stop oid m)

-- The names that the memo knows, as `refsMap`.
unfoldable pub memo_hits : Option Refs → List Oid → Refs → Refs
memo_hits none oids m = m
memo_hits (some memo) [] m = m
memo_hits (some memo) (oid ∷ oids) m = elim (lookup (lower oid) memo) [
  | none ↦ memo_hits (some memo) oids m
  | some refs ↦ memo_hits (some memo) oids (insert oid refs m)
]

-- The loop over `batchOids`: what it puts into `refsMap`, and into the memo.
unfoldable pub batch_refs : Refs → List Oid → Refs → Refs
batch_refs batch [] m = m
batch_refs batch (oid ∷ oids) m = elim (lookup oid batch) [
  | none ↦ batch_refs batch oids m
  | some refs ↦ batch_refs batch oids (insert oid refs m)
]

unfoldable pub memo_refs : Refs → List Oid → Option Refs → Option Refs
memo_refs batch oids none = none
memo_refs batch [] (some memo) = some memo
memo_refs batch (oid ∷ oids) (some memo) = elim (lookup oid batch) [
  | none ↦ memo_refs batch oids (some memo)
  | some refs ↦ memo_refs batch oids (some (insert (lower oid) refs memo))
]

-- The references that have not been seen, in the order of the map.
unfoldable pub new_refs : List Oid → Refs → List Oid
new_refs seen [] = []
new_refs seen ((oid, refs) ∷ m) = keep (λ r. not (has r seen)) refs ++ new_refs seen m

-- The answer to a batch that is not asked for or that fails is an empty map.
unfoldable pub answer : Option Refs → Refs
answer none = []
answer (some batch) = batch

module _ (stop : List Oid) (read_refs : ℕ → List Oid → Option Refs) where
  -- The end of a round, with what the batch was answered.
  unfoldable pub push_refs : Search → Marked → List Oid → List Oid → Refs → Refs → Search
  push_refs s m queue batch_oids hits batch = record {
    queue = queue ++ new_refs m.seen (batch_refs batch batch_oids hits);
    seen = m.seen;
    needed = m.needed;
    memo = memo_refs batch batch_oids s.memo;
    timed_out = s.timed_out;
  }

  unfoldable pub expand : ℕ → Search → List Oid → Marked → Search
  expand t s queue m =
      let hits = memo_hits s.memo m.to_process [] in
      let batch_oids = keep (λ o. not (is_some (lookup o hits))) m.to_process in
      let batch = if is_nil batch_oids then [] else answer (read_refs t batch_oids) in
      if is_nil m.to_process
      then record s { queue = queue; seen = m.seen; needed = m.needed }
      else push_refs s m queue batch_oids hits batch

  -- One round over a batch of at most 128 names.
  unfoldable pub search_round : ℕ → Search → Search
  search_round t s =
      let unseen = keep (λ o. not (has o s.seen)) (take 128 s.queue) in
      expand t s (drop 128 s.queue)
        (mark_all stop unseen (record { seen = s.seen; needed = s.needed; to_process = [] }))

  -- `none` is a search that the fuel does not finish. `late` says whether the timeout is over.
  unfoldable pub search_loop : (ℕ → Bool) → ℕ → ℕ → Search → Option Search
  search_loop late zero t s = if is_nil s.queue then some s else none
  search_loop late (suc f) t s = elim (is_nil s.queue) [
    | true ↦ some s
    | false ↦ elim (late t) [
      | true ↦ some (record s { timed_out = s.timed_out || is_some s.memo })
      | false ↦ search_loop late f (t + 1) (search_round t s)
    ]
  ]

abbrev pub start_search : List Oid → Option Refs → Search
start_search wants memo = record {
  queue = wants;
  seen = [];
  needed = [];
  memo = memo;
  timed_out = false;
}
