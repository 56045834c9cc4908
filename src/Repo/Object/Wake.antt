-- ===== src/Repo/Object/Wake.antt =====
-- What an alarm can change.
use gitedge.Shared.{
  ℕ, suc, ◌≡◌, refl, Bool, true, List, [], ◌∷◌, none, ◌⊎◌, inl, inr, or_else, is_nil, Bool-cases,
  arith,
}
use gitedge.Repo.State.{RepoStateSchema}
use gitedge.Repo.Catalog.{get_active_pack_catalog_count}
use gitedge.Repo.Content.{SameContent, SameContent-trans}
use gitedge.Repo.Leases.{clear_expired_leases}
use gitedge.Repo.Compaction.{rearm_compaction_queue_from_alarm}
use gitedge.Repo.Maintenance.{
  IdleCleanupDecision, has_no_head, idle_exceeded, decide_idle_cleanup, follow, active, empty_idle,
  nonempty_idle, handle_idle_and_maintenance,
}
use gitedge.Repo.Refs.{get_refs}
use gitedge.Repo.Object.{alarm}
use gitedge.Repo.Object.Changes.{clear-SameContent, rearm-SameContent}

-- A repository with nothing in it that has not been accessed for a long time.
pub record IsAbandoned (idle_ms now : ℕ) (s : RepoStateSchema) : Type 0 where
  pub no_refs : get_refs s ≡ []
  pub no_head : has_no_head s.head ≡ true
  pub no_packs : get_active_pack_catalog_count s.pack_catalog ≡ 0
  pub idle : idle_exceeded idle_ms s.last_access_ms now ≡ true

is_nil→nil {ℓ} : {A : Type ℓ} (xs : List A) → is_nil xs ≡ true → xs ≡ []
is_nil→nil [] h = refl
is_nil→nil (x ∷ xs) h = cc

empty_idle-IsAbandoned :
    (idle_ms now : ℕ) (s : RepoStateSchema)
    → decide_idle_cleanup idle_ms now s ≡ IdleCleanupDecision.empty_idle
    → IsAbandoned idle_ms now s
unfolding decide_idle_cleanup get_refs
empty_idle-IsAbandoned idle_ms now s h = record {
  no_refs = is_nil→nil (or_else s.refs []) (ground arith);
  no_head = ground arith;
  no_packs = ground arith;
  idle = ground arith;
}

-- Either the content stays, or the repository was abandoned and everything is deleted.
abbrev pub KeepsOrDeletes : ℕ → ℕ → RepoStateSchema → RepoStateSchema → Type 0
KeepsOrDeletes idle_ms now s s' =
    SameContent s s'
    ⊎ ((s'.refs ≡ none)
        × (s'.head ≡ none)
        × (s'.pack_catalog ≡ [])
        × (s'.alarm ≡ none)
        × IsAbandoned idle_ms now s)

follow-KeepsOrDeletes :
    (idle_ms now : ℕ) (d : IdleCleanupDecision) (s : RepoStateSchema)
    → decide_idle_cleanup idle_ms now s ≡ d
    → KeepsOrDeletes idle_ms now s (follow idle_ms now d s)
unfolding follow
follow-KeepsOrDeletes idle_ms now active s e = inl (ground arith)
follow-KeepsOrDeletes idle_ms now empty_idle s e =
    inr (refl, refl, refl, refl, empty_idle-IsAbandoned idle_ms now s e)
follow-KeepsOrDeletes idle_ms now nonempty_idle s e = inl (ground arith)

same-IsAbandoned :
    (idle_ms now : ℕ) (s t : RepoStateSchema)
    → SameContent s t
    → t.last_access_ms ≡ s.last_access_ms
    → IsAbandoned idle_ms now t
    → IsAbandoned idle_ms now s
unfolding get_refs
same-IsAbandoned idle_ms now s t same access gone = record {
  no_refs = rw same.same_refs at gone.no_refs;
  no_head = rw same.same_head at gone.no_head;
  no_packs = rw same.same_catalog at gone.no_packs;
  idle = rw access at gone.idle;
}

same-KeepsOrDeletes :
    (idle_ms now : ℕ) (s t u : RepoStateSchema)
    → SameContent s t
    → t.last_access_ms ≡ s.last_access_ms
    → KeepsOrDeletes idle_ms now t u
    → KeepsOrDeletes idle_ms now s u
same-KeepsOrDeletes idle_ms now s t u same access (inl kept) = inl (SameContent-trans same kept)
same-KeepsOrDeletes idle_ms now s t u same access (inr (refs, head, catalog, off, gone)) =
    inr (refs, head, catalog, off, same-IsAbandoned idle_ms now s t same access gone)

-- An alarm keeps the refs, HEAD, the catalog and the versions, or else it deletes everything, and it
-- does that only to a repository without refs, without a HEAD that names an object and without
-- active packs, whose last access is unknown, 0, or as long ago as the idle time.
pub alarm-KeepsOrDeletes :
    (idle_ms : ℕ) (clock : ℕ → ℕ) (sent : Bool) (s : RepoStateSchema)
    → KeepsOrDeletes idle_ms (clock 2) s (alarm idle_ms clock sent s)
unfolding alarm handle_idle_and_maintenance
alarm-KeepsOrDeletes idle_ms clock sent s =
    let fired : RepoStateSchema = record s { alarm = none } in
    let cleared = clear_expired_leases (clock 0) fired in
    let r = rearm_compaction_queue_from_alarm (λ i. clock (suc i)) sent cleared in
    let same = SameContent-trans (fired-SameContent s) (
      SameContent-trans (clear-SameContent (clock 0) fired)
        (rearm-SameContent (λ i. clock (suc i)) sent cleared)) in
    elim (Bool-cases r.1) [
      | inl y ↦ rw y (inl same)
      | inr n ↦ rw n (
          same-KeepsOrDeletes idle_ms (clock 2) s r.0 _ same (rearm_access clock sent fired)
            (follow-KeepsOrDeletes idle_ms (clock 2) _ r.0 refl))
    ]
  where
    fired-SameContent : (s : RepoStateSchema) → SameContent s (record s { alarm = none })
    fired-SameContent s = ground arith

    rearm_access :
        (clock : ℕ → ℕ) (sent : Bool) (s : RepoStateSchema)
        → (rearm_compaction_queue_from_alarm
            (λ i. clock (suc i))
            sent
            (clear_expired_leases (clock 0) s)).0.last_access_ms
          ≡ s.last_access_ms
    rearm_access clock sent s =
        unfold rearm_compaction_queue_from_alarm clear_expired_leases in ground arith
