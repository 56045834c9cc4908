-- ===== src/Repo/Object.antt =====
-- src/worker/do/repo/repoDO.ts: the calls of the durable object, one at a time, and
-- src/worker/do/repo/repoDO/seeding.ts.
pub mod Changes
pub mod Wake
pub mod Run
pub mod Advance
pub mod Invariant
use gitedge.Shared.{
  ℕ, suc, ◌+◌, or_number, String, Bool, true, false, List, [], ◌∷◌, Option, none, some,
  if◌then◌else◌,
}
use gitedge.Repo.State.{RepoStateSchema, RepoLease, Ref, Head, Clock}
use gitedge.Repo.Metadata.{
  RepoActivitySnapshot, idle, receiving, compacting, get_repo_activity_snapshot,
}
use gitedge.Repo.Alarm.{ensure_access_and_alarm}
use gitedge.Repo.Refs.{set_refs, set_head, resolve_head}
use gitedge.Repo.Leases.{
  clear_expired_leases, begin_receive_lease, abort_receive_lease, abort_compaction_lease,
}
use gitedge.Repo.Catalog.{upsert_pack_catalog_row}
use gitedge.Repo.Receive.{FinalizeArgs, received_row, finalize_receive_state}
use gitedge.Repo.Compaction.{
  StagedPack, CommitArgs, begin_compaction_state, commit_compaction_state,
  rearm_compaction_queue_from_alarm,
}
use gitedge.Repo.Requests.{
  preview_compaction_state, request_compaction_state, clear_compaction_request_state,
}
use gitedge.Repo.Maintenance.{handle_idle_and_maintenance}
use gitedge.Repo.Packs.{remove_pack}

-- `getRepoActivity`: the state, the start and the end of the lease that is held.
pub data RepoActivity : Type 0 where
  receive_activity : ℕ → ℕ → RepoActivity
  compact_activity : ℕ → ℕ → RepoActivity

unfoldable pub get_repo_activity : ℕ → RepoStateSchema → Option RepoActivity
unfolding get_repo_activity_snapshot
get_repo_activity now s = elim (get_repo_activity_snapshot now s) [
  | idle wanted_at ↦ none
  | receiving lease ↦ some (receive_activity lease.created_at lease.expires_at)
  | compacting lease wanted_at ↦ some (compact_activity lease.created_at lease.expires_at)
]

-- `seedMinimalRepoState`, with the pack that it has put into the bucket and the object name of its
-- commit. The loose objects that it writes without a pack stand under other keys.
unfoldable pub seed_pack : ℕ → Option StagedPack → RepoStateSchema → RepoStateSchema
unfolding received_row upsert_pack_catalog_row
seed_pack created_at none s = s
seed_pack created_at (some pack) s =
    let seq = or_number s.next_pack_seq 1 in
    record s {
      pack_catalog = upsert_pack_catalog_row (received_row created_at seq pack) s.pack_catalog;
      packset_version = some (or_number s.packset_version 0 + 1);
      next_pack_seq = some (seq + 1);
    }

unfoldable pub seed_minimal_repo_state :
    ℕ → Option StagedPack → String → RepoStateSchema → RepoStateSchema
unfolding seed_pack
seed_minimal_repo_state created_at pack commit_oid s = record (seed_pack created_at pack s) {
  refs = some (record { name = "refs/heads/main"; oid = commit_oid } ∷ []);
  head = some (record { target = "refs/heads/main"; oid = none; unborn = false });
}

-- The calls that note the access first; `reads` stands for those that only read then. The call
-- `clearRepositoryStorage` does not note the access, and is `clear_repository_storage`.
pub data Call : Type 0 where
  reads : Call
  sets_refs : List Ref → Call
  sets_head : Head → Call
  gets_head : Call
  begins_receive : String → Call
  aborts_receive : String → Call
  finalizes_receive : FinalizeArgs → Call
  begins_compaction : String → Call
  aborts_compaction : String → Call
  commits_compaction : CommitArgs → Call
  previews_compaction : Call
  requests_compaction : Call
  clears_request : Call
  removes_pack : String → Bool × Bool × Bool → String → Call
  seeds : Option StagedPack → String → Call

-- The body of a call.
unfoldable pub serve : Clock → Call → RepoStateSchema → RepoStateSchema
unfolding set_refs set_head resolve_head begin_receive_lease abort_receive_lease
    finalize_receive_state begin_compaction_state abort_compaction_lease commit_compaction_state
    preview_compaction_state request_compaction_state clear_compaction_request_state remove_pack
    seed_minimal_repo_state
serve clock reads s = s
serve clock (sets_refs refs) s = set_refs refs s
serve clock (sets_head head) s = set_head head s
serve clock gets_head s = (resolve_head s).0
serve clock (begins_receive uuid) s = (begin_receive_lease clock uuid s).0
serve clock (aborts_receive token) s = (abort_receive_lease token s).0
serve clock (finalizes_receive args) s = (finalize_receive_state clock args s).0
serve clock (begins_compaction uuid) s = (begin_compaction_state clock uuid s).0
serve clock (aborts_compaction token) s = (abort_compaction_lease token s).0
serve clock (commits_compaction args) s = (commit_compaction_state clock args s).0
serve clock previews_compaction s = (preview_compaction_state s).0
serve clock requests_compaction s = (request_compaction_state clock s).0
serve clock clears_request s = (clear_compaction_request_state s).0
serve clock (removes_pack prefix deletes key) s = (remove_pack prefix deletes key s).0
serve clock (seeds pack commit_oid) s = seed_minimal_repo_state (clock 0) pack commit_oid s

-- Every call notes the access first, at the time that `now` gives.
unfoldable pub call : ℕ → ℕ → Clock → Call → RepoStateSchema → RepoStateSchema
unfolding ensure_access_and_alarm serve
call idle_ms now clock c s = serve clock c (ensure_access_and_alarm idle_ms now s)

-- `alarm()`: expired leases go, then the queue is rearmed, or else the idle cleanup runs. The alarm
-- that fires is not set any more.
unfoldable pub alarm : ℕ → Clock → Bool → RepoStateSchema → RepoStateSchema
unfolding clear_expired_leases rearm_compaction_queue_from_alarm handle_idle_and_maintenance
alarm idle_ms clock sent s =
    let (s', rearmed) =
      rearm_compaction_queue_from_alarm (λ i. clock (suc i)) sent
        (clear_expired_leases (clock 0) (record s { alarm = none })) in
    if rearmed then s' else handle_idle_and_maintenance idle_ms (clock 2) s'
