-- ===== src/Repo/Maintenance.antt =====
-- src/worker/do/repo/maintenance.ts and `clearRepositoryStorage` of packOperations.ts. The R2
-- objects that the cleanup purges are outside, and so is what a failing call logs.
use gitedge.Shared.{
  ℕ, ◌+◌, Bool, true, ◌&&◌, ◌||◌, [], Option, none, some, leb, ◌==◌, if◌then◌else◌, or_else,
  or_number, is_nil,
}
use gitedge.Shared.Text.{is_empty}
use gitedge.Repo.State.{RepoStateSchema, Head}
use gitedge.Repo.Catalog.{get_active_pack_catalog_count}
use gitedge.Repo.Alarm.{ensure_scheduled}

pub data IdleCleanupDecision : Type 0 where
  active empty_idle nonempty_idle : IdleCleanupDecision

-- `!head || head.unborn || !head.target`
unfoldable pub has_no_head : Option Head → Bool
has_no_head none = true
has_no_head (some head) = head.unborn || is_empty head.target

-- `!lastAccess || now - lastAccess >= idleMs`
unfoldable pub idle_exceeded : ℕ → Option ℕ → ℕ → Bool
idle_exceeded idle_ms last_access now =
    or_number last_access 0 == 0 || leb (or_number last_access 0 + idle_ms) now

unfoldable pub decide_idle_cleanup : ℕ → ℕ → RepoStateSchema → IdleCleanupDecision
unfolding idle_exceeded has_no_head get_active_pack_catalog_count
decide_idle_cleanup idle_ms now s =
    if idle_exceeded idle_ms s.last_access_ms now
    then if is_nil (or_else s.refs [])
        && has_no_head s.head
        && get_active_pack_catalog_count s.pack_catalog == 0
      then empty_idle
      else nonempty_idle
    else active

-- `deleteAll` clears the storage, the table and the alarm. What is kept in memory stays.
unfoldable pub delete_all : RepoStateSchema → RepoStateSchema
delete_all s = record {
  refs = none;
  head = none;
  refs_version = none;
  packset_version = none;
  next_pack_seq = none;
  receive_lease = none;
  compact_lease = none;
  compaction_wanted_at = none;
  last_access_ms = none;
  pack_catalog = [];
  alarm = none;
  last_access_mem_ms = s.last_access_mem_ms;
}

-- What the idle check does with its decision.
unfoldable pub follow : ℕ → ℕ → IdleCleanupDecision → RepoStateSchema → RepoStateSchema
unfolding ensure_scheduled delete_all
follow idle_ms now active s = (ensure_scheduled idle_ms now s).0
follow idle_ms now empty_idle s = delete_all s
follow idle_ms now nonempty_idle s = record s { alarm = none }

unfoldable pub handle_idle_and_maintenance : ℕ → ℕ → RepoStateSchema → RepoStateSchema
unfolding decide_idle_cleanup follow
handle_idle_and_maintenance idle_ms now s = follow idle_ms now (decide_idle_cleanup idle_ms now s) s

unfoldable pub clear_repository_storage : RepoStateSchema → RepoStateSchema
unfolding delete_all
clear_repository_storage s = delete_all s
