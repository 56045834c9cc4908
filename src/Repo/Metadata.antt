-- ===== src/Repo/Metadata.antt =====
-- src/worker/do/repo/catalog/shared.ts and activity.ts: constants, metadata defaults, leases in time.
use gitedge.Shared.{
  ℕ, ◌+◌, ◌*◌, String, Bool, true, false, List, [], ◌∷◌, Option, none, some, ltb, if◌then◌else◌,
  or_number, ◌||◌,
}
use gitedge.Shared.Text.{is_empty, str_eq}
use gitedge.Repo.State.{RepoStateSchema, RepoLease, Head}

abbrev pub receive_lease_ttl_ms : ℕ
receive_lease_ttl_ms = 30 * 60000

abbrev pub compact_lease_ttl_ms : ℕ
compact_lease_ttl_ms = 20 * 60000

abbrev pub lease_retry_after_seconds : ℕ
lease_retry_after_seconds = 10

abbrev pub compaction_rearm_delay_ms : ℕ
compaction_rearm_delay_ms = 60000

abbrev pub compaction_wake_delay_ms : ℕ
compaction_wake_delay_ms = 5000

abbrev pub default_head : Head
default_head = record { target = "refs/heads/main"; oid = none; unborn = true }

abbrev default_to : ℕ → Option ℕ → Option ℕ
default_to d none = some d
default_to d (some n) = some n

unfoldable pub ensure_repo_metadata_defaults : RepoStateSchema → RepoStateSchema
ensure_repo_metadata_defaults s = record s {
  refs_version = default_to 0 s.refs_version;
  packset_version = default_to 0 s.packset_version;
  next_pack_seq = default_to 1 s.next_pack_seq;
}

-- The new version is what the call returns.
unfoldable pub bump_packset_version : RepoStateSchema → RepoStateSchema × ℕ
bump_packset_version s =
    let next = or_number s.packset_version 0 + 1 in (record s { packset_version = some next }, next)

unfoldable pub active_lease_or_undefined : Option RepoLease → ℕ → Option RepoLease
active_lease_or_undefined none now = none
active_lease_or_undefined (some lease) now = if ltb now lease.expires_at then some lease else none

-- `uniq` drops empty texts and repeated ones.
member : String → List String → Bool
member x [] = false
member x (y ∷ ys) = str_eq y x || member x ys

unfoldable pub uniq_from : List String → List (Option String) → List String
unfolding member
uniq_from seen [] = []
uniq_from seen (none ∷ items) = uniq_from seen items
uniq_from seen (some item ∷ items) =
    let skipped = uniq_from seen items in
    let taken = item ∷ uniq_from (item ∷ seen) items in
    if is_empty item || member item seen then skipped else taken

unfoldable pub uniq : List (Option String) → List String
uniq items = uniq_from [] items

pub data RepoActivitySnapshot : Type 0 where
  idle : Option ℕ → RepoActivitySnapshot
  receiving : RepoLease → RepoActivitySnapshot
  compacting : RepoLease → Option ℕ → RepoActivitySnapshot

unfoldable pub get_repo_activity_snapshot : ℕ → RepoStateSchema → RepoActivitySnapshot
unfolding active_lease_or_undefined
get_repo_activity_snapshot now s = elim (active_lease_or_undefined s.receive_lease now) [
  | some lease ↦ receiving lease
  | none ↦ elim (active_lease_or_undefined s.compact_lease now) [
    | some lease ↦ compacting lease s.compaction_wanted_at
    | none ↦ idle s.compaction_wanted_at
  ]
]
