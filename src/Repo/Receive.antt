-- ===== src/Repo/Receive.antt =====
-- src/worker/do/repo/catalog/receive.ts: the end of a push. The fixed texts of messages are left out.
pub mod Staged
pub mod Laws
use gitedge.Shared.{
  ℕ, ◌+◌, String, Bool, true, false, not, List, [], ◌∷◌, Option, none, some, map, if◌then◌else◌,
  or_number, keep, every, is_nil,
}
use gitedge.Repo.State.{RepoStateSchema, PackCatalogRow, PackKind, PackState, Ref, Clock}
use gitedge.Repo.Metadata.{ensure_repo_metadata_defaults, bump_packset_version}
use gitedge.Repo.Catalog.{list_active_pack_catalog, upsert_pack_catalog_row}
use gitedge.Repo.Refs.{
  ReceiveCommand, ReceiveStatus, is_valid_ref_name, validate_receive_commands,
  apply_receive_commands, resolve_target, get_refs,
}
use gitedge.Repo.Leases.{holds_token}
use gitedge.Repo.Plan.{catalog_needs_compaction, schedule_compaction_wake}
use gitedge.Repo.Compaction.{StagedPack}

pub record FinalizeArgs : Type 0 where
  pub token : String
  pub commands : List ReceiveCommand
  pub staged_pack : Option StagedPack

pub record FinalizeCommitted : Type 0 where
  pub statuses : List ReceiveStatus
  pub changed : Bool
  pub empty : Bool
  pub should_queue_compaction : Bool

pub data FinalizeReceiveResult : Type 0 where
  committed : FinalizeCommitted → FinalizeReceiveResult
  ref_conflict : List ReceiveStatus → FinalizeReceiveResult
  lease_mismatch : FinalizeReceiveResult

unfoldable pub invalid_statuses : List ReceiveCommand → List ReceiveStatus
unfolding is_valid_ref_name
invalid_statuses commands =
    map (λ c. record { ref = c.ref; ok = false; msg = some "invalid" })
      (keep (λ (c : ReceiveCommand). not (is_valid_ref_name c.ref)) commands)

unfoldable pub received_row : ℕ → ℕ → StagedPack → PackCatalogRow
received_row now seq staged = record {
  pack_key = staged.pack_key;
  kind = PackKind.receive;
  state = PackState.active;
  tier = 0;
  seq_lo = seq;
  seq_hi = seq;
  object_count = staged.object_count;
  pack_bytes = staged.pack_bytes;
  idx_bytes = staged.idx_bytes;
  created_at = now;
  superseded_by = none;
}

-- `if (shouldQueueCompaction)`
unfoldable pub queue_compaction : Clock → Bool → RepoStateSchema → RepoStateSchema
unfolding schedule_compaction_wake
queue_compaction clock needed s =
    if needed
    then schedule_compaction_wake (clock 2) (clock 3)
        (record s { compaction_wanted_at = some (clock 1) })
    else s

-- `if (args.stagedPack)`: the pack enters the catalog under the next sequence number.
unfoldable pub add_staged_pack :
    Clock → Option StagedPack → RepoStateSchema → RepoStateSchema × Bool
unfolding received_row upsert_pack_catalog_row bump_packset_version list_active_pack_catalog
    catalog_needs_compaction queue_compaction
add_staged_pack clock none s = (s, false)
add_staged_pack clock (some staged) s =
    let seq = or_number s.next_pack_seq 1 in
    let t = upsert_pack_catalog_row (received_row (clock 0) seq staged) s.pack_catalog in
    let s₁ =
      (bump_packset_version (record s { pack_catalog = t; next_pack_seq = some (seq + 1) })).0 in
    let needed = catalog_needs_compaction (list_active_pack_catalog t) in
    (queue_compaction clock needed s₁, needed)

-- The end of `finalizeReceiveState`, past its checks.
unfoldable pub commit_refs :
    Clock
    → FinalizeArgs
    → List ReceiveStatus
    → RepoStateSchema
    → RepoStateSchema × FinalizeReceiveResult
unfolding apply_receive_commands resolve_target add_staged_pack get_refs
commit_refs clock args statuses s =
    let next_refs = apply_receive_commands (get_refs s) args.commands in
    let next_head = resolve_target s.head next_refs in
    let next_version = or_number s.refs_version 0 + 1 in
    let (s₁, needed) = add_staged_pack clock args.staged_pack s in
    (
      record s₁ {
        refs = some next_refs;
        head = some next_head;
        refs_version = some next_version;
        receive_lease = none;
      },
      committed (record {
        statuses = statuses;
        changed = not (is_nil args.commands);
        empty = is_nil next_refs;
        should_queue_compaction = needed;
      }),
    )

unfoldable pub finalize_receive_state :
    Clock → FinalizeArgs → RepoStateSchema → RepoStateSchema × FinalizeReceiveResult
unfolding ensure_repo_metadata_defaults holds_token invalid_statuses validate_receive_commands
    commit_refs
finalize_receive_state clock args s₀ =
    let s = ensure_repo_metadata_defaults s₀ in
    let statuses = validate_receive_commands (get_refs s) args.commands in
    if holds_token s.receive_lease args.token
    then if is_nil (invalid_statuses args.commands)
      then if every (λ status. status.ok) statuses
        then commit_refs clock args statuses s
        else (record s { receive_lease = none }, ref_conflict statuses)
      else (record s { receive_lease = none }, ref_conflict (invalid_statuses args.commands))
    else (s, lease_mismatch)
