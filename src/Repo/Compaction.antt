-- ===== src/Repo/Compaction.antt =====
-- src/worker/do/repo/catalog/compaction/lease.ts and requests.ts: the life of a compaction.
-- The fixed texts of the messages are left out.
pub mod Begin
pub mod Commit
use gitedge.Shared.{
  ℕ, ◌+◌, String, Bool, true, false, List, [], ◌∷◌, Option, none, some, map, ltb, ◌==◌,
  if◌then◌else◌, or_number, is_some,
}
use gitedge.Repo.State.{RepoStateSchema, RepoLease, PackCatalogRow, PackKind, PackState, Clock}
use gitedge.Repo.Metadata.{
  compact_lease_ttl_ms, lease_retry_after_seconds, compaction_rearm_delay_ms,
  ensure_repo_metadata_defaults, bump_packset_version, active_lease_or_undefined,
}
use gitedge.Repo.Catalog.{
  list_active_pack_catalog, get_pack_catalog_row, upsert_pack_catalog_row,
  supersede_pack_catalog_rows,
}
use gitedge.Repo.Leases.{clear_expired_leases, new_lease, holds_token}
use gitedge.Repo.Plan.{
  CompactionPlan, select_compaction_plan, catalog_needs_compaction, rows_match_for_commit,
  schedule_compaction_wake, schedule_compaction_alarm,
}

pub data BusyReason : Type 0 where
  receive_active compact_active : BusyReason

pub data NoWorkReason : Type 0 where
  not_requested below_threshold : NoWorkReason

pub record CompactionGrant : Type 0 where
  pub lease : RepoLease
  pub packset_version : ℕ
  pub active_catalog : List PackCatalogRow
  pub source_packs : List PackCatalogRow
  pub target_tier : ℕ

pub data BeginCompactionResult : Type 0 where
  begun : CompactionGrant → BeginCompactionResult
  busy : ℕ → BusyReason → BeginCompactionResult
  no_work : NoWorkReason → BeginCompactionResult

-- The end of `beginCompactionState`: what is done with the plan for the active catalog.
unfoldable pub grant_plan :
    ℕ
    → String
    → List PackCatalogRow
    → Option CompactionPlan
    → RepoStateSchema
    → RepoStateSchema × BeginCompactionResult
grant_plan now uuid active_catalog none s =
    (record s { compaction_wanted_at = none }, no_work below_threshold)
grant_plan now uuid active_catalog (some plan) s = (
  record s { compact_lease = some (new_lease uuid now compact_lease_ttl_ms) },
  begun (record {
    lease = new_lease uuid now compact_lease_ttl_ms;
    packset_version = or_number s.packset_version 0;
    active_catalog = active_catalog;
    source_packs = plan.source_packs;
    target_tier = plan.target_tier;
  }),
)

unfoldable pub grant_compaction :
    ℕ → String → RepoStateSchema → RepoStateSchema × BeginCompactionResult
unfolding list_active_pack_catalog select_compaction_plan grant_plan
grant_compaction now uuid s =
    let active_catalog = list_active_pack_catalog s.pack_catalog in
    grant_plan now uuid active_catalog (select_compaction_plan active_catalog) s

-- `beginCompactionState` past its defaults, by the moment at which a compaction was wanted.
unfoldable pub begin_wanted :
    ℕ → String → Option ℕ → RepoStateSchema → RepoStateSchema × BeginCompactionResult
unfolding active_lease_or_undefined grant_compaction
begin_wanted now uuid none s = (s, no_work not_requested)
begin_wanted now uuid (some wanted_at) s =
    if is_some (active_lease_or_undefined s.receive_lease now)
    then (s, busy lease_retry_after_seconds receive_active)
    else if is_some (active_lease_or_undefined s.compact_lease now)
    then (s, busy lease_retry_after_seconds compact_active)
    else grant_compaction now uuid s

unfoldable pub begin_compaction_state :
    Clock → String → RepoStateSchema → RepoStateSchema × BeginCompactionResult
unfolding clear_expired_leases ensure_repo_metadata_defaults begin_wanted
begin_compaction_state clock uuid s₀ =
    let s = ensure_repo_metadata_defaults (clear_expired_leases (clock 0) s₀) in
    begin_wanted (clock 1) uuid s.compaction_wanted_at s

pub record StagedPack : Type 0 where
  pub pack_key : String
  pub pack_bytes : ℕ
  pub idx_bytes : ℕ
  pub object_count : ℕ

pub record CommitArgs : Type 0 where
  pub token : String
  pub source_packs : List PackCatalogRow
  pub target_tier : ℕ
  pub packset_version : ℕ
  pub staged_pack : StagedPack

pub data RetryReason : Type 0 where
  receive_active lease_mismatch packset_changed source_changed : RetryReason

pub record Committed : Type 0 where
  pub pack_catalog_version : ℕ
  pub should_requeue : Bool
  pub superseded_pack_keys : List String
  pub target_pack_key : String

-- `fault` is the exception of `sourcePacks[0]!.seqLo` on no source packs.
pub data CommitCompactionResult : Type 0 where
  committed : Committed → CommitCompactionResult
  retry : RetryReason → CommitCompactionResult
  fault : CommitCompactionResult

-- The rows that the source packs have now; a missing row is skipped.
unfoldable pub current_rows : List PackCatalogRow → List PackCatalogRow → List PackCatalogRow
unfolding get_pack_catalog_row
current_rows [] t = []
current_rows (source ∷ sources) t = elim (get_pack_catalog_row source.pack_key t) [
  | none ↦ current_rows sources t
  | some row ↦ row ∷ current_rows sources t
]

unfoldable pub lowest_seq : ℕ → List PackCatalogRow → ℕ
lowest_seq lo [] = lo
lowest_seq lo (p ∷ ps) = lowest_seq (if ltb p.seq_lo lo then p.seq_lo else lo) ps

unfoldable pub highest_seq : ℕ → List PackCatalogRow → ℕ
highest_seq hi [] = hi
highest_seq hi (p ∷ ps) = highest_seq (if ltb hi p.seq_hi then p.seq_hi else hi) ps

abbrev pub pack_keys : List PackCatalogRow → List String
pack_keys = map (λ row. row.pack_key)

-- The row of the new pack, over the range of its sources.
unfoldable pub compacted_row : ℕ → CommitArgs → PackCatalogRow → PackCatalogRow
unfolding lowest_seq highest_seq
compacted_row now args first = record {
  pack_key = args.staged_pack.pack_key;
  kind = PackKind.compact;
  state = PackState.active;
  tier = args.target_tier;
  seq_lo = lowest_seq first.seq_lo args.source_packs;
  seq_hi = highest_seq first.seq_hi args.source_packs;
  object_count = args.staged_pack.object_count;
  pack_bytes = args.staged_pack.pack_bytes;
  idx_bytes = args.staged_pack.idx_bytes;
  created_at = now;
  superseded_by = none;
}

-- The table after the insertion of the new pack and the retirement of its sources.
unfoldable pub swap_packs :
    ℕ → CommitArgs → PackCatalogRow → List PackCatalogRow → List PackCatalogRow
unfolding compacted_row upsert_pack_catalog_row supersede_pack_catalog_rows
swap_packs now args first t =
    supersede_pack_catalog_rows (pack_keys args.source_packs) (some args.staged_pack.pack_key)
      (upsert_pack_catalog_row (compacted_row now args first) t)

-- A request is recorded anew if the catalog is still over the policy, and cleared if not.
unfoldable pub requeue : Clock → Bool → RepoStateSchema → RepoStateSchema
unfolding schedule_compaction_wake
requeue clock again s =
    if again
    then schedule_compaction_wake (clock 3) (clock 4)
        (record s { compaction_wanted_at = some (clock 2) })
    else record s { compaction_wanted_at = none }

-- The end of `commitCompactionState`, past its checks.
unfoldable pub commit_packs :
    Clock → CommitArgs → PackCatalogRow → RepoStateSchema → RepoStateSchema × CommitCompactionResult
unfolding swap_packs bump_packset_version list_active_pack_catalog catalog_needs_compaction requeue
commit_packs clock args first s =
    let t = swap_packs (clock 1) args first s.pack_catalog in
    let (s₁, version) = bump_packset_version (record s { pack_catalog = t }) in
    let again = catalog_needs_compaction (list_active_pack_catalog t) in
    let s₂ = requeue clock again s₁ in
    (
      record s₂ { compact_lease = none },
      committed (record {
        pack_catalog_version = version;
        should_requeue = again;
        superseded_pack_keys = pack_keys args.source_packs;
        target_pack_key = args.staged_pack.pack_key;
      }),
    )

-- The first source pack is read without a check.
unfoldable pub commit_sources :
    Clock
    → CommitArgs
    → List PackCatalogRow
    → RepoStateSchema
    → RepoStateSchema × CommitCompactionResult
commit_sources clock args [] s = (s, fault)
commit_sources clock args (first ∷ rest) s = commit_packs clock args first s

abbrev give_up : RetryReason → RepoStateSchema → RepoStateSchema × CommitCompactionResult
give_up reason s = (record s { compact_lease = none }, retry reason)

unfoldable pub commit_compaction_state :
    Clock → CommitArgs → RepoStateSchema → RepoStateSchema × CommitCompactionResult
unfolding ensure_repo_metadata_defaults holds_token active_lease_or_undefined current_rows
    rows_match_for_commit commit_sources commit_packs
commit_compaction_state clock args s₀ =
    let s = ensure_repo_metadata_defaults s₀ in
    if holds_token s.compact_lease args.token
    then if is_some (active_lease_or_undefined s.receive_lease (clock 0))
      then give_up receive_active s
      else if or_number s.packset_version 0 == args.packset_version
      then if rows_match_for_commit args.source_packs
          (current_rows args.source_packs s.pack_catalog)
        then commit_sources clock args args.source_packs s
        else give_up source_changed s
      else give_up packset_changed s
    else (s, retry lease_mismatch)

-- The queue is outside: `sent` says whether `send` succeeded. The result is whether it was tried.
unfoldable pub rearm_compaction_queue_from_alarm :
    Clock → Bool → RepoStateSchema → RepoStateSchema × Bool
unfolding ensure_repo_metadata_defaults active_lease_or_undefined schedule_compaction_alarm
rearm_compaction_queue_from_alarm clock sent s₀ =
    let s = ensure_repo_metadata_defaults s₀ in
    elim (s.compaction_wanted_at) [
      | none ↦ (s, false)
      | some wanted_at ↦
          if is_some (active_lease_or_undefined s.receive_lease (clock 0))
          then (s, false)
          else if is_some (active_lease_or_undefined s.compact_lease (clock 0))
          then (s, false)
          else if sent
          then (s, true)
          else (schedule_compaction_alarm compaction_rearm_delay_ms (clock 1) (clock 2) s, true)
    ]
