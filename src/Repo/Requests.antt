-- ===== src/Repo/Requests.antt =====
-- src/worker/do/repo/catalog/compaction/requests.ts and `loadCompactionContext` of plan.ts.
use gitedge.Shared.{ℕ, Bool, List, Option, none, some, or_number, is_some}
use gitedge.Repo.State.{RepoStateSchema, PackCatalogRow, Clock}
use gitedge.Repo.Metadata.{ensure_repo_metadata_defaults}
use gitedge.Repo.Catalog.{list_active_pack_catalog}
use gitedge.Repo.Plan.{CompactionPlan, select_compaction_plan, schedule_compaction_wake}

pub record CompactionContext : Type 0 where
  pub pack_catalog_version : ℕ
  pub wanted_at : Option ℕ
  pub active_catalog : List PackCatalogRow
  pub plan : Option CompactionPlan

unfoldable pub load_compaction_context : RepoStateSchema → RepoStateSchema × CompactionContext
unfolding ensure_repo_metadata_defaults list_active_pack_catalog select_compaction_plan
load_compaction_context s₀ =
    let s = ensure_repo_metadata_defaults s₀ in
    let catalog = list_active_pack_catalog s.pack_catalog in
    (
      s,
      record {
        pack_catalog_version = or_number s.packset_version 0;
        wanted_at = s.compaction_wanted_at;
        active_catalog = catalog;
        plan = select_compaction_plan catalog;
      },
    )

-- The status is "ok" exactly where there is a plan.
pub record PreviewCompactionResult : Type 0 where
  pub queued : Bool
  pub context : CompactionContext

unfoldable pub preview_compaction_state :
    RepoStateSchema → RepoStateSchema × PreviewCompactionResult
unfolding load_compaction_context
preview_compaction_state s₀ =
    let (s, context) = load_compaction_context s₀ in
    (s, record { queued = is_some context.wanted_at; context = context })

pub data RequestCompactionResult : Type 0 where
  no_work : CompactionContext → RequestCompactionResult
  queued : ℕ → CompactionPlan → CompactionContext → RequestCompactionResult

-- What is done with the plan.
unfoldable pub request_plan :
    Clock
    → CompactionContext
    → Option CompactionPlan
    → RepoStateSchema
    → RepoStateSchema × RequestCompactionResult
unfolding schedule_compaction_wake
request_plan clock context none s = (record s { compaction_wanted_at = none }, no_work context)
request_plan clock context (some plan) s = (
  schedule_compaction_wake (clock 1) (clock 2) (record s { compaction_wanted_at = some (clock 0) }),
  queued (clock 0) plan context,
)

unfoldable pub request_compaction_state :
    Clock → RepoStateSchema → RepoStateSchema × RequestCompactionResult
unfolding load_compaction_context request_plan
request_compaction_state clock s₀ =
    let (s, context) = load_compaction_context s₀ in request_plan clock context context.plan s

unfoldable pub clear_compaction_request_state : RepoStateSchema → RepoStateSchema × Bool
clear_compaction_request_state s =
    (record s { compaction_wanted_at = none }, is_some s.compaction_wanted_at)
