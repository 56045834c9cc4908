-- ===== src/Repo/Object/Changes.antt =====
-- How each call changes the catalog and its versions.
use gitedge.Shared.{ℕ, String, Bool, List, Option, none, some, arith}
use gitedge.Repo.State.{RepoStateSchema, PackCatalogRow}
use gitedge.Repo.Catalog.{list_active_pack_catalog}
use gitedge.Repo.Metadata.{ensure_repo_metadata_defaults}
use gitedge.Repo.Content.{SameContent, SameContent-trans, defaults-SameContent}
use gitedge.Repo.Plan.{CompactionPlan, select_compaction_plan, schedule_compaction_wake}
use gitedge.Repo.Alarm.{ensure_access_and_alarm}
use gitedge.Repo.Leases.{
  clear_expired_leases, lease_receive, begin_receive_lease, abort_receive_lease,
  abort_compaction_lease,
}
use gitedge.Repo.Compaction.{grant_plan, begin_compaction_state, rearm_compaction_queue_from_alarm}
use gitedge.Repo.Requests.{
  CompactionContext, request_plan, load_compaction_context, preview_compaction_state,
  request_compaction_state, clear_compaction_request_state,
}

wake-SameContent : (a b : ℕ) (s : RepoStateSchema) → SameContent s (schedule_compaction_wake a b s)
unfolding schedule_compaction_wake
wake-SameContent a b s = ground arith

pub clear-SameContent : (now : ℕ) (s : RepoStateSchema) → SameContent s (clear_expired_leases now s)
unfolding clear_expired_leases
clear-SameContent now s = ground arith

pub access-SameContent :
    (idle_ms now : ℕ) (s : RepoStateSchema) → SameContent s (ensure_access_and_alarm idle_ms now s)
unfolding ensure_access_and_alarm
access-SameContent idle_ms now s = ground arith

lease_receive-SameContent :
    (uuid : String) (now : ℕ) (s : RepoStateSchema) → SameContent s (lease_receive uuid now s)
unfolding lease_receive
lease_receive-SameContent uuid now s = ground arith

pub begin_receive-SameContent :
    (clock : ℕ → ℕ) (uuid : String) (s : RepoStateSchema)
    → SameContent s (begin_receive_lease clock uuid s).0
unfolding begin_receive_lease
begin_receive-SameContent clock uuid s = ground arith

pub abort_receive-SameContent :
    (token : String) (s : RepoStateSchema) → SameContent s (abort_receive_lease token s).0
unfolding abort_receive_lease
abort_receive-SameContent token s = ground arith

pub abort_compaction-SameContent :
    (token : String) (s : RepoStateSchema) → SameContent s (abort_compaction_lease token s).0
unfolding abort_compaction_lease
abort_compaction-SameContent token s = ground arith

grant-SameContent :
    (now : ℕ) (uuid : String) (catalog : List PackCatalogRow) (plan : Option CompactionPlan)
    (s : RepoStateSchema)
    → SameContent s (grant_plan now uuid catalog plan s).0
unfolding grant_plan
grant-SameContent now uuid catalog none s = ground arith
grant-SameContent now uuid catalog (some plan) s = ground arith

pub begin_compaction-SameContent :
    (clock : ℕ → ℕ) (uuid : String) (s : RepoStateSchema)
    → SameContent s (begin_compaction_state clock uuid s).0
unfolding begin_compaction_state
begin_compaction-SameContent clock uuid s =
    let t = ensure_repo_metadata_defaults (clear_expired_leases (clock 0) s) in
    let catalog = list_active_pack_catalog t.pack_catalog in
    let same =
      SameContent-trans (clear-SameContent (clock 0) s)
        (defaults-SameContent (clear_expired_leases (clock 0) s)) in
    ground
      (arith, same, grant-SameContent (clock 1) uuid catalog (select_compaction_plan catalog) t)

pub preview-SameContent : (s : RepoStateSchema) → SameContent s (preview_compaction_state s).0
unfolding preview_compaction_state
preview-SameContent s = defaults-SameContent s

planned-SameContent :
    (clock : ℕ → ℕ) (context : CompactionContext) (plan : Option CompactionPlan)
    (s : RepoStateSchema)
    → SameContent s (request_plan clock context plan s).0
unfolding request_plan
planned-SameContent clock context none s = ground arith
planned-SameContent clock context (some plan) s = ground arith

pub request-SameContent :
    (clock : ℕ → ℕ) (s : RepoStateSchema) → SameContent s (request_compaction_state clock s).0
unfolding request_compaction_state
request-SameContent clock s =
    let (t, context) = load_compaction_context s in
    SameContent-trans (defaults-SameContent s) (planned-SameContent clock context context.plan t)

pub clear_request-SameContent :
    (s : RepoStateSchema) → SameContent s (clear_compaction_request_state s).0
unfolding clear_compaction_request_state
clear_request-SameContent s = ground arith

pub rearm-SameContent :
    (clock : ℕ → ℕ) (sent : Bool) (s : RepoStateSchema)
    → SameContent s (rearm_compaction_queue_from_alarm clock sent s).0
unfolding rearm_compaction_queue_from_alarm
rearm-SameContent clock sent s = ground arith
