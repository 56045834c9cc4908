-- ===== src/Repo/Compaction/Begin.antt =====
-- What the start of a compaction means.
use gitedge.Shared.{
  ℕ, ◌+◌, ◌≤◌, ◌<◌, max, ◌≡◌, refl, String, true, false, Option, none, some, inl, inr, or_number,
  is_some, Bool-cases, Option-cases, arith,
}
use gitedge.Repo.State.{RepoStateSchema, RepoLease}
use gitedge.Repo.Metadata.{
  compact_lease_ttl_ms, ensure_repo_metadata_defaults, active_lease_or_undefined,
}
use gitedge.Repo.Catalog.{list_active_pack_catalog}
use gitedge.Repo.Content.{defaults-SameContent}
use gitedge.Repo.Leases.{unexpired, clear_expired_leases}
use gitedge.Repo.Leases.Exclusion.{IsFree, unexpired-none, unexpired-some}
use gitedge.Repo.Plan.{
  CompactionPlan, compaction_fan_in, select_compaction_plan, catalog_needs_compaction,
}
use gitedge.Repo.Plan.Tiers.{tier_size}
use gitedge.Repo.Plan.Laws.{IsPlan, select-IsPlan, needs_no_compaction_iff}
use gitedge.Repo.Compaction.{
  CompactionGrant, BeginCompactionResult, begun, busy, no_work, receive_active, compact_active,
  not_requested, below_threshold, grant_plan, grant_compaction, begin_wanted,
  begin_compaction_state,
}

-- A compaction that was begun.
pub record IsBegun (clock : ℕ → ℕ) (s s' : RepoStateSchema) (grant : CompactionGrant) : Type 0 where
  pub wanted : is_some s.compaction_wanted_at ≡ true
  pub no_push : IsFree (max (clock 0) (clock 1)) s.receive_lease
  pub no_compaction : IsFree (max (clock 0) (clock 1)) s.compact_lease
  pub stored : s'.compact_lease ≡ some grant.lease
  pub expires : grant.lease.expires_at ≡ clock 1 + compact_lease_ttl_ms
  pub planned :
      (plan : CompactionPlan) × IsPlan (list_active_pack_catalog s.pack_catalog) plan
      × (grant.source_packs ≡ plan.source_packs)
      × (grant.target_tier ≡ plan.target_tier)
  pub version : grant.packset_version ≡ or_number s.packset_version 0

-- A lease that has not expired at either time.
abbrev pub IsHeld : (ℕ → ℕ) → Option RepoLease → Type 0
IsHeld clock o =
    (lease : RepoLease) × (o ≡ some lease)
    × (clock 0 < lease.expires_at)
    × (clock 1 < lease.expires_at)

-- What each answer of `beginCompactionState` means.
abbrev pub BeginCompactionMeans :
    (ℕ → ℕ) → RepoStateSchema → RepoStateSchema → BeginCompactionResult → Type 0
BeginCompactionMeans clock s s' (begun grant) = IsBegun clock s s' grant
BeginCompactionMeans clock s s' (busy after receive_active) = IsHeld clock s.receive_lease
BeginCompactionMeans clock s s' (busy after compact_active) = IsHeld clock s.compact_lease
BeginCompactionMeans clock s s' (no_work not_requested) = s.compaction_wanted_at ≡ none
BeginCompactionMeans clock s s' (no_work below_threshold) =
    ((tier : ℕ) → tier_size tier (list_active_pack_catalog s.pack_catalog) ≤ compaction_fan_in)
    × (s'.compaction_wanted_at ≡ none)

active-IsHeld :
    (clock : ℕ → ℕ) (o : Option RepoLease)
    → is_some (active_lease_or_undefined (unexpired (clock 0) o) (clock 1)) ≡ true
    → IsHeld clock o
unfolding active_lease_or_undefined
active-IsHeld clock o h = elim (Option-cases (unexpired (clock 0) o)) [
  | inl e ↦ absurd (ground arith)
  | inr (lease, e) ↦
      let (stored, before) = unexpired-some (clock 0) o lease e in
      (lease, stored, before, ground arith)
]

active-IsFree :
    (clock : ℕ → ℕ) (o : Option RepoLease)
    → is_some (active_lease_or_undefined (unexpired (clock 0) o) (clock 1)) ≡ false
    → IsFree (max (clock 0) (clock 1)) o
unfolding active_lease_or_undefined
active-IsFree clock o h = elim (Option-cases (unexpired (clock 0) o)) [
  | inl e ↦ elim (unexpired-none (clock 0) o e) [
    | inl n ↦ inl n
    | inr (lease, stored, late) ↦ inr (lease, stored, omega arith)
  ]
  | inr (lease, e) ↦
      let (stored, _) = unexpired-some (clock 0) o lease e in inr (lease, stored, ground arith)
]

-- What the answer means once the leases are known to be free.
grant-BeginCompactionMeans :
    (clock : ℕ → ℕ) (uuid : String) (s d : RepoStateSchema) (o : Option CompactionPlan)
    → is_some s.compaction_wanted_at ≡ true
    → IsFree (max (clock 0) (clock 1)) s.receive_lease
    → IsFree (max (clock 0) (clock 1)) s.compact_lease
    → or_number d.packset_version 0 ≡ or_number s.packset_version 0
    → select_compaction_plan (list_active_pack_catalog s.pack_catalog) ≡ o
    → let r = grant_plan (clock 1) uuid (list_active_pack_catalog s.pack_catalog) o d in
      BeginCompactionMeans clock s r.0 r.1
unfolding grant_plan
grant-BeginCompactionMeans clock uuid s d none w f g v e = (
  (needs_no_compaction_iff (list_active_pack_catalog s.pack_catalog)).0
      (unfold catalog_needs_compaction in ground arith),
  refl,
)
grant-BeginCompactionMeans clock uuid s d (some plan) w f g v e = record {
  wanted = w;
  no_push = f;
  no_compaction = g;
  stored = refl;
  expires = refl;
  planned = (plan, select-IsPlan (list_active_pack_catalog s.pack_catalog) plan e, refl, refl);
  version = v;
}

wanted-BeginCompactionMeans :
    (clock : ℕ → ℕ) (uuid : String) (s : RepoStateSchema) (wanted : Option ℕ)
    → s.compaction_wanted_at ≡ wanted
    → let d = ensure_repo_metadata_defaults (clear_expired_leases (clock 0) s) in
      let r = begin_wanted (clock 1) uuid wanted d in BeginCompactionMeans clock s r.0 r.1
unfolding begin_wanted clear_expired_leases ensure_repo_metadata_defaults grant_compaction
wanted-BeginCompactionMeans clock uuid s none e = e
wanted-BeginCompactionMeans clock uuid s (some w) e =
    let push = active_lease_or_undefined (unexpired (clock 0) s.receive_lease) (clock 1) in
    let compaction = active_lease_or_undefined (unexpired (clock 0) s.compact_lease) (clock 1) in
    elim (Bool-cases (is_some push)) [
      | inl b ↦ rw b (active-IsHeld clock s.receive_lease b)
      | inr f ↦ elim (Bool-cases (is_some compaction)) [
        | inl b ↦ rw (f, b) (active-IsHeld clock s.compact_lease b)
        | inr g ↦
            rw (f, g)
              (grant-BeginCompactionMeans clock uuid s
                (ensure_repo_metadata_defaults (clear_expired_leases (clock 0) s)) _ (ground arith)
                (active-IsFree clock s.receive_lease f) (active-IsFree clock s.compact_lease g)
                (defaults-SameContent s).same_packset_version refl)
      ]
    ]

-- A compaction begins only if one is recorded as wanted, no push and no compaction holds an
-- unexpired lease, and the active catalog has a plan: the grant takes the packs and the target of
-- that plan, and its lease is stored, to expire a fixed time later. It is busy only with an unexpired
-- lease, and finds no work only without a request or if no tier is over the policy, and then the
-- request is cleared.
pub begin_compaction-BeginCompactionMeans :
    (clock : ℕ → ℕ) (uuid : String) (s : RepoStateSchema)
    → BeginCompactionMeans clock s
        (begin_compaction_state clock uuid s).0
        (begin_compaction_state clock uuid s).1
unfolding begin_compaction_state clear_expired_leases ensure_repo_metadata_defaults
begin_compaction-BeginCompactionMeans clock uuid s =
    wanted-BeginCompactionMeans clock uuid s s.compaction_wanted_at refl
