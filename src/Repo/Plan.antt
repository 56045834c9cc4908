-- ===== src/Repo/Plan.antt =====
-- src/worker/do/repo/catalog/compaction/plan.ts: which packs a compaction takes.
pub mod Tiers
pub mod Laws
use gitedge.Shared.{
  ℕ, zero, suc, ◌+◌, Bool, true, false, ◌&&◌, List, [], ◌∷◌, Option, none, some, ltb, leb, ◌==◌,
  if◌then◌else◌, is_some, length, take, keep, find,
}
use gitedge.Shared.Text.{str_eq}
use gitedge.Shared.Sort.{sort_by}
use gitedge.Repo.State.{RepoStateSchema, PackCatalogRow, PackKind, PackState, Clock}
use gitedge.Repo.Metadata.{compaction_wake_delay_ms}
use gitedge.Repo.Catalog.{is_active}
use gitedge.Repo.Alarm.{schedule_alarm_if_sooner}

abbrev pub compaction_fan_in : ℕ
compaction_fan_in = 4

pub record CompactionTierState : Type 0 where
  pub tier : ℕ
  pub active_pack_count : ℕ

pub record CompactionPlan : Type 0 where
  pub source_tier : ℕ
  pub target_tier : ℕ
  pub source_packs : List PackCatalogRow
  pub source_bytes : ℕ
  pub source_objects : ℕ
  pub tiers : List CompactionTierState

-- `counts.set(tier, (counts.get(tier) || 0) + 1)`, the entries in insertion order.
unfoldable pub count_tier : ℕ → List CompactionTierState → List CompactionTierState
count_tier tier [] = record { tier = tier; active_pack_count = 1 } ∷ []
count_tier tier (c ∷ cs) =
    if c.tier == tier
    then record c { active_pack_count = c.active_pack_count + 1 } ∷ cs
    else c ∷ count_tier tier cs

unfoldable pub count_tiers :
    List PackCatalogRow → List CompactionTierState → List CompactionTierState
unfolding count_tier
count_tiers [] counts = counts
count_tiers (pack ∷ packs) counts = count_tiers packs (count_tier pack.tier counts)

unfoldable pub summarize_tier_counts : List PackCatalogRow → List CompactionTierState
unfolding count_tiers sort_by
summarize_tier_counts catalog = sort_by (λ l r. leb l.tier r.tier) (count_tiers catalog [])

unfoldable pub sum_source_bytes : List PackCatalogRow → ℕ
sum_source_bytes [] = 0
sum_source_bytes (pack ∷ packs) = pack.pack_bytes + sum_source_bytes packs

unfoldable pub sum_source_objects : List PackCatalogRow → ℕ
sum_source_objects [] = 0
sum_source_objects (pack ∷ packs) = pack.object_count + sum_source_objects packs

unfoldable pub packs_of_tier : ℕ → List PackCatalogRow → List PackCatalogRow
unfolding sort_by
packs_of_tier tier catalog =
    sort_by (λ l r. leb l.seq_lo r.seq_lo) (keep (λ pack. pack.tier == tier) catalog)

unfoldable pub overflowing_tier : List PackCatalogRow → Option CompactionTierState
unfolding summarize_tier_counts
overflowing_tier catalog =
    find (λ t. ltb compaction_fan_in t.active_pack_count) (summarize_tier_counts catalog)

unfoldable pub select_compaction_plan : List PackCatalogRow → Option CompactionPlan
unfolding overflowing_tier packs_of_tier sum_source_bytes sum_source_objects
select_compaction_plan catalog = elim (overflowing_tier catalog) [
  | none ↦ none
  | some t ↦
      let source_packs = take compaction_fan_in (packs_of_tier t.tier catalog) in
      if ltb (length source_packs) compaction_fan_in
      then none
      else some (record {
        source_tier = t.tier;
        target_tier = t.tier + 1;
        source_packs = source_packs;
        source_bytes = sum_source_bytes source_packs;
        source_objects = sum_source_objects source_packs;
        tiers = summarize_tier_counts catalog;
      })
]

unfoldable pub catalog_needs_compaction : List PackCatalogRow → Bool
unfolding select_compaction_plan
catalog_needs_compaction catalog = is_some (select_compaction_plan catalog)

abbrev kind_code : PackKind → ℕ
kind_code PackKind.receive = 0
kind_code PackKind.compact = 1
kind_code PackKind.legacy = 2

-- One round of the loop of `rowsMatchForCommit`.
unfoldable pub row_matches : PackCatalogRow → PackCatalogRow → Bool
row_matches expected current =
    str_eq current.pack_key expected.pack_key
    && is_active current
    && kind_code current.kind == kind_code expected.kind
    && current.tier == expected.tier
    && current.seq_lo == expected.seq_lo
    && current.seq_hi == expected.seq_hi
    && current.object_count == expected.object_count
    && current.pack_bytes == expected.pack_bytes
    && current.idx_bytes == expected.idx_bytes

-- Lists of different lengths do not match.
unfoldable pub rows_match_for_commit : List PackCatalogRow → List PackCatalogRow → Bool
unfolding row_matches
rows_match_for_commit [] [] = true
rows_match_for_commit [] (c ∷ cs) = false
rows_match_for_commit (e ∷ es) [] = false
rows_match_for_commit (e ∷ es) (c ∷ cs) = row_matches e c && rows_match_for_commit es cs

-- The clock is read for the time and once more by `scheduleAlarmIfSooner`.
unfoldable pub schedule_compaction_alarm : ℕ → ℕ → ℕ → RepoStateSchema → RepoStateSchema
unfolding schedule_alarm_if_sooner
schedule_compaction_alarm delay_ms read now s = (schedule_alarm_if_sooner (read + delay_ms) now s).0

unfoldable pub schedule_compaction_wake : ℕ → ℕ → RepoStateSchema → RepoStateSchema
unfolding schedule_compaction_alarm
schedule_compaction_wake read now s = schedule_compaction_alarm compaction_wake_delay_ms read now s
