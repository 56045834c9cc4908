-- ===== src/Repo/Tests/Witnesses.antt =====
-- The theorems at these states.
use gitedge.Shared.{
  true, false, List, [], ◌∷◌, some, none, ◌⊎◌, refl, ◌≡◌, ◌+◌, ◌↔◌, every, All, map, arith,
}
use gitedge.Shared.Text.{codes}
use gitedge.Shared.Dict.{lookup}
use gitedge.Repo.Tests.Data.{
  main_ref, update_main, create_topic, four_packs, five_packs, compacting_repo, pushing_repo,
  at_2000, commit_four, push_two,
}
use gitedge.Repo.Catalog.{get_pack_catalog_row, retire, supersede_pack_catalog_rows}
use gitedge.Repo.Catalog.Batches.{supersede-map}
use gitedge.Repo.Refs.{
  get_refs, apply_receive_commands, current_oid, ref_map, validate_receive_commands,
  is_valid_ref_codes,
}
use gitedge.Repo.Refs.Names.{IsRefName, is_valid-IsRefName}
use gitedge.Repo.Refs.Commands.{Accepts, last_command, oid_of, oid_of-apply, outcome, validate_iff}
use gitedge.Repo.Leases.{begin_receive_lease}
use gitedge.Repo.Leases.Exclusion.{BeginMeans, begin_receive-BeginMeans}
use gitedge.Repo.Plan.{CompactionPlan, select_compaction_plan}
use gitedge.Repo.Plan.Laws.{IsPlan, select-IsPlan}
use gitedge.Repo.Receive.{finalize_receive_state}
use gitedge.Repo.Receive.Laws.{FinalizeMeans, finalize-FinalizeMeans}
use gitedge.Repo.Compaction.{commit_compaction_state, begin_compaction_state}
use gitedge.Repo.Compaction.Begin.{BeginCompactionMeans, begin_compaction-BeginCompactionMeans}
use gitedge.Repo.Compaction.Commit.{CommitMeans, commit-CommitMeans}
use gitedge.Repo.Object.{finalizes_receive, begins_compaction, gets_head, seeds, alarm}
use gitedge.Repo.Object.Run.{ObjectEvent, called, woken, run, WasDeleted}
use gitedge.Repo.Object.Advance.{Advances, run-Advances}
use gitedge.Repo.Object.Invariant.{IsValid, run-IsValid}
use gitedge.Repo.Object.Wake.{KeepsOrDeletes, alarm-KeepsOrDeletes}

commit-CommitMeans_example :
    CommitMeans at_2000 commit_four compacting_repo
      (commit_compaction_state at_2000 commit_four compacting_repo).0
      (commit_compaction_state at_2000 commit_four compacting_repo).1
commit-CommitMeans_example = commit-CommitMeans at_2000 commit_four compacting_repo

finalize-FinalizeMeans_example :
    FinalizeMeans at_2000 push_two pushing_repo
      (finalize_receive_state at_2000 push_two pushing_repo).0
      (finalize_receive_state at_2000 push_two pushing_repo).1
unfolding get_refs lookup
finalize-FinalizeMeans_example = finalize-FinalizeMeans at_2000 push_two pushing_repo (refl, tt)

abbrev five_events : List ObjectEvent
five_events =
    called 2000 at_2000 (finalizes_receive push_two)
    ∷ called 3000 (λ place. 3000 + place) (begins_compaction "next")
    ∷ woken (λ place. 3500 + place) true
    ∷ called 4000 (λ place. 4000 + place) gets_head
    ∷ called 5000 (λ place. 5000 + place) (seeds none "commit")
    ∷ []

pushing_repo-IsValid : IsValid pushing_repo
unfolding get_pack_catalog_row
pushing_repo-IsValid = record {
  table = (refl, (refl, (refl, (refl, (refl, tt)))));
  ranged = (
    (omega arith, omega arith),
    (
      (omega arith, omega arith),
      ((omega arith, omega arith), ((omega arith, omega arith), ((omega arith, omega arith), tt))),
    ),
  );
}

run-IsValid_example : IsValid (run 60000 five_events pushing_repo)
run-IsValid_example = run-IsValid 60000 five_events pushing_repo pushing_repo-IsValid

run-Advances_example :
    Advances pushing_repo (run 60000 five_events pushing_repo)
    ⊎ WasDeleted 60000 five_events pushing_repo
run-Advances_example = run-Advances 60000 five_events pushing_repo

begin_compaction-BeginCompactionMeans_example :
    BeginCompactionMeans
      (λ place. 6000 + place)
      compacting_repo
      (begin_compaction_state (λ place. 6000 + place) "next" compacting_repo).0
      (begin_compaction_state (λ place. 6000 + place) "next" compacting_repo).1
begin_compaction-BeginCompactionMeans_example =
    begin_compaction-BeginCompactionMeans (λ place. 6000 + place) "next" compacting_repo

begin_receive-BeginMeans_example :
    BeginMeans at_2000 compacting_repo
      (begin_receive_lease at_2000 "next" compacting_repo).0
      (begin_receive_lease at_2000 "next" compacting_repo).1
begin_receive-BeginMeans_example = begin_receive-BeginMeans at_2000 "next" compacting_repo

alarm-KeepsOrDeletes_example :
    KeepsOrDeletes 60000 2002 compacting_repo (alarm 60000 at_2000 false compacting_repo)
alarm-KeepsOrDeletes_example = alarm-KeepsOrDeletes 60000 at_2000 false compacting_repo

abbrev first_plan : CompactionPlan
first_plan = record {
  source_tier = 0;
  target_tier = 1;
  source_packs = four_packs;
  source_bytes = 400;
  source_objects = 8;
  tiers = record { tier = 0; active_pack_count = 5 } ∷ [];
}

select-IsPlan_example : IsPlan five_packs first_plan
unfolding select_compaction_plan
select-IsPlan_example = select-IsPlan five_packs first_plan refl

oid_of-apply_example :
    oid_of "refs/heads/main"
      (apply_receive_commands (main_ref ∷ []) (update_main ∷ create_topic ∷ []))
    ≡ outcome
        (last_command "refs/heads/main" (update_main ∷ create_topic ∷ []))
        (oid_of "refs/heads/main" (main_ref ∷ []))
unfolding lookup
oid_of-apply_example =
    oid_of-apply "refs/heads/main" (main_ref ∷ []) (update_main ∷ create_topic ∷ []) (refl, tt)

validate_iff_example :
    (every
        (λ status. status.ok)
        (validate_receive_commands (main_ref ∷ []) (update_main ∷ create_topic ∷ []))
      ≡ true)
    ↔ All
        (λ c. Accepts (current_oid c.ref (ref_map (main_ref ∷ []))) c)
        (update_main ∷ create_topic ∷ [])
validate_iff_example = validate_iff (main_ref ∷ []) (update_main ∷ create_topic ∷ [])

is_valid-IsRefName_example : IsRefName (codes "refs/heads/main")
unfolding is_valid_ref_codes
is_valid-IsRefName_example = is_valid-IsRefName (codes "refs/heads/main") refl

supersede-map_example :
    supersede_pack_catalog_rows ("p1" ∷ "p2" ∷ []) (some "c1") five_packs
    ≡ map (retire ("p1" ∷ "p2" ∷ []) (some "c1")) five_packs
supersede-map_example = supersede-map ("p1" ∷ "p2" ∷ []) (some "c1") five_packs
