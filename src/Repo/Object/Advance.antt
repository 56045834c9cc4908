-- ===== src/Repo/Object/Advance.antt =====
-- The versions never go back, and the packset version tells every change of the active packs.
use gitedge.Shared.{
  ℕ, ◌≤◌, ◌<◌, ◌≡◌, refl, sym, ◌∙◌, ap, String, Bool, List, [], ◌∷◌, Option, none, some, ◌⊎◌, inl,
  inr, if◌then◌else◌, or_number, Bool-cases, arith,
}
use mathlib.Core.Path.{subst}
use gitedge.Shared.Text.{str_eq, str_eq_iff}
use gitedge.Repo.State.{RepoStateSchema, PackCatalogRow, Ref, Head}
use gitedge.Repo.Catalog.{is_active, get_pack_catalog_row, delete_pack_catalog_rows}
use gitedge.Repo.Catalog.Rows.{row-delete}
use gitedge.Repo.Metadata.{ensure_repo_metadata_defaults}
use gitedge.Repo.Content.{
  SameContent, SameContent-refl, defaults-SameContent, dropped-SameContent, freed-SameContent,
}
use gitedge.Repo.Refs.{
  get_refs, resolve_target, update_head_if_changed, set_refs, set_head, resolve_head,
}
use gitedge.Repo.Receive.Staged.{add_staged_pack-keeps}
use gitedge.Repo.Receive.{FinalizeArgs, commit_refs, add_staged_pack, finalize_receive_state}
use gitedge.Repo.Receive.Laws.{finalize_cases}
use gitedge.Repo.Compaction.{StagedPack, CommitArgs, commit_sources, commit_compaction_state}
use gitedge.Repo.Compaction.Commit.{commit_cases, commit_packs-keeps}
use gitedge.Repo.Packs.{RowState, remove_row, remove_pack, full_pack_key, row_state}
use gitedge.Repo.Object.{
  Call, reads, sets_refs, sets_head, gets_head, begins_receive, aborts_receive, finalizes_receive,
  begins_compaction, aborts_compaction, commits_compaction, previews_compaction,
  requests_compaction, clears_request, removes_pack, seeds, serve, call, seed_minimal_repo_state,
}
use gitedge.Repo.Object.Run.{
  ObjectEvent, called, woken, cleared, happen, run, MayDelete, WasDeleted,
}
use gitedge.Repo.Object.Wake.{alarm-KeepsOrDeletes}
use gitedge.Repo.Object.Changes
use gitedge.Repo.Alarm.{ensure_access_and_alarm}

-- The row that a key names, if it is active.
abbrev pub active_only : Option PackCatalogRow → Option PackCatalogRow
active_only none = none
active_only (some r) = if is_active r then some r else none

abbrev pub active_row : String → List PackCatalogRow → Option PackCatalogRow
active_row k t = active_only (get_pack_catalog_row k t)

pub record Advances (s s' : RepoStateSchema) : Type 0 where
  pub packs : or_number s.packset_version 0 ≤ or_number s'.packset_version 0
  pub refs : or_number s.refs_version 0 ≤ or_number s'.refs_version 0
  pub told :
      (or_number s.packset_version 0 < or_number s'.packset_version 0)
      ⊎ ((k : String) → active_row k s'.pack_catalog ≡ active_row k s.pack_catalog)

SameContent-Advances : {s s' : RepoStateSchema} → SameContent s s' → Advances s s'
SameContent-Advances h = record {
  packs = omega arith;
  refs = omega arith;
  told = inr (λ k. ap (active_row k) h.same_catalog);
}

pub Advances-refl : (s : RepoStateSchema) → Advances s s
Advances-refl s = SameContent-Advances (SameContent-refl s)

pub Advances-trans : {s t u : RepoStateSchema} → Advances s t → Advances t u → Advances s u
Advances-trans h k = record {
  packs = omega arith;
  refs = omega arith;
  told = elim h.told [
    | inl a ↦ inl (omega (arith, k.packs))
    | inr e ↦ elim k.told [ inl b ↦ inl (omega (arith, h.packs)) | inr f ↦ inr (λ x. f x ∙ e x) ]
  ];
}

-- A write of refs or of HEAD alone.
set_refs-Advances : (refs : List Ref) (s : RepoStateSchema) → Advances s (set_refs refs s)
unfolding set_refs
set_refs-Advances refs s = record {
  packs = omega arith;
  refs = omega arith;
  told = inr (λ k. refl);
}

set_head-Advances : (head : Head) (s : RepoStateSchema) → Advances s (set_head head s)
unfolding set_head
set_head-Advances head s = record {
  packs = omega arith;
  refs = omega arith;
  told = inr (λ k. refl);
}

add-Advances :
    (clock : ℕ → ℕ) (staged : Option StagedPack) (s : RepoStateSchema)
    → let s' = (add_staged_pack clock staged s).0 in
      (or_number s.packset_version 0 ≤ or_number s'.packset_version 0)
      × ((or_number s.packset_version 0 < or_number s'.packset_version 0)
          ⊎ ((k : String) → active_row k s'.pack_catalog ≡ active_row k s.pack_catalog))
add-Advances clock none s = unfold add_staged_pack in (omega arith, inr (λ k. refl))
add-Advances clock (some staged) s =
    let (_, version, _) = add_staged_pack-keeps clock staged s in
    (omega (arith, version), inl (omega (arith, version)))

commit_refs-Advances :
    (clock : ℕ → ℕ) (args : FinalizeArgs) (statuses : _) (s : RepoStateSchema)
    → Advances s (commit_refs clock args statuses s).0
unfolding commit_refs
commit_refs-Advances clock args statuses s =
    let (packs, told) = add-Advances clock args.staged_pack s in
    record { packs = packs; refs = ground arith; told = told }

finalize-Advances :
    (clock : ℕ → ℕ) (args : FinalizeArgs) (s : RepoStateSchema)
    → Advances s (finalize_receive_state clock args s).0
finalize-Advances clock args s =
    let defaults = SameContent-Advances (defaults-SameContent s) in
    finalize_cases (λ r. Advances s r.0) clock args s (λ _. defaults)
      (λ _ _. SameContent-Advances (dropped-SameContent s))
      (λ _ _ _.
        Advances-trans defaults
          (commit_refs-Advances clock args _ (ensure_repo_metadata_defaults s)))

sources-Advances :
    (clock : ℕ → ℕ) (args : CommitArgs) (xs : List PackCatalogRow) (s : RepoStateSchema)
    → Advances s (commit_sources clock args xs s).0
unfolding commit_sources
sources-Advances clock args [] s = Advances-refl s
sources-Advances clock args (first ∷ rest) s =
    let (_, packs, _, _, refs, _) = commit_packs-keeps clock args first s in
    record {
      packs = rw packs (ground arith);
      refs = rw refs (omega arith);
      told = inl (rw packs (ground arith));
    }

commit-Advances :
    (clock : ℕ → ℕ) (args : CommitArgs) (s : RepoStateSchema)
    → Advances s (commit_compaction_state clock args s).0
commit-Advances clock args s =
    let defaults = SameContent-Advances (defaults-SameContent s) in
    commit_cases (λ r. Advances s r.0) clock args s (λ _. defaults)
      (λ _ _. SameContent-Advances (freed-SameContent s))
      (λ _ _ _ _.
        Advances-trans defaults
          (sources-Advances clock args args.source_packs (ensure_repo_metadata_defaults s)))

active_only_state :
    (o : Option PackCatalogRow) → row_state o ≡ RowState.superseded → active_only o ≡ none
unfolding row_state
active_only_state none h = cc
active_only_state (some r) h = ground arith

remove_row-Advances :
    (full : String) (deletes : Bool × Bool × Bool) (state : RowState) (s : RepoStateSchema)
    → row_state (get_pack_catalog_row full s.pack_catalog) ≡ state
    → Advances s (remove_row full deletes state s).0
unfolding remove_row
remove_row-Advances full deletes RowState.active s e = Advances-refl s
remove_row-Advances full deletes RowState.unknown s e = Advances-refl s
remove_row-Advances full deletes RowState.superseded s e = record {
  packs = omega arith;
  refs = omega arith;
  told = inr row_kept;
}
  where
    row_kept :
        (k : String)
        → active_row k (delete_pack_catalog_rows (full ∷ []) s.pack_catalog)
          ≡ active_row k s.pack_catalog
    row_kept k = rw (row-delete (full ∷ []) k s.pack_catalog) (elim (Bool-cases (str_eq full k)) [
      | inl y ↦ rw y (
          sym (
            subst (λ j. active_row j s.pack_catalog ≡ none) ((str_eq_iff full k).0 y)
              (active_only_state _ e)))
      | inr n ↦ rw n refl
    ])

remove_pack-Advances :
    (prefix : String) (deletes : Bool × Bool × Bool) (key : String) (s : RepoStateSchema)
    → Advances s (remove_pack prefix deletes key s).0
unfolding remove_pack
remove_pack-Advances prefix deletes key s =
    remove_row-Advances (full_pack_key prefix key) deletes
      (row_state (get_pack_catalog_row (full_pack_key prefix key) s.pack_catalog)) s refl

pub update_head-keeps :
    (head : Head) (s : RepoStateSchema)
    → let s' = update_head_if_changed head s in
      (s'.pack_catalog ≡ s.pack_catalog)
      × (s'.packset_version ≡ s.packset_version)
      × (s'.refs_version ≡ s.refs_version)
      × (s'.next_pack_seq ≡ s.next_pack_seq)
unfolding update_head_if_changed
update_head-keeps head s = ground arith

resolve_head-Advances : (s : RepoStateSchema) → Advances s (resolve_head s).0
unfolding resolve_head
resolve_head-Advances s =
    let (catalog, packs, refs, _) = update_head-keeps (resolve_target s.head (get_refs s)) s in
    record {
      packs = rw packs (omega arith);
      refs = rw refs (omega arith);
      told = inr (λ k. ap (active_row k) catalog);
    }

seed-Advances :
    (created_at : ℕ) (pack : Option StagedPack) (oid : String) (s : RepoStateSchema)
    → Advances s (seed_minimal_repo_state created_at pack oid s)
unfolding seed_minimal_repo_state
seed-Advances created_at none oid s = record {
  packs = omega arith;
  refs = omega arith;
  told = inr (λ k. refl);
}
seed-Advances created_at (some pack) oid s = record {
  packs = ground arith;
  refs = omega arith;
  told = inl (ground arith);
}

-- The body of every call.
pub serve-Advances : (clock : ℕ → ℕ) (c : Call) (s : RepoStateSchema) → Advances s (serve clock c s)
unfolding serve
serve-Advances clock reads s = Advances-refl s
serve-Advances clock (sets_refs refs) s = set_refs-Advances refs s
serve-Advances clock (sets_head head) s = set_head-Advances head s
serve-Advances clock gets_head s = resolve_head-Advances s
serve-Advances clock (begins_receive uuid) s =
    SameContent-Advances (Changes.begin_receive-SameContent clock uuid s)
serve-Advances clock (aborts_receive token) s =
    SameContent-Advances (Changes.abort_receive-SameContent token s)
serve-Advances clock (finalizes_receive args) s = finalize-Advances clock args s
serve-Advances clock (begins_compaction uuid) s =
    SameContent-Advances (Changes.begin_compaction-SameContent clock uuid s)
serve-Advances clock (aborts_compaction token) s =
    SameContent-Advances (Changes.abort_compaction-SameContent token s)
serve-Advances clock (commits_compaction args) s = commit-Advances clock args s
serve-Advances clock previews_compaction s = SameContent-Advances (Changes.preview-SameContent s)
serve-Advances clock requests_compaction s =
    SameContent-Advances (Changes.request-SameContent clock s)
serve-Advances clock clears_request s = SameContent-Advances (Changes.clear_request-SameContent s)
serve-Advances clock (removes_pack prefix deletes key) s = remove_pack-Advances prefix deletes key s
serve-Advances clock (seeds pack oid) s = seed-Advances (clock 0) pack oid s

pub call-Advances :
    (idle_ms now : ℕ) (clock : ℕ → ℕ) (c : Call) (s : RepoStateSchema)
    → Advances s (call idle_ms now clock c s)
unfolding call
call-Advances idle_ms now clock c s =
    Advances-trans (SameContent-Advances (Changes.access-SameContent idle_ms now s))
      (serve-Advances clock c (ensure_access_and_alarm idle_ms now s))

-- An event that does not delete.
happen-Advances :
    (idle_ms : ℕ) (e : ObjectEvent) (s : RepoStateSchema)
    → Advances s (happen idle_ms e s) ⊎ MayDelete idle_ms e s
unfolding happen
happen-Advances idle_ms (called now clock c) s = inl (call-Advances idle_ms now clock c s)
happen-Advances idle_ms (woken clock sent) s = elim (alarm-KeepsOrDeletes idle_ms clock sent s) [
  | inl same ↦ inl (SameContent-Advances same)
  | inr (_, _, _, _, gone) ↦ inr gone
]
happen-Advances idle_ms cleared s = inr tt

-- Over any sequence of calls, alarms and deletions, the two versions do not go back, and either the
-- packset version is higher at the end, or every key names the same row among the active packs
-- as before; unless one of the events is a deletion of the storage, or an alarm that finds the
-- repository abandoned.
pub run-Advances :
    (idle_ms : ℕ) (es : List ObjectEvent) (s : RepoStateSchema)
    → Advances s (run idle_ms es s) ⊎ WasDeleted idle_ms es s
unfolding run
run-Advances idle_ms [] s = inl (Advances-refl s)
run-Advances idle_ms (e ∷ es) s = elim (happen-Advances idle_ms e s) [
  | inr gone ↦ inr ([], e, es, refl, gone)
  | inl first ↦ elim (run-Advances idle_ms es (happen idle_ms e s)) [
    | inl rest ↦ inl (Advances-trans first rest)
    | inr (before, d, after, split, gone) ↦ inr (e ∷ before, d, after, ap (◌∷◌ e) split, gone)
  ]
]
