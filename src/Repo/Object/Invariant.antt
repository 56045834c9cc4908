-- ===== src/Repo/Object/Invariant.antt =====
-- The catalog is well formed after every call.
use gitedge.Shared.{
  ℕ, suc, ◌+◌, ◌≤◌, ◌<◌, ◌≡◌, refl, ap, String, Bool, List, [], ◌∷◌, Option, none, some, or_number,
  All, All-map, All-keep, map, arith, inl, inr,
}
use mathlib.Core.Path.{subst}
use gitedge.Repo.State.{RepoStateSchema, PackCatalogRow}
use gitedge.Repo.Catalog.{retire, get_pack_catalog_row}
use gitedge.Repo.Catalog.Batches.{supersede-map, delete-without}
use gitedge.Repo.Catalog.Rows.{
  IsTable, upsert-IsTable, retire-IsTable, delete-IsTable, upsert-All, row-All,
}
use gitedge.Repo.Metadata.{ensure_repo_metadata_defaults}
use gitedge.Repo.Content.{SameContent, defaults-SameContent, dropped-SameContent, freed-SameContent}
use gitedge.Repo.Alarm.{ensure_access_and_alarm}
use gitedge.Repo.Refs.{get_refs, resolve_target, set_refs, set_head, resolve_head}
use gitedge.Repo.Plan.{row_matches}
use gitedge.Repo.Receive.{
  FinalizeArgs, commit_refs, add_staged_pack, received_row, finalize_receive_state,
}
use gitedge.Repo.Receive.Laws.{finalize_cases}
use gitedge.Repo.Compaction.{
  StagedPack, CommitArgs, lowest_seq, highest_seq, compacted_row, swap_packs, pack_keys,
  commit_sources, commit_compaction_state,
}
use gitedge.Repo.Compaction.Commit.{
  commit_cases, commit_packs-keeps, IsCurrent, rows_match-IsCurrent,
}
use gitedge.Repo.Packs.{RowState, remove_row, remove_pack, full_pack_key, row_state}
use gitedge.Repo.Object.{
  Call, reads, sets_refs, sets_head, gets_head, begins_receive, aborts_receive, finalizes_receive,
  begins_compaction, aborts_compaction, commits_compaction, previews_compaction,
  requests_compaction, clears_request, removes_pack, seeds, serve, call, seed_minimal_repo_state,
}
use gitedge.Repo.Object.Run.{ObjectEvent, called, woken, cleared, happen, run}
use gitedge.Repo.Object.Wake.{alarm-KeepsOrDeletes}
use gitedge.Repo.Maintenance.{clear_repository_storage}
use gitedge.Repo.Object.Changes
use gitedge.Repo.Receive.Staged.{add_staged_pack-keeps}
use gitedge.Repo.Object.Advance.{update_head-keeps}

-- A range of sequence numbers that have been given out.
abbrev pub InRange : ℕ → PackCatalogRow → Type 0
InRange bound r = (r.seq_lo ≤ r.seq_hi) × (r.seq_hi < bound)

pub record IsValid (s : RepoStateSchema) : Type 0 where
  pub table : IsTable s.pack_catalog
  pub ranged : All (InRange (or_number s.next_pack_seq 1)) s.pack_catalog

kept-IsValid :
    {s s' : RepoStateSchema}
    → s'.pack_catalog ≡ s.pack_catalog
    → or_number s'.next_pack_seq 1 ≡ or_number s.next_pack_seq 1
    → IsValid s
    → IsValid s'
kept-IsValid c n v = record { table = rw c v.table; ranged = rw (c, n) v.ranged }

SameContent-IsValid : {s s' : RepoStateSchema} → SameContent s s' → IsValid s → IsValid s'
SameContent-IsValid h v = kept-IsValid h.same_catalog h.same_pack_seq v

nil-IsValid : {s : RepoStateSchema} → s.pack_catalog ≡ [] → IsValid s
nil-IsValid e = record { table = rw e tt; ranged = rw e tt }

-- The pack of a push takes a fresh number.
add-IsValid :
    (clock : ℕ → ℕ) (staged : Option StagedPack) (s : RepoStateSchema)
    → IsValid s
    → IsValid (add_staged_pack clock staged s).0
add-IsValid clock none s v = unfold add_staged_pack in v
add-IsValid clock (some staged) s v =
    let (catalog, _, seq) = add_staged_pack-keeps clock staged s in
    let row = received_row (clock 0) (or_number s.next_pack_seq 1) staged in
    record {
      table = rw catalog (upsert-IsTable row s.pack_catalog v.table);
      ranged =
          rw (catalog, seq)
            (upsert-All (InRange (suc (or_number s.next_pack_seq 1))) row s.pack_catalog
              (unfold received_row in omega arith)
              (All-map (InRange (or_number s.next_pack_seq 1)) _ (λ r k. omega arith) s.pack_catalog
                v.ranged));
    }

commit_refs-IsValid :
    (clock : ℕ → ℕ) (args : FinalizeArgs) (statuses : _) (s : RepoStateSchema)
    → IsValid s
    → IsValid (commit_refs clock args statuses s).0
unfolding commit_refs
commit_refs-IsValid clock args statuses s v =
    let w = add-IsValid clock args.staged_pack s v in record { table = w.table; ranged = w.ranged }

finalize-IsValid :
    (clock : ℕ → ℕ) (args : FinalizeArgs) (s : RepoStateSchema)
    → IsValid s
    → IsValid (finalize_receive_state clock args s).0
finalize-IsValid clock args s v =
    let defaults = SameContent-IsValid (defaults-SameContent s) v in
    finalize_cases (λ r. IsValid r.0) clock args s (λ _. defaults)
      (λ _ _. SameContent-IsValid (dropped-SameContent s) v)
      (λ _ _ _. commit_refs-IsValid clock args _ (ensure_repo_metadata_defaults s) defaults)

lowest_seq-le : (lo : ℕ) (ps : List PackCatalogRow) → lowest_seq lo ps ≤ lo
unfolding lowest_seq
lowest_seq-le lo [] = omega arith
lowest_seq-le lo (p ∷ ps) = ground (arith, lowest_seq-le p.seq_lo ps, lowest_seq-le lo ps)

highest_seq_bounds :
    (bound hi : ℕ) (ps : List PackCatalogRow)
    → hi < bound
    → All (InRange bound) ps
    → (hi ≤ highest_seq hi ps) × (highest_seq hi ps < bound)
unfolding highest_seq
highest_seq_bounds bound hi [] h k = omega arith
highest_seq_bounds bound hi (p ∷ ps) h k =
    ground (arith, highest_seq_bounds bound p.seq_hi ps, highest_seq_bounds bound hi ps)

retire-InRange :
    (bound : ℕ) (keys : List String) (by : Option String) (t : List PackCatalogRow)
    → All (InRange bound) t
    → All (InRange bound) (map (retire keys by) t)
unfolding retire
retire-InRange bound keys by [] h = tt
retire-InRange bound keys by (r ∷ t) (h, hs) = (ground arith, retire-InRange bound keys by t hs)

swap-IsTable :
    (now : ℕ) (args : CommitArgs) (first : PackCatalogRow) (t : List PackCatalogRow)
    → IsTable t
    → IsTable (swap_packs now args first t)
unfolding swap_packs
swap-IsTable now args first t h =
    rw (supersede-map (pack_keys args.source_packs) (some args.staged_pack.pack_key) _)
      (retire-IsTable _ _ _ (upsert-IsTable (compacted_row now args first) t h))

swap-InRange :
    (bound now : ℕ) (args : CommitArgs) (first : PackCatalogRow) (t : List PackCatalogRow)
    → InRange bound first
    → All (InRange bound) args.source_packs
    → All (InRange bound) t
    → All (InRange bound) (swap_packs now args first t)
unfolding swap_packs
swap-InRange bound now args first t f ps h =
    rw (supersede-map (pack_keys args.source_packs) (some args.staged_pack.pack_key) _) (
      retire-InRange bound _ _ _ (
        upsert-All (InRange bound) (compacted_row now args first) t
          (unfold compacted_row in
            omega (
              arith,
              lowest_seq-le first.seq_lo args.source_packs,
              highest_seq_bounds bound first.seq_hi args.source_packs f.1 ps,
            ))
          h))

-- A source pack that is current has a range that was given out.
current-InRange :
    (bound : ℕ) (t ps : List PackCatalogRow)
    → All (InRange bound) t
    → All (IsCurrent t) ps
    → All (InRange bound) ps
current-InRange bound t [] h c = tt
current-InRange bound t (p ∷ ps) h ((r, e, m), c) =
    let in_range = row-All (InRange bound) p.pack_key t r h e in
    (unfold row_matches in ground (arith, in_range, m), current-InRange bound t ps h c)

sources-IsValid :
    (clock : ℕ → ℕ) (args : CommitArgs) (s : RepoStateSchema)
    → IsValid s
    → All (InRange (or_number s.next_pack_seq 1)) args.source_packs
    → (xs : List PackCatalogRow) → args.source_packs ≡ xs
    → IsValid (commit_sources clock args xs s).0
unfolding commit_sources
sources-IsValid clock args s v ps [] e = v
sources-IsValid clock args s v ps (first ∷ rest) e =
    let bound = or_number s.next_pack_seq 1 in
    let (catalog, _, _, _, _, seq) = commit_packs-keeps clock args first s in
    let heads : All (InRange bound) (first ∷ rest) = subst (All (InRange bound)) e ps in
    record {
      table = rw catalog (swap-IsTable (clock 1) args first s.pack_catalog v.table);
      ranged =
          rw (catalog, seq)
            (swap-InRange bound (clock 1) args first s.pack_catalog heads.0 ps v.ranged);
    }

commit-IsValid :
    (clock : ℕ → ℕ) (args : CommitArgs) (s : RepoStateSchema)
    → IsValid s
    → IsValid (commit_compaction_state clock args s).0
commit-IsValid clock args s v =
    let same = defaults-SameContent s in
    let defaults = SameContent-IsValid same v in
    commit_cases (λ r. IsValid r.0) clock args s (λ _. defaults)
      (λ _ _. SameContent-IsValid (freed-SameContent s) v)
      (λ _ _ _ rows.
        sources-IsValid clock args (ensure_repo_metadata_defaults s) defaults
          (rw same.same_pack_seq (
            current-InRange _ s.pack_catalog args.source_packs v.ranged
              (rows_match-IsCurrent args.source_packs s.pack_catalog rows)))
          args.source_packs refl)

remove_row-IsValid :
    (full : String) (deletes : Bool × Bool × Bool) (state : RowState) (s : RepoStateSchema)
    → IsValid s
    → IsValid (remove_row full deletes state s).0
unfolding remove_row
remove_row-IsValid full deletes RowState.active s v = v
remove_row-IsValid full deletes RowState.unknown s v = v
remove_row-IsValid full deletes RowState.superseded s v = record {
  table = delete-IsTable (full ∷ []) s.pack_catalog v.table;
  ranged =
      rw (delete-without (full ∷ []) s.pack_catalog)
        (All-keep (InRange (or_number s.next_pack_seq 1)) _ s.pack_catalog v.ranged);
}

seed-IsValid :
    (created_at : ℕ) (pack : Option StagedPack) (oid : String) (s : RepoStateSchema)
    → IsValid s
    → IsValid (seed_minimal_repo_state created_at pack oid s)
unfolding seed_minimal_repo_state
seed-IsValid created_at none oid s v = record { table = v.table; ranged = v.ranged }
seed-IsValid created_at (some pack) oid s v =
    let seq = or_number s.next_pack_seq 1 in
    let row = received_row created_at seq pack in
    let next : or_number (some (seq + 1)) 1 ≡ suc seq = ground arith in
    record {
      table = upsert-IsTable row s.pack_catalog v.table;
      ranged = rw next (
          upsert-All (InRange (suc seq)) row s.pack_catalog (unfold received_row in omega arith)
            (All-map (InRange seq) _ (λ r k. omega arith) s.pack_catalog v.ranged));
    }

-- The body of every call.
serve-IsValid :
    (clock : ℕ → ℕ) (c : Call) (s : RepoStateSchema) → IsValid s → IsValid (serve clock c s)
unfolding serve
serve-IsValid clock reads s v = v
serve-IsValid clock (sets_refs refs) s v = unfold set_refs in kept-IsValid {s = s} refl refl v
serve-IsValid clock (sets_head head) s v = unfold set_head in kept-IsValid {s = s} refl refl v
serve-IsValid clock gets_head s v =
    let (catalog, _, _, seq) = update_head-keeps (resolve_target s.head (get_refs s)) s in
    unfold resolve_head in kept-IsValid catalog (ap (λ n. or_number n 1) seq) v
serve-IsValid clock (begins_receive uuid) s v =
    SameContent-IsValid (Changes.begin_receive-SameContent clock uuid s) v
serve-IsValid clock (aborts_receive token) s v =
    SameContent-IsValid (Changes.abort_receive-SameContent token s) v
serve-IsValid clock (finalizes_receive args) s v = finalize-IsValid clock args s v
serve-IsValid clock (begins_compaction uuid) s v =
    SameContent-IsValid (Changes.begin_compaction-SameContent clock uuid s) v
serve-IsValid clock (aborts_compaction token) s v =
    SameContent-IsValid (Changes.abort_compaction-SameContent token s) v
serve-IsValid clock (commits_compaction args) s v = commit-IsValid clock args s v
serve-IsValid clock previews_compaction s v = SameContent-IsValid (Changes.preview-SameContent s) v
serve-IsValid clock requests_compaction s v =
    SameContent-IsValid (Changes.request-SameContent clock s) v
serve-IsValid clock clears_request s v = SameContent-IsValid (Changes.clear_request-SameContent s) v
serve-IsValid clock (removes_pack prefix deletes key) s v =
    unfold remove_pack in
    remove_row-IsValid (full_pack_key prefix key) deletes
      (row_state (get_pack_catalog_row (full_pack_key prefix key) s.pack_catalog)) s v
serve-IsValid clock (seeds pack oid) s v = seed-IsValid (clock 0) pack oid s v

happen-IsValid :
    (idle_ms : ℕ) (e : ObjectEvent) (s : RepoStateSchema) → IsValid s → IsValid (happen idle_ms e s)
unfolding happen
happen-IsValid idle_ms (called now clock c) s v =
    unfold call in
    serve-IsValid clock c (ensure_access_and_alarm idle_ms now s)
      (SameContent-IsValid (Changes.access-SameContent idle_ms now s) v)
happen-IsValid idle_ms (woken clock sent) s v = elim (alarm-KeepsOrDeletes idle_ms clock sent s) [
  | inl same ↦ SameContent-IsValid same v
  | inr (_, _, catalog, _, _) ↦ nil-IsValid catalog
]
happen-IsValid idle_ms cleared s v = unfold clear_repository_storage in nil-IsValid refl

-- After any sequence of calls, alarms and deletions of the storage on a repository whose catalog is
-- well formed it is well formed: no two rows have one key, and every row has a range of sequence
-- numbers, its low end not above its high end, that have been given out.
pub run-IsValid :
    (idle_ms : ℕ) (es : List ObjectEvent) (s : RepoStateSchema)
    → IsValid s
    → IsValid (run idle_ms es s)
unfolding run
run-IsValid idle_ms [] s v = v
run-IsValid idle_ms (e ∷ es) s v =
    run-IsValid idle_ms es (happen idle_ms e s) (happen-IsValid idle_ms e s v)
