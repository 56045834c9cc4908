-- ===== src/Repo/Compaction/Commit.antt =====
-- What the commit of a compaction changes.
use gitedge.Shared.{
  ℕ, suc, ◌+◌, ◌≤◌, ◌≡◌, ◌≢◌, refl, sym, ◌∙◌, ap, String, Bool, true, false, List, [], ◌∷◌, Option,
  none, some, inl, inr, if◌then◌else◌, or_number, is_some, length, All, Bool-cases, Option-cases,
  &&-eq-true, ==_iff, ◌==◌, arith,
}
use gitedge.Shared.Text.{str_eq}
use gitedge.Repo.State.{RepoStateSchema, PackCatalogRow}
use gitedge.Repo.Metadata.{
  ensure_repo_metadata_defaults, bump_packset_version, active_lease_or_undefined,
}
use gitedge.Repo.Catalog.{list_active_pack_catalog, get_pack_catalog_row, retire}
use gitedge.Repo.Catalog.Batches.{supersede-map}
use gitedge.Repo.Catalog.Rows.{map_row, row-upsert, row-retire}
use gitedge.Repo.Content.{SameContent, defaults-SameContent, freed-SameContent}
use gitedge.Repo.Leases.{holds_token}
use gitedge.Repo.Plan.{catalog_needs_compaction, row_matches, rows_match_for_commit}
use gitedge.Repo.Compaction.{
  CommitArgs, CommitCompactionResult, committed, retry, fault, RetryReason, lease_mismatch,
  receive_active, packset_changed, source_changed, current_rows, pack_keys, compacted_row,
  swap_packs, requeue, commit_packs, commit_sources, commit_compaction_state,
}

length-current_rows-le :
    (sources t : List PackCatalogRow) → length (current_rows sources t) ≤ length sources
unfolding current_rows
length-current_rows-le [] t = omega arith
length-current_rows-le (p ∷ ps) t = ground (arith, length-current_rows-le ps t)

rows_match-length :
    (es cs : List PackCatalogRow) → rows_match_for_commit es cs ≡ true → length es ≡ length cs
unfolding rows_match_for_commit
rows_match-length [] [] h = refl
rows_match-length [] (c ∷ cs) h = cc
rows_match-length (e ∷ es) [] h = cc
rows_match-length (e ∷ es) (c ∷ cs) h = ap suc (rows_match-length es cs (&&-eq-true _ _ h).1)

rows_match-cons :
    (e c : PackCatalogRow) (es cs : List PackCatalogRow)
    → rows_match_for_commit (e ∷ es) (c ∷ cs) ≡ true
    → (row_matches e c ≡ true) × (rows_match_for_commit es cs ≡ true)
unfolding rows_match_for_commit
rows_match-cons e c es cs h = &&-eq-true _ _ h

-- The row of a source pack is in the table, active and as the compaction saw it.
abbrev pub IsCurrent : List PackCatalogRow → PackCatalogRow → Type 0
IsCurrent t p =
    (r : PackCatalogRow) × (get_pack_catalog_row p.pack_key t ≡ some r) × (row_matches p r ≡ true)

-- The comparison of the two lists finds a missing row too, by the lengths.
pub rows_match-IsCurrent :
    (sources t : List PackCatalogRow)
    → rows_match_for_commit sources (current_rows sources t) ≡ true
    → All (IsCurrent t) sources
unfolding current_rows
rows_match-IsCurrent [] t h = tt
rows_match-IsCurrent (p ∷ ps) t h = elim (Option-cases (get_pack_catalog_row p.pack_key t)) [
  | inl e ↦
      let short : length (p ∷ ps) ≡ length (current_rows ps t) =
        rows_match-length (p ∷ ps) (current_rows ps t) (rw (e, current_rows) at h) in
      absurd (omega (arith, length-current_rows-le ps t))
  | inr (r, e) ↦
      let (a, b) = rows_match-cons p r ps (current_rows ps t) (rw (e, current_rows) at h) in
      ((r, e, a), rows_match-IsCurrent ps t b)
]

-- What a key names after the swap of the packs.
swapped :
    (now : ℕ) (args : CommitArgs) (first : PackCatalogRow) (k : String) (t : List PackCatalogRow)
    → get_pack_catalog_row k (swap_packs now args first t)
      ≡ map_row (retire (pack_keys args.source_packs) (some args.staged_pack.pack_key)) (
          if str_eq args.staged_pack.pack_key k
          then some (compacted_row now args first)
          else get_pack_catalog_row k t)
unfolding swap_packs
swapped now args first k t =
    rw (supersede-map (pack_keys args.source_packs) (some args.staged_pack.pack_key) _) (
      row-retire (pack_keys args.source_packs) (some args.staged_pack.pack_key) k _
      ∙ ap (map_row (retire (pack_keys args.source_packs) (some args.staged_pack.pack_key)))
          (unfold compacted_row in row-upsert (compacted_row now args first) k t))

-- A compaction that went through.
pub record IsCompacted (clock : ℕ → ℕ) (args : CommitArgs) (s s' : RepoStateSchema) : Type 0 where
  pub held : holds_token s.compact_lease args.token ≡ true
  pub no_push : active_lease_or_undefined s.receive_lease (clock 0) ≡ none
  pub unchanged : or_number s.packset_version 0 ≡ args.packset_version
  pub current : All (IsCurrent s.pack_catalog) args.source_packs
  pub swapped :
      (first : PackCatalogRow) × (rest : List PackCatalogRow) × (args.source_packs ≡ first ∷ rest)
      × ((k : String)
          → get_pack_catalog_row k s'.pack_catalog
            ≡ map_row (retire (pack_keys args.source_packs) (some args.staged_pack.pack_key)) (
                if str_eq args.staged_pack.pack_key k
                then some (compacted_row (clock 1) args first)
                else get_pack_catalog_row k s.pack_catalog))
  pub next_version : s'.packset_version ≡ some (or_number s.packset_version 0 + 1)
  pub released : s'.compact_lease ≡ none
  pub same_refs : s'.refs ≡ s.refs
  pub same_head : s'.head ≡ s.head

-- What each answer of `commitCompactionState` means.
abbrev pub CommitMeans :
    (ℕ → ℕ) → CommitArgs → RepoStateSchema → RepoStateSchema → CommitCompactionResult → Type 0
CommitMeans clock args s s' (committed done) = IsCompacted clock args s s'
CommitMeans clock args s s' (retry lease_mismatch) =
    SameContent s s' × (s'.compact_lease ≡ s.compact_lease)
CommitMeans clock args s s' (retry receive_active) = SameContent s s' × (s'.compact_lease ≡ none)
CommitMeans clock args s s' (retry packset_changed) = SameContent s s' × (s'.compact_lease ≡ none)
CommitMeans clock args s s' (retry source_changed) = SameContent s s' × (s'.compact_lease ≡ none)
CommitMeans clock args s s' fault = SameContent s s' × (args.source_packs ≡ [])

requeue-keeps :
    (clock : ℕ → ℕ) (again : Bool) (s : RepoStateSchema)
    → ((requeue clock again s).pack_catalog ≡ s.pack_catalog)
      × ((requeue clock again s).packset_version ≡ s.packset_version)
      × ((requeue clock again s).refs ≡ s.refs)
      × ((requeue clock again s).head ≡ s.head)
      × ((requeue clock again s).refs_version ≡ s.refs_version)
      × ((requeue clock again s).next_pack_seq ≡ s.next_pack_seq)
unfolding requeue
requeue-keeps clock again s = ground arith

pub commit_packs-keeps :
    (clock : ℕ → ℕ) (args : CommitArgs) (first : PackCatalogRow) (s : RepoStateSchema)
    → let s' = (commit_packs clock args first s).0 in
      (s'.pack_catalog ≡ swap_packs (clock 1) args first s.pack_catalog)
      × (s'.packset_version ≡ some (or_number s.packset_version 0 + 1))
      × (s'.refs ≡ s.refs)
      × (s'.head ≡ s.head)
      × (s'.refs_version ≡ s.refs_version)
      × (s'.next_pack_seq ≡ s.next_pack_seq)
unfolding commit_packs bump_packset_version
commit_packs-keeps clock args first s =
    let t = swap_packs (clock 1) args first s.pack_catalog in
    requeue-keeps clock (catalog_needs_compaction (list_active_pack_catalog t))
      (record s { pack_catalog = t; packset_version = some (or_number s.packset_version 0 + 1) })

commit_packs-IsCompacted :
    (clock : ℕ → ℕ) (args : CommitArgs) (first : PackCatalogRow) (s : RepoStateSchema)
    → holds_token s.compact_lease args.token ≡ true
    → active_lease_or_undefined s.receive_lease (clock 0) ≡ none
    → or_number s.packset_version 0 ≡ args.packset_version
    → rows_match_for_commit args.source_packs (current_rows args.source_packs s.pack_catalog) ≡ true
    → (rest : List PackCatalogRow) → args.source_packs ≡ first ∷ rest
    → IsCompacted clock args s (commit_packs clock args first (ensure_repo_metadata_defaults s)).0
unfolding commit_packs ensure_repo_metadata_defaults
commit_packs-IsCompacted clock args first s held quiet same rows rest e =
    let d = ensure_repo_metadata_defaults s in
    let (catalog, version, refs, head, _, _) = commit_packs-keeps clock args first d in
    let content = defaults-SameContent s in
    record {
      held = held;
      no_push = quiet;
      unchanged = same;
      current = rows_match-IsCurrent args.source_packs s.pack_catalog rows;
      swapped = (first, rest, e, λ k. rw catalog (swapped (clock 1) args first k s.pack_catalog));
      next_version = version ∙ ap (λ v. some (v + 1)) content.same_packset_version;
      released = refl;
      same_refs = refs;
      same_head = head;
    }

none_of_is_some {ℓ} : {A : Type ℓ} (o : Option A) → is_some o ≡ false → o ≡ none
none_of_is_some none h = refl
none_of_is_some (some a) h = cc

-- The ways in which a commit can end.
pub commit_cases {ℓ} :
    (P : RepoStateSchema × CommitCompactionResult → Type ℓ) (clock : ℕ → ℕ) (args : CommitArgs)
    (s : RepoStateSchema)
    → (holds_token s.compact_lease args.token ≡ false
        → P (ensure_repo_metadata_defaults s, retry lease_mismatch))
    → ((reason : RetryReason)
        → reason ≢ lease_mismatch
        → P (record (ensure_repo_metadata_defaults s) { compact_lease = none }, retry reason))
    → (holds_token s.compact_lease args.token ≡ true
        → is_some (active_lease_or_undefined s.receive_lease (clock 0)) ≡ false
        → (or_number (ensure_repo_metadata_defaults s).packset_version 0 == args.packset_version)
          ≡ true
        → rows_match_for_commit args.source_packs (current_rows args.source_packs s.pack_catalog)
          ≡ true
        → P (commit_sources clock args args.source_packs (ensure_repo_metadata_defaults s)))
    → P (commit_compaction_state clock args s)
unfolding commit_compaction_state
commit_cases P clock args s mismatch refuse commit =
    let d = ensure_repo_metadata_defaults s in
    elim (Bool-cases (holds_token s.compact_lease args.token)) [
      | inr n ↦ rw n (mismatch n)
      | inl held ↦
          elim (Bool-cases (is_some (active_lease_or_undefined s.receive_lease (clock 0)))) [
            | inl busy ↦ rw (held, busy) (refuse receive_active (λ e. cc))
            | inr quiet ↦
                elim (Bool-cases (or_number d.packset_version 0 == args.packset_version)) [
                  | inr n ↦ rw (held, quiet, n) (refuse packset_changed (λ e. cc))
                  | inl same ↦
                      elim (Bool-cases (
                        rows_match_for_commit args.source_packs
                          (current_rows args.source_packs s.pack_catalog))) [
                            | inr n ↦ rw (held, quiet, same, n) (refuse source_changed (λ e. cc))
                            | inl rows ↦ rw (held, quiet, same, rows) (commit held quiet same rows)
                          ]
                ]
          ]
    ]

refused-CommitMeans :
    (clock : ℕ → ℕ) (args : CommitArgs) (s : RepoStateSchema) (reason : RetryReason)
    → reason ≢ lease_mismatch
    → CommitMeans clock args s
        (record (ensure_repo_metadata_defaults s) { compact_lease = none })
        (retry reason)
refused-CommitMeans clock args s receive_active n = (freed-SameContent s, refl)
refused-CommitMeans clock args s lease_mismatch n = absurd (n refl)
refused-CommitMeans clock args s packset_changed n = (freed-SameContent s, refl)
refused-CommitMeans clock args s source_changed n = (freed-SameContent s, refl)

sources-CommitMeans :
    (clock : ℕ → ℕ) (args : CommitArgs) (s : RepoStateSchema)
    → holds_token s.compact_lease args.token ≡ true
    → active_lease_or_undefined s.receive_lease (clock 0) ≡ none
    → or_number (ensure_repo_metadata_defaults s).packset_version 0 ≡ args.packset_version
    → rows_match_for_commit args.source_packs (current_rows args.source_packs s.pack_catalog) ≡ true
    → (xs : List PackCatalogRow) → args.source_packs ≡ xs
    → let r = commit_sources clock args xs (ensure_repo_metadata_defaults s) in
      CommitMeans clock args s r.0 r.1
unfolding commit_sources commit_packs
sources-CommitMeans clock args s held quiet same rows [] e = (defaults-SameContent s, e)
sources-CommitMeans clock args s held quiet same rows (first ∷ rest) e =
    commit_packs-IsCompacted clock args first s held quiet
      (let content = defaults-SameContent s in sym content.same_packset_version ∙ same) rows rest e

-- A compaction either commits or changes no content. It commits only under its own lease, with no
-- unexpired lease of a push, at the packset version that the caller gives, and if every source
-- pack is in the catalog, active and as the caller saw it. Then the new pack stands in the catalog,
-- its
-- sequence numbers span those of the source packs, exactly these are retired in its favour, every other pack, the refs and HEAD are as
-- before, the version is one higher and the lease is released. A refusal for any other reason than
-- the token releases the lease.
pub commit-CommitMeans :
    (clock : ℕ → ℕ) (args : CommitArgs) (s : RepoStateSchema)
    → CommitMeans clock args s
        (commit_compaction_state clock args s).0
        (commit_compaction_state clock args s).1
commit-CommitMeans clock args s =
    commit_cases (λ r. CommitMeans clock args s r.0 r.1) clock args s
      (λ n. (defaults-SameContent s, unfold ensure_repo_metadata_defaults in refl))
      (refused-CommitMeans clock args s)
      (λ held quiet same rows.
        sources-CommitMeans clock args s held (none_of_is_some _ quiet) ((==_iff _ _).0 same) rows
          args.source_packs refl)
