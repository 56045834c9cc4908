-- ===== src/Repo/Receive/Staged.antt =====
-- What `finalizeReceiveState` does with the pack of a push.
use gitedge.Shared.{
  ℕ, suc, ◌+◌, ◌≡◌, refl, ◌∙◌, String, Bool, Option, none, some, if◌then◌else◌, or_number, arith,
}
use gitedge.Shared.Text.{str_eq}
use gitedge.Repo.State.{RepoStateSchema}
use gitedge.Repo.Metadata.{ensure_repo_metadata_defaults, bump_packset_version}
use gitedge.Repo.Catalog.{get_pack_catalog_row, upsert_pack_catalog_row, list_active_pack_catalog}
use gitedge.Repo.Catalog.Rows.{row-upsert}
use gitedge.Repo.Content.{SameContent, defaults-SameContent}
use gitedge.Repo.Plan.{catalog_needs_compaction}
use gitedge.Repo.Compaction.{StagedPack}
use gitedge.Repo.Receive.{received_row, queue_compaction, add_staged_pack}

-- The version and the next sequence number after a push's pack is added.
queue-keeps :
    (clock : ℕ → ℕ) (needed : Bool) (s : RepoStateSchema)
    → SameContent s (queue_compaction clock needed s)
unfolding queue_compaction
queue-keeps clock needed s = ground arith

pub add_staged_pack-keeps :
    (clock : ℕ → ℕ) (staged : StagedPack) (s : RepoStateSchema)
    → let s' = (add_staged_pack clock (some staged) s).0 in
      let seq = or_number s.next_pack_seq 1 in
      (s'.pack_catalog ≡ upsert_pack_catalog_row (received_row (clock 0) seq staged) s.pack_catalog)
      × (or_number s'.packset_version 0 ≡ suc (or_number s.packset_version 0))
      × (or_number s'.next_pack_seq 1 ≡ suc seq)
unfolding add_staged_pack bump_packset_version
add_staged_pack-keeps clock staged s =
    let seq = or_number s.next_pack_seq 1 in
    let t = upsert_pack_catalog_row (received_row (clock 0) seq staged) s.pack_catalog in
    let s₁ : RepoStateSchema = record s {
      pack_catalog = t;
      next_pack_seq = some (seq + 1);
      packset_version = some (or_number s.packset_version 0 + 1);
    } in
    let same = queue-keeps clock (catalog_needs_compaction (list_active_pack_catalog t)) s₁ in
    (same.same_catalog, same.same_packset_version ∙ ground arith, same.same_pack_seq ∙ ground arith)

-- The pack of a push, if it has one, stands in the catalog under the next sequence number.
abbrev pub IsStored : ℕ → Option StagedPack → RepoStateSchema → RepoStateSchema → Type 0
IsStored now none s s' =
    (s'.pack_catalog ≡ s.pack_catalog)
    × (or_number s'.packset_version 0 ≡ or_number s.packset_version 0)
IsStored now (some staged) s s' =
    ((k : String)
      → get_pack_catalog_row k s'.pack_catalog ≡ (
          if str_eq staged.pack_key k
          then some (received_row now (or_number s.next_pack_seq 1) staged)
          else get_pack_catalog_row k s.pack_catalog))
    × (or_number s'.packset_version 0 ≡ suc (or_number s.packset_version 0))
    × (or_number s'.next_pack_seq 1 ≡ suc (or_number s.next_pack_seq 1))

pub add-IsStored :
    (clock : ℕ → ℕ) (staged : Option StagedPack) (s : RepoStateSchema)
    → IsStored (clock 0) staged s (add_staged_pack clock staged s).0
add-IsStored clock none s = unfold add_staged_pack in (refl, refl)
add-IsStored clock (some staged) s =
    let (catalog, version, seq) = add_staged_pack-keeps clock staged s in
    (
      λ k. rw catalog (
          unfold received_row in
          row-upsert (received_row (clock 0) (or_number s.next_pack_seq 1) staged) k
            s.pack_catalog),
      version,
      seq,
    )

pub defaults-IsStored :
    (now : ℕ) (staged : Option StagedPack) (s s' : RepoStateSchema)
    → IsStored now staged (ensure_repo_metadata_defaults s) s'
    → IsStored now staged s s'
defaults-IsStored now none s s' (catalog, version) =
    let same = defaults-SameContent s in
    (catalog ∙ same.same_catalog, version ∙ same.same_packset_version)
defaults-IsStored now (some staged) s s' (rows, version, seq) =
    let same = defaults-SameContent s in
    (
      rw (same.same_pack_seq, same.same_catalog) at rows,
      rw same.same_packset_version at version,
      rw same.same_pack_seq at seq,
    )

pub kept-IsStored :
    (now : ℕ) (staged : Option StagedPack) (s u v : RepoStateSchema)
    → v.pack_catalog ≡ u.pack_catalog
    → v.packset_version ≡ u.packset_version
    → v.next_pack_seq ≡ u.next_pack_seq
    → IsStored now staged s u
    → IsStored now staged s v
kept-IsStored now none s u v c p n (catalog, version) = (c ∙ catalog, rw p version)
kept-IsStored now (some staged) s u v c p n (rows, version, seq) =
    (rw c rows, rw p version, rw n seq)
