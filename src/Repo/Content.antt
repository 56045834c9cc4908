-- ===== src/Repo/Content.antt =====
-- The part of the state that reads serve, and that leases, requests and alarms leave alone.
use gitedge.Shared.{◌≡◌, none, or_number, arith}
use gitedge.Repo.State.{RepoStateSchema}
use gitedge.Repo.Metadata.{ensure_repo_metadata_defaults}

-- Nothing of the repository's content has changed.
pub record SameContent (s s' : RepoStateSchema) : Type 0 where
  pub same_refs : s'.refs ≡ s.refs
  pub same_head : s'.head ≡ s.head
  pub same_catalog : s'.pack_catalog ≡ s.pack_catalog
  pub same_refs_version : or_number s'.refs_version 0 ≡ or_number s.refs_version 0
  pub same_packset_version : or_number s'.packset_version 0 ≡ or_number s.packset_version 0
  pub same_pack_seq : or_number s'.next_pack_seq 1 ≡ or_number s.next_pack_seq 1

pub defaults-SameContent : (s : RepoStateSchema) → SameContent s (ensure_repo_metadata_defaults s)
unfolding ensure_repo_metadata_defaults
defaults-SameContent s = ground arith

pub dropped-SameContent :
    (s : RepoStateSchema)
    → SameContent s (record (ensure_repo_metadata_defaults s) { receive_lease = none })
unfolding ensure_repo_metadata_defaults
dropped-SameContent s = ground arith

pub freed-SameContent :
    (s : RepoStateSchema)
    → SameContent s (record (ensure_repo_metadata_defaults s) { compact_lease = none })
unfolding ensure_repo_metadata_defaults
freed-SameContent s = ground arith

pub SameContent-refl : (s : RepoStateSchema) → SameContent s s
SameContent-refl s = ground arith

pub SameContent-trans :
    {s t u : RepoStateSchema} → SameContent s t → SameContent t u → SameContent s u
SameContent-trans h k = ground arith
