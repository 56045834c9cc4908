-- ===== src/Repo/Leases.antt =====
-- src/worker/do/repo/catalog/leases.ts: the leases of a push and of a compaction.
-- `crypto.randomUUID()` is an argument, and so are the answers of `Date.now()`.
pub mod Exclusion
use gitedge.Shared.{
  ℕ, ◌+◌, String, Bool, true, false, List, [], Option, none, some, leb, if◌then◌else◌, or_else,
  or_number,
}
use gitedge.Shared.Text.{str_eq}
use gitedge.Repo.State.{RepoStateSchema, RepoLease, PackCatalogRow, Ref, Head, Clock}
use gitedge.Repo.Metadata.{
  receive_lease_ttl_ms, lease_retry_after_seconds, default_head, ensure_repo_metadata_defaults,
}
use gitedge.Repo.Catalog.{list_active_pack_catalog}

-- The lease that is left at a time.
unfoldable pub unexpired : ℕ → Option RepoLease → Option RepoLease
unexpired now none = none
unexpired now (some lease) = if leb lease.expires_at now then none else some lease

unfoldable pub clear_expired_leases : ℕ → RepoStateSchema → RepoStateSchema
unfolding unexpired
clear_expired_leases now s = record s {
  receive_lease = unexpired now s.receive_lease;
  compact_lease = unexpired now s.compact_lease;
}

pub record ReceiveGrant : Type 0 where
  pub lease : RepoLease
  pub refs : List Ref
  pub head : Head
  pub refs_version : ℕ
  pub packset_version : ℕ
  pub next_pack_seq : ℕ
  pub active_catalog : List PackCatalogRow

pub data BeginReceiveResult : Type 0 where
  refused : ℕ → BeginReceiveResult
  granted : ReceiveGrant → BeginReceiveResult

abbrev pub new_lease : String → ℕ → ℕ → RepoLease
new_lease uuid now ttl = record { token = uuid; created_at = now; expires_at = now + ttl }

-- The lease is put, and the missing metadata is filled in.
unfoldable pub lease_receive : String → ℕ → RepoStateSchema → RepoStateSchema
unfolding ensure_repo_metadata_defaults
lease_receive uuid now s =
    ensure_repo_metadata_defaults
      (record s { receive_lease = some (new_lease uuid now receive_lease_ttl_ms) })

-- The end of `beginReceiveLease`, by the lease that has not expired.
unfoldable pub grant_receive :
    ℕ → String → Option RepoLease → RepoStateSchema → RepoStateSchema × BeginReceiveResult
unfolding lease_receive list_active_pack_catalog
grant_receive now uuid (some existing) s = (s, refused lease_retry_after_seconds)
grant_receive now uuid none s₁ =
    let s = lease_receive uuid now s₁ in
    (
      s,
      granted (record {
        lease = new_lease uuid now receive_lease_ttl_ms;
        refs = or_else s.refs [];
        head = or_else s.head default_head;
        refs_version = or_number s.refs_version 0;
        packset_version = or_number s.packset_version 0;
        next_pack_seq = or_number s.next_pack_seq 1;
        active_catalog = list_active_pack_catalog s.pack_catalog;
      }),
    )

unfoldable pub begin_receive_lease :
    Clock → String → RepoStateSchema → RepoStateSchema × BeginReceiveResult
unfolding clear_expired_leases grant_receive
begin_receive_lease clock uuid s₀ =
    let s = clear_expired_leases (clock 0) s₀ in grant_receive (clock 1) uuid s.receive_lease s

unfoldable pub holds_token : Option RepoLease → String → Bool
holds_token none token = false
holds_token (some lease) token = str_eq lease.token token

unfoldable pub abort_receive_lease : String → RepoStateSchema → RepoStateSchema × Bool
unfolding holds_token
abort_receive_lease token s =
    if holds_token s.receive_lease token
    then (record s { receive_lease = none }, true)
    else (s, false)

unfoldable pub abort_compaction_lease : String → RepoStateSchema → RepoStateSchema × Bool
unfolding holds_token
abort_compaction_lease token s =
    if holds_token s.compact_lease token
    then (record s { compact_lease = none }, true)
    else (s, false)
