-- ===== src/Repo/State.antt =====
-- src/worker/do/repo/repoState.ts and db/schema.ts: what the durable object of a repository stores.
use gitedge.Shared.{ℕ, String, Bool, List, Option}

pub record Ref : Type 0 where
  pub name : String
  pub oid : String

-- `unborn` is false where the field is missing.
pub record Head : Type 0 where
  pub target : String
  pub oid : Option String
  pub unborn : Bool

pub record RepoLease : Type 0 where
  pub token : String
  pub created_at : ℕ
  pub expires_at : ℕ

pub data PackKind : Type 0 where
  receive compact legacy : PackKind

pub data PackState : Type 0 where
  active superseded : PackState

-- A row of the table `pack_catalog`.
pub record PackCatalogRow : Type 0 where
  pub pack_key : String
  pub kind : PackKind
  pub state : PackState
  pub tier : ℕ
  pub seq_lo : ℕ
  pub seq_hi : ℕ
  pub object_count : ℕ
  pub pack_bytes : ℕ
  pub idx_bytes : ℕ
  pub created_at : ℕ
  pub superseded_by : Option String

-- The keys of the storage, the table, the alarm, and `lastAccessMemMs`, which is kept in memory.
pub record RepoStateSchema : Type 0 where
  pub refs : Option (List Ref)
  pub head : Option Head
  pub refs_version : Option ℕ
  pub packset_version : Option ℕ
  pub next_pack_seq : Option ℕ
  pub receive_lease : Option RepoLease
  pub compact_lease : Option RepoLease
  pub compaction_wanted_at : Option ℕ
  pub last_access_ms : Option ℕ
  pub pack_catalog : List PackCatalogRow
  pub alarm : Option ℕ
  pub last_access_mem_ms : Option ℕ

-- The answers of `Date.now()` in one call, one for each place that reads it, in their order.
abbrev pub Clock : Type 0
Clock = ℕ → ℕ
