-- ===== src/Repo/Tests/Data.antt =====
-- A repository with five packs of pushes, and calls on it.
use gitedge.Shared.{ℕ, ◌+◌, ◌*◌, String, List, [], ◌∷◌, none, some}
use gitedge.Repo.State.{Ref, RepoLease, PackKind, PackState, PackCatalogRow, RepoStateSchema}
use gitedge.Repo.Refs.{ReceiveCommand}
use gitedge.Repo.Compaction.{CommitArgs}
use gitedge.Repo.Receive.{FinalizeArgs}

abbrev pub zero_oid : String
zero_oid = "0000000000000000000000000000000000000000"

abbrev pub oid_a : String
oid_a = "aaaaaaaaaaaaaaaaaaaaaaaaaaaaaaaaaaaaaaaa"

abbrev pub oid_b : String
oid_b = "bbbbbbbbbbbbbbbbbbbbbbbbbbbbbbbbbbbbbbbb"

abbrev pub received : String → ℕ → PackCatalogRow
received key seq = record {
  pack_key = key;
  kind = PackKind.receive;
  state = PackState.active;
  tier = 0;
  seq_lo = seq;
  seq_hi = seq;
  object_count = 2;
  pack_bytes = 100;
  idx_bytes = 50;
  created_at = 10 * seq;
  superseded_by = none;
}

abbrev pub four_packs : List PackCatalogRow
four_packs = received "p1" 1 ∷ received "p2" 2 ∷ received "p3" 3 ∷ received "p4" 4 ∷ []

abbrev pub five_packs : List PackCatalogRow
five_packs =
    received "p1" 1 ∷ received "p2" 2 ∷ received "p3" 3 ∷ received "p4" 4 ∷ received "p5" 5 ∷ []

abbrev pub push_lease : RepoLease
push_lease = record { token = "push"; created_at = 1000; expires_at = 5000 }

abbrev pub compact_lease : RepoLease
compact_lease = record { token = "compact"; created_at = 1000; expires_at = 5000 }

abbrev pub main_ref : Ref
main_ref = record { name = "refs/heads/main"; oid = oid_a }

-- Five packs, a compaction that is wanted and under way.
abbrev pub compacting_repo : RepoStateSchema
compacting_repo = record {
  refs = some (main_ref ∷ []);
  head = none;
  refs_version = some 3;
  packset_version = some 5;
  next_pack_seq = some 6;
  receive_lease = none;
  compact_lease = some compact_lease;
  compaction_wanted_at = some 900;
  last_access_ms = some 900;
  pack_catalog = five_packs;
  alarm = none;
  last_access_mem_ms = some 900;
}

-- A push that is under way.
abbrev pub pushing_repo : RepoStateSchema
pushing_repo = record compacting_repo { receive_lease = some push_lease; compact_lease = none }

abbrev pub at_2000 : ℕ → ℕ
at_2000 place = 2000 + place

abbrev pub commit_four : CommitArgs
commit_four = record {
  token = "compact";
  source_packs = four_packs;
  target_tier = 1;
  packset_version = 5;
  staged_pack = record { pack_key = "c1"; pack_bytes = 300; idx_bytes = 90; object_count = 8 };
}

abbrev pub update_main : ReceiveCommand
update_main = record { old_oid = oid_a; new_oid = oid_b; ref = "refs/heads/main" }

abbrev pub create_topic : ReceiveCommand
create_topic = record { old_oid = zero_oid; new_oid = oid_b; ref = "refs/heads/topic" }

abbrev pub push_two : FinalizeArgs
push_two = record {
  token = "push";
  commands = update_main ∷ create_topic ∷ [];
  staged_pack =
      some (record { pack_key = "p6"; pack_bytes = 70; idx_bytes = 30; object_count = 3 });
}
