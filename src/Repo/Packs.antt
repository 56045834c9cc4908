-- ===== src/Repo/Packs.antt =====
-- `removePack` of src/worker/do/repo/packOperations.ts. The deletions in the bucket are outside:
-- whether each of the three succeeds is an argument. No storage call throws.
use Prim.Native.String.{◌++◌}
use text.Mathlib.Text.{starts_with}
use gitedge.Shared.{String, Bool, true, false, ◌||◌, [], ◌∷◌, Option, none, some, if◌then◌else◌}
use gitedge.Repo.State.{RepoStateSchema, PackCatalogRow, PackState}
use gitedge.Repo.Catalog.{get_pack_catalog_row, delete_pack_catalog_rows}

pub data RowState : Type 0 where
  active superseded unknown : RowState

pub data Rejected : Type 0 where
  active_pack non_superseded_pack : Rejected

pub record RemovePackResult : Type 0 where
  pub removed : Bool
  pub deleted_pack : Bool
  pub deleted_index : Bool
  pub deleted_refs : Bool
  pub deleted_metadata : Bool
  pub rejected : Option Rejected
  pub pack_state : RowState

unfoldable pub full_pack_key : String → String → String
full_pack_key prefix key =
    if starts_with key prefix then key else prefix ++ ("/objects/pack/" ++ key)

unfoldable pub row_state : Option PackCatalogRow → RowState
row_state none = RowState.unknown
row_state (some row) = elim (row.state) [
  | PackState.active ↦ RowState.active
  | PackState.superseded ↦ RowState.superseded
]

abbrev reject : Rejected → RowState → RemovePackResult
reject why state = record {
  removed = false;
  deleted_pack = false;
  deleted_index = false;
  deleted_refs = false;
  deleted_metadata = false;
  rejected = some why;
  pack_state = state;
}

-- What is done with a pack whose row has the state. `deletes` says whether the deletion of the
-- pack, of its index and of its references succeeded.
unfoldable pub remove_row :
    String → Bool × Bool × Bool → RowState → RepoStateSchema → RepoStateSchema × RemovePackResult
unfolding delete_pack_catalog_rows
remove_row full deletes active s = (s, reject active_pack RowState.active)
remove_row full deletes unknown s = (s, reject non_superseded_pack RowState.unknown)
remove_row full deletes superseded s = (
  record s { pack_catalog = delete_pack_catalog_rows (full ∷ []) s.pack_catalog },
  record {
    removed = deletes.0 || (deletes.1 || (deletes.2 || true));
    deleted_pack = deletes.0;
    deleted_index = deletes.1;
    deleted_refs = deletes.2;
    deleted_metadata = true;
    rejected = none;
    pack_state = RowState.superseded;
  },
)

unfoldable pub remove_pack :
    String → Bool × Bool × Bool → String → RepoStateSchema → RepoStateSchema × RemovePackResult
unfolding full_pack_key row_state get_pack_catalog_row remove_row
remove_pack prefix deletes key s =
    let full = full_pack_key prefix key in
    remove_row full deletes (row_state (get_pack_catalog_row full s.pack_catalog)) s
