-- ===== src/Repo/Catalog.antt =====
-- src/worker/do/repo/db/dal/packCatalog.ts and catalog/state.ts: the table of packs.
-- A query that gives no order returns the rows in the order of the table; equal rows of an
-- ORDER BY keep that order.
pub mod Batches
pub mod Rows
use gitedge.Shared.{
  ℕ, zero, suc, ◌-◌, String, Bool, true, false, ◌||◌, List, [], ◌∷◌, ◌++◌, Option, none, some, map,
  ltb, ◌==◌, if◌then◌else◌, length, take, drop, keep, find, max,
}
use gitedge.Shared.Text.{str_eq}
use gitedge.Shared.Sort.{sort_by}
use gitedge.Repo.State.{PackCatalogRow, PackState}

abbrev pub is_active : PackCatalogRow → Bool
is_active row = elim (row.state) [ PackState.active ↦ true | PackState.superseded ↦ false ]

abbrev pub safe_rows : ℕ
safe_rows = 80

-- `orderBy(desc(seqHi), desc(tier))`
abbrev pub newest_first : PackCatalogRow → PackCatalogRow → Bool
newest_first a b =
    if a.seq_hi == b.seq_hi
    then if ltb a.tier b.tier then false else true
    else ltb b.seq_hi a.seq_hi

unfoldable pub get_pack_catalog_count : List PackCatalogRow → ℕ
get_pack_catalog_count t = length t

unfoldable pub get_active_pack_catalog_count : List PackCatalogRow → ℕ
get_active_pack_catalog_count t = length (keep is_active t)

unfoldable pub list_pack_catalog : List PackCatalogRow → List PackCatalogRow
unfolding sort_by
list_pack_catalog t = sort_by newest_first t

unfoldable pub list_active_pack_catalog : List PackCatalogRow → List PackCatalogRow
unfolding sort_by
list_active_pack_catalog t = sort_by newest_first (keep is_active t)

unfoldable pub get_pack_catalog_row : String → List PackCatalogRow → Option PackCatalogRow
get_pack_catalog_row k t = find (λ row. str_eq row.pack_key k) t

-- `coalesce(max(seq_hi), 0)`
unfoldable pub get_pack_catalog_seq_max : List PackCatalogRow → ℕ
get_pack_catalog_seq_max [] = 0
get_pack_catalog_seq_max (row ∷ t) = max row.seq_hi (get_pack_catalog_seq_max t)

-- A row with the key is overwritten in place, and a new one goes to the end.
unfoldable pub upsert_pack_catalog_row : PackCatalogRow → List PackCatalogRow → List PackCatalogRow
upsert_pack_catalog_row row [] = row ∷ []
upsert_pack_catalog_row row (r ∷ t) =
    if str_eq r.pack_key row.pack_key then row ∷ t else r ∷ upsert_pack_catalog_row row t

-- `inArray(pack_key, keys)`
unfoldable pub has_key : List String → String → Bool
has_key [] k = false
has_key (j ∷ js) k = str_eq j k || has_key js k

unfoldable pub retire : List String → Option String → PackCatalogRow → PackCatalogRow
unfolding has_key
retire keys by row =
    if has_key keys row.pack_key
    then record row { state = PackState.superseded; superseded_by = by }
    else row

-- `for (let i = 0; i < keys.length; i += SAFE_ROWS_1COL)`, one statement for each batch.
batches :
    ℕ
    → (List String → List PackCatalogRow → List PackCatalogRow)
    → List String
    → List PackCatalogRow
    → List PackCatalogRow
batches zero op keys t = t
batches (suc f) op [] t = t
batches (suc f) op (k ∷ ks) t =
    batches f op (drop safe_rows (k ∷ ks)) (op (take safe_rows (k ∷ ks)) t)

-- A batch takes a key at least, so `length keys` rounds are enough.
unfoldable pub supersede_pack_catalog_rows :
    List String → Option String → List PackCatalogRow → List PackCatalogRow
unfolding batches retire
supersede_pack_catalog_rows keys by t = batches (length keys) (λ ks. map (retire ks by)) keys t

unfoldable pub delete_pack_catalog_rows : List String → List PackCatalogRow → List PackCatalogRow
unfolding batches has_key
delete_pack_catalog_rows keys t =
    batches (length keys) (λ ks. keep (λ row. if has_key ks row.pack_key then false else true)) keys
      t
