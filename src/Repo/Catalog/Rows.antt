-- ===== src/Repo/Catalog/Rows.antt =====
-- What a lookup by key sees after each statement, and the primary key.
use gitedge.Shared.{
  ◌≡◌, refl, String, true, false, List, [], ◌∷◌, Option, none, some, map, if◌then◌else◌, is_some,
  All, arith, Bool-cases, inl, inr,
}
use mathlib.Core.Path.{subst}
use mathlib.Core.Option.{some-injective}
use gitedge.Shared.Text.{str_eq, str_eq_iff}
use gitedge.Repo.State.{PackCatalogRow}
use gitedge.Repo.Catalog.{
  has_key, retire, get_pack_catalog_row, upsert_pack_catalog_row, delete_pack_catalog_rows,
}
use gitedge.Repo.Catalog.Batches.{without, delete-without}

abbrev pub map_row :
    (PackCatalogRow → PackCatalogRow) → Option PackCatalogRow → Option PackCatalogRow
map_row f none = none
map_row f (some r) = some (f r)

-- A lookup after an upsert sees the new row under its key, and every other key as before.
pub row-upsert :
    (row : PackCatalogRow) (k : String) (t : List PackCatalogRow)
    → get_pack_catalog_row k (upsert_pack_catalog_row row t)
      ≡ (if str_eq row.pack_key k then some row else get_pack_catalog_row k t)
unfolding get_pack_catalog_row upsert_pack_catalog_row
row-upsert row k [] = refl
row-upsert row k (r ∷ t) = ground (
  arith,
  str_eq_iff row.pack_key k,
  str_eq_iff r.pack_key k,
  str_eq_iff r.pack_key row.pack_key,
  row-upsert row k t,
)

pub row-retire :
    (keys : List String) (by : Option String) (k : String) (t : List PackCatalogRow)
    → get_pack_catalog_row k (map (retire keys by) t)
      ≡ map_row (retire keys by) (get_pack_catalog_row k t)
unfolding get_pack_catalog_row retire
row-retire keys by k [] = refl
row-retire keys by k (r ∷ t) = ground (arith, row-retire keys by k t)

-- The primary key: no two rows have one key.
abbrev pub IsTable : List PackCatalogRow → Type 0
IsTable [] = Unit
IsTable (r ∷ t) = (is_some (get_pack_catalog_row r.pack_key t) ≡ false) × IsTable t

pub upsert-IsTable :
    (row : PackCatalogRow) (t : List PackCatalogRow)
    → IsTable t
    → IsTable (upsert_pack_catalog_row row t)
unfolding get_pack_catalog_row upsert_pack_catalog_row
upsert-IsTable row [] h = ground arith
upsert-IsTable row (r ∷ t) h = ground (
  arith,
  str_eq_iff r.pack_key row.pack_key,
  str_eq_iff row.pack_key r.pack_key,
  row-upsert row r.pack_key t,
  upsert-IsTable row t,
)

pub retire-IsTable :
    (keys : List String) (by : Option String) (t : List PackCatalogRow)
    → IsTable t
    → IsTable (map (retire keys by) t)
unfolding retire
retire-IsTable keys by [] h = tt
retire-IsTable keys by (r ∷ t) h =
    ground (arith, row-retire keys by r.pack_key t, retire-IsTable keys by t)

row-without :
    (keys : List String) (k : String) (t : List PackCatalogRow)
    → get_pack_catalog_row k (without keys t)
      ≡ (if has_key keys k then none else get_pack_catalog_row k t)
unfolding get_pack_catalog_row
row-without keys k [] = ground arith
row-without keys k (r ∷ t) = ground (arith, str_eq_iff r.pack_key k, row-without keys k t)

without-IsTable :
    (keys : List String) (t : List PackCatalogRow) → IsTable t → IsTable (without keys t)
without-IsTable keys [] h = tt
without-IsTable keys (r ∷ t) h =
    ground (arith, row-without keys r.pack_key t, without-IsTable keys t)

-- A lookup after a deletion fails at the deleted keys, and sees every other key as before.
pub row-delete :
    (keys : List String) (k : String) (t : List PackCatalogRow)
    → get_pack_catalog_row k (delete_pack_catalog_rows keys t)
      ≡ (if has_key keys k then none else get_pack_catalog_row k t)
row-delete keys k t = rw (delete-without keys t) (row-without keys k t)

pub delete-IsTable :
    (keys : List String) (t : List PackCatalogRow)
    → IsTable t
    → IsTable (delete_pack_catalog_rows keys t)
delete-IsTable keys t h = rw (delete-without keys t) (without-IsTable keys t h)

module _ {κ} (P : PackCatalogRow → Type κ) where
  pub upsert-All :
      (row : PackCatalogRow) (t : List PackCatalogRow)
      → P row
      → All P t
      → All P (upsert_pack_catalog_row row t)
  unfolding upsert_pack_catalog_row
  upsert-All row [] p h = (p, tt)
  upsert-All row (r ∷ t) p (q, h) =
      elim (str_eq r.pack_key row.pack_key)
        as (λ b. All P (if b then row ∷ t else r ∷ upsert_pack_catalog_row row t)) [
          | true ↦ (p, h)
          | false ↦ (q, upsert-All row t p h)
        ]

  pub row-All :
      (k : String) (t : List PackCatalogRow) (r : PackCatalogRow)
      → All P t
      → get_pack_catalog_row k t ≡ some r
      → P r
  unfolding get_pack_catalog_row
  row-All k [] r h e = cc
  row-All k (x ∷ t) r (p, h) e = elim (Bool-cases (str_eq x.pack_key k)) [
    | inl y ↦ subst P (some-injective x r (rw y at e)) p
    | inr n ↦ row-All k t r h (rw n at e)
  ]

pub row-key :
    (k : String) (t : List PackCatalogRow) (r : PackCatalogRow)
    → get_pack_catalog_row k t ≡ some r
    → r.pack_key ≡ k
unfolding get_pack_catalog_row
row-key k [] r e = cc
row-key k (x ∷ t) r e = ground (arith, str_eq_iff x.pack_key k, row-key k t r)
