-- ===== src/Repo/Catalog/Batches.antt =====
-- The batched statements do what one statement over all the keys would do.
use gitedge.Shared.{
  ℕ, zero, suc, ◌≤◌, ◌≡◌, refl, sym, ap, ◌∙◌, String, true, false, ◌||◌, List, [], ◌∷◌, ◌++◌,
  Option, map, if◌then◌else◌, length, take, drop, keep, length-drop, take-append-drop, arith,
}
use gitedge.Repo.State.{PackCatalogRow}
use gitedge.Repo.Catalog.{
  safe_rows, has_key, retire, batches, supersede_pack_catalog_rows, delete_pack_catalog_rows,
}

has_key-append :
    (xs ys : List String) (k : String) → has_key (xs ++ ys) k ≡ (has_key xs k || has_key ys k)
unfolding has_key
has_key-append [] ys k = refl
has_key-append (x ∷ xs) ys k = ground (arith, has_key-append xs ys k)

-- An operation on keys that may be done in parts.
module _ (op : List String → List PackCatalogRow → List PackCatalogRow)
    (op-nil : (t : List PackCatalogRow) → op [] t ≡ t)
    (op-append : (xs ys : List String) (t : List PackCatalogRow)
      → op ys (op xs t) ≡ op (xs ++ ys) t) where
  batches-op :
      (f : ℕ) (keys : List String) (t : List PackCatalogRow)
      → length keys ≤ f
      → batches f op keys t ≡ op keys t
  unfolding batches
  batches-op zero [] t h = sym (op-nil t)
  batches-op zero (k ∷ ks) t h = absurd (omega arith)
  batches-op (suc f) [] t h = sym (op-nil t)
  batches-op (suc f) (k ∷ ks) t h =
      batches-op f (drop safe_rows (k ∷ ks)) (op (take safe_rows (k ∷ ks)) t)
        (omega (arith, length-drop safe_rows (k ∷ ks)))
      ∙ op-append (take safe_rows (k ∷ ks)) (drop safe_rows (k ∷ ks)) t
      ∙ ap (λ ks. op ks t) (take-append-drop safe_rows (k ∷ ks))

map-retire-nil : (by : Option String) (t : List PackCatalogRow) → map (retire [] by) t ≡ t
unfolding retire has_key
map-retire-nil by [] = refl
map-retire-nil by (r ∷ t) = ap (◌∷◌ r) (map-retire-nil by t)

retire-append :
    (xs ys : List String) (by : Option String) (r : PackCatalogRow)
    → retire ys by (retire xs by r) ≡ retire (xs ++ ys) by r
unfolding retire
retire-append xs ys by r = ground (arith, has_key-append xs ys r.pack_key)

map-retire-append :
    (by : Option String) (xs ys : List String) (t : List PackCatalogRow)
    → map (retire ys by) (map (retire xs by) t) ≡ map (retire (xs ++ ys) by) t
map-retire-append by xs ys [] = refl
map-retire-append by xs ys (r ∷ t) =
    rw (retire-append xs ys by r) (ap (◌∷◌ (retire (xs ++ ys) by r)) (map-retire-append by xs ys t))

-- Superseding rows in batches of 80 keys marks exactly the rows whose key is among the keys.
pub supersede-map :
    (keys : List String) (by : Option String) (t : List PackCatalogRow)
    → supersede_pack_catalog_rows keys by t ≡ map (retire keys by) t
unfolding supersede_pack_catalog_rows
supersede-map keys by t =
    batches-op (λ ks. map (retire ks by)) (map-retire-nil by) (map-retire-append by) (length keys)
      keys t (omega arith)

abbrev pub without : List String → List PackCatalogRow → List PackCatalogRow
without ks = keep (λ row. if has_key ks row.pack_key then false else true)

without-nil : (t : List PackCatalogRow) → without [] t ≡ t
unfolding has_key
without-nil [] = refl
without-nil (r ∷ t) = ap (◌∷◌ r) (without-nil t)

without-append :
    (xs ys : List String) (t : List PackCatalogRow)
    → without ys (without xs t) ≡ without (xs ++ ys) t
without-append xs ys [] = refl
without-append xs ys (r ∷ t) =
    ground (arith, has_key-append xs ys r.pack_key, without-append xs ys t)

-- Deleting rows in batches of 80 keys keeps exactly the rows whose key is not among the keys.
pub delete-without :
    (keys : List String) (t : List PackCatalogRow)
    → delete_pack_catalog_rows keys t ≡ without keys t
unfolding delete_pack_catalog_rows
delete-without keys t =
    batches-op without without-nil without-append (length keys) keys t (omega arith)
