-- ===== src/Idx/Cache/Accounts.antt =====
-- The bytes of the cache stay accounted for and bounded.
use gitedge.Shared.{
  ℕ, ◌+◌, ◌-◌, ◌≤◌, ◌<◌, ◌≡◌, ◌⊎◌, refl, String, true, false, List, [], ◌∷◌, ◌++◌, none, some, ltb,
  ltb→lt, Bool-cases, inl, inr, arith,
}
use gitedge.Shared.Text.{str_eq_iff}
use gitedge.Idx.{IdxView}
use gitedge.Idx.Cache.{
  CachedIdxView, IdxViewCache, idx_view_cache_max_bytes, has_cache_key, get_cached,
  estimate_idx_view_bytes, bytes_of, delete_cached, evict, touch_idx_view_cache,
}

abbrev pub sum_bytes : List CachedIdxView → ℕ
sum_bytes [] = 0
sum_bytes (e ∷ es) = e.bytes + sum_bytes es

-- No two entries have one key.
abbrev pub HasUniqueKeys : List CachedIdxView → Type 0
HasUniqueKeys [] = Unit
HasUniqueKeys (e ∷ es) = (get_cached e.pack_key e.pack_size es ≡ none) × HasUniqueKeys es

pub record IsAccounted (cache : IdxViewCache) : Type 0 where
  pub unique : HasUniqueKeys cache.entries
  pub total : cache.cache_bytes ≡ sum_bytes cache.entries
  pub bounded : cache.cache_bytes ≤ idx_view_cache_max_bytes

sum-append : (xs ys : List CachedIdxView) → sum_bytes (xs ++ ys) ≡ sum_bytes xs + sum_bytes ys
sum-append [] ys = omega arith
sum-append (x ∷ xs) ys = omega (arith, sum-append xs ys)

get-delete :
    (k : String) (n : ℕ) (k' : String) (n' : ℕ) (es : List CachedIdxView)
    → get_cached k n es ≡ none
    → get_cached k n (delete_cached k' n' es) ≡ none
unfolding get_cached delete_cached
get-delete k n k' n' [] h = refl
get-delete k n k' n' (e ∷ es) h = ground (arith, get-delete k n k' n' es)

delete-HasUniqueKeys :
    (k : String) (n : ℕ) (es : List CachedIdxView)
    → HasUniqueKeys es
    → HasUniqueKeys (delete_cached k n es)
unfolding delete_cached
delete-HasUniqueKeys k n [] h = tt
delete-HasUniqueKeys k n (e ∷ es) h =
    ground (arith, delete-HasUniqueKeys k n es, get-delete e.pack_key e.pack_size k n es)

get-deleted :
    (k : String) (n : ℕ) (es : List CachedIdxView) → get_cached k n (delete_cached k n es) ≡ none
unfolding get_cached delete_cached
get-deleted k n [] = refl
get-deleted k n (e ∷ es) = ground (arith, get-deleted k n es)

-- A key that is not there is not deleted.
delete-absent :
    (k : String) (n : ℕ) (es : List CachedIdxView)
    → get_cached k n es ≡ none
    → delete_cached k n es ≡ es
unfolding get_cached delete_cached
delete-absent k n [] h = refl
delete-absent k n (e ∷ es) h = ground (arith, delete-absent k n es)

same-key :
    (k : String) (n : ℕ) (e : CachedIdxView)
    → has_cache_key k n e ≡ true
    → (e.pack_key ≡ k) × (e.pack_size ≡ n)
same-key k n e h = ground (arith, str_eq_iff e.pack_key k)

-- A deletion takes away the bytes of the entry.
sum-delete :
    (k : String) (n : ℕ) (es : List CachedIdxView)
    → HasUniqueKeys es
    → sum_bytes (delete_cached k n es) + bytes_of (get_cached k n es) ≡ sum_bytes es
unfolding get_cached delete_cached
sum-delete k n [] h = omega arith
sum-delete k n (e ∷ es) (h, hs) = elim (Bool-cases (has_cache_key k n e)) [
  | inl y ↦
      let (a, b) = same-key k n e y in
      let none_left : get_cached k n es ≡ none = rw (a, b) at h in
      ground (arith, delete-absent k n es none_left)
  | inr m ↦ ground (arith, sum-delete k n es hs)
]

evict-IsAccounted :
    (total : ℕ) (es : List CachedIdxView)
    → HasUniqueKeys es
    → total ≡ sum_bytes es
    → IsAccounted (evict total es)
unfolding evict
evict-IsAccounted total [] h e = record { unique = tt; total = e; bounded = omega arith }
evict-IsAccounted total (x ∷ es) (h, hs) e =
    elim (Bool-cases (ltb idx_view_cache_max_bytes total)) [
      | inl y ↦ rw y (evict-IsAccounted (total - x.bytes) es hs (omega arith))
      | inr n ↦ rw n (record { unique = (h, hs); total = e; bounded = ground arith })
    ]

get-last :
    (e : CachedIdxView) (xs : List CachedIdxView)
    → get_cached e.pack_key e.pack_size xs ≡ none
    → get_cached e.pack_key e.pack_size (xs ++ (e ∷ [])) ≡ some e
unfolding get_cached
get-last e [] h = ground (arith, str_eq_iff e.pack_key e.pack_key)
get-last e (x ∷ xs) h = ground (arith, get-last e xs)

-- What was set last is dropped only if it is too large by itself.
evict-keeps :
    (total : ℕ) (e : CachedIdxView) (xs : List CachedIdxView)
    → get_cached e.pack_key e.pack_size xs ≡ none
    → e.bytes ≤ idx_view_cache_max_bytes
    → total ≡ sum_bytes (xs ++ (e ∷ []))
    → get_cached e.pack_key e.pack_size (evict total (xs ++ (e ∷ []))).entries ≡ some e
unfolding evict
evict-keeps total e [] h small sum =
    let stays : ltb idx_view_cache_max_bytes total ≡ false = ground arith in
    rw stays (get-last e [] h)
evict-keeps total e (x ∷ xs) h small sum =
    let others : get_cached e.pack_key e.pack_size xs ≡ none = unfold get_cached in ground arith in
    elim (Bool-cases (ltb idx_view_cache_max_bytes total)) [
      | inl y ↦ rw y (evict-keeps (total - x.bytes) e xs others small (omega arith))
      | inr n ↦ rw n (get-last e (x ∷ xs) h)
    ]

get-append :
    (k : String) (n : ℕ) (e : CachedIdxView) (xs : List CachedIdxView)
    → get_cached k n xs ≡ none
    → has_cache_key k n e ≡ false
    → get_cached k n (xs ++ (e ∷ [])) ≡ none
unfolding get_cached
get-append k n e [] h m = ground arith
get-append k n e (x ∷ xs) h m = ground (arith, get-append k n e xs)

get-differs :
    (e x : CachedIdxView) (xs : List CachedIdxView)
    → get_cached e.pack_key e.pack_size (x ∷ xs) ≡ none
    → (has_cache_key x.pack_key x.pack_size e ≡ false)
      × (get_cached e.pack_key e.pack_size xs ≡ none)
unfolding get_cached
get-differs e x xs h =
    ground (arith, str_eq_iff x.pack_key e.pack_key, str_eq_iff e.pack_key x.pack_key)

append-HasUniqueKeys :
    (e : CachedIdxView) (xs : List CachedIdxView)
    → HasUniqueKeys xs
    → get_cached e.pack_key e.pack_size xs ≡ none
    → HasUniqueKeys (xs ++ (e ∷ []))
append-HasUniqueKeys e [] h k = (unfold get_cached in refl, tt)
append-HasUniqueKeys e (x ∷ xs) (h, hs) k =
    let (differs, rest) = get-differs e x xs k in
    (get-append x.pack_key x.pack_size e xs h differs, append-HasUniqueKeys e xs hs rest)

-- In a cache whose bytes are the sum of its entries' bytes and within the bound, and whose keys are
-- distinct, the bytes stay so after a view is touched, and the view is then found under its key,
-- unless it is larger than the whole bound.
pub touch-IsAccounted :
    (pack_key : String) (pack_size : ℕ) (value : IdxView) (cache : IdxViewCache)
    → IsAccounted cache
    → let touched = touch_idx_view_cache pack_key pack_size value cache in
      let bytes = estimate_idx_view_bytes value in
      IsAccounted touched
      × ((idx_view_cache_max_bytes < bytes)
          ⊎ (get_cached pack_key pack_size touched.entries
              ≡ some (record {
                pack_key = pack_key;
                pack_size = pack_size;
                view = value;
                bytes = bytes;
              })))
unfolding touch_idx_view_cache
touch-IsAccounted pack_key pack_size value cache h =
    let bytes = estimate_idx_view_bytes value in
    let left = delete_cached pack_key pack_size cache.entries in
    let entry : CachedIdxView = record {
      pack_key = pack_key;
      pack_size = pack_size;
      view = value;
      bytes = bytes;
    } in
    let gone = get-deleted pack_key pack_size cache.entries in
    let unique = delete-HasUniqueKeys pack_key pack_size cache.entries h.unique in
    let taken = sum-delete pack_key pack_size cache.entries h.unique in
    let total = cache.cache_bytes - bytes_of (get_cached pack_key pack_size cache.entries) in
    let sum : total ≡ sum_bytes left = omega (arith, h.total, taken) in
    elim (Bool-cases (ltb idx_view_cache_max_bytes bytes)) [
      | inl y ↦ rw y (
        record { unique = unique; total = sum; bounded = omega (arith, h.bounded) },
        inl (ltb→lt _ _ y),
      )
      | inr n ↦
          let whole : total + bytes ≡ sum_bytes (left ++ (entry ∷ [])) =
            omega (arith, sum-append left (entry ∷ []), sum) in
          rw n (
            evict-IsAccounted (total + bytes) (left ++ (entry ∷ []))
                (append-HasUniqueKeys entry left unique gone) whole,
            inr (evict-keeps (total + bytes) entry left gone (ground arith) whole),
          )
    ]
