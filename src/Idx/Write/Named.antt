-- ===== src/Idx/Write/Named.antt =====
-- The index of a pack, written and read: each entry is found by its name.
use gitedge.Shared.{
  ℕ, zero, suc, ◌+◌, ◌-◌, ◌*◌, ◌≤◌, ◌<◌, ◌≡◌, refl, sym, ap, ◌∙◌, String, List, [], ◌∷◌, ◌++◌,
  Option, none, some, ltb, leb, ◌==◌, if◌then◌else◌, length, get_or, take, drop, take-length,
  length-keep-le, All, Bool-cases, inl, inr, arith,
}
use mathlib.Core.Path.{subst}
use gitedge.Shared.Positions.{All-get, get_or-map}
use gitedge.Idx.{
  IdxView, less, parsed, compare_bytes, find_oid_index_from_bytes, max_safe_integer, view_of,
  parse_idx_view,
}
use gitedge.Idx.Names.{name_at, HasNameTable, FindsName, find_oid-FindsName}
use gitedge.Idx.Write.{
  PackEntry, no_entry, entry_at, first_byte, compare_oids, name_bytes,
  build_oid_sorted_entry_indices, sorted_entries, idx_body, write_idx_v2,
}
use gitedge.Idx.Write.Fanout.{
  count-below_suc, fanout, fanout-get, length-fanout, count-le_of_tail, lt-count_of_head,
}
use gitedge.Idx.Write.Layout.{IsEntry, length-name_bytes, whole, body-whole, offsets_of}
use gitedge.Idx.Write.Parsed.{buffer-names, buffer-parsed}
use gitedge.Idx.Write.Order.{
  IsDistinct, compare-first, index_in, indices-ascend, index-occurs, length-sorted_entries,
  sorted-entry, sorted_entries-All,
}

-- A name in the table of names.
name-get :
    (es : List PackEntry) (i : ℕ)
    → All IsEntry es
    → i < length es
    → take 20 (drop (i * 20) (name_bytes es)) ≡ (entry_at es i).oid
unfolding name_bytes
name-get [] i h l = absurd (omega arith)
name-get (e ∷ es) zero ((p, _, _, _), h) l =
    ap (λ n. take 20 (drop n (e.oid ++ name_bytes es))) {x = 0 * 20} {y = 0} (omega arith)
    ∙ ap (λ n. take n (e.oid ++ name_bytes es)) (sym p)
    ∙ take-length e.oid (name_bytes es)
name-get (e ∷ es) (suc i) ((p, _, _, _), h) l =
    let at : suc i * 20 ≡ length e.oid + i * 20 = omega (arith, p) in
    ap (λ n. take 20 (drop n (e.oid ++ name_bytes es))) at
    ∙ ap (take 20) (drop-add e.oid (name_bytes es) (i * 20))
    ∙ name-get es i h (omega arith)
  where
    drop-add : (xs ys : List ℕ) (n : ℕ) → drop (length xs + n) (xs ++ ys) ≡ drop n ys
    drop-add [] ys n = ap (λ k. drop k ys) {x = 0 + n} {y = n} (omega arith)
    drop-add (x ∷ xs) ys n =
        let out : suc (length xs) + n ≡ suc (length xs + n) = omega arith in
        ap (λ k. drop k (x ∷ (xs ++ ys))) out ∙ drop-add xs ys n

get_or-beyond : (xs : List ℕ) (i : ℕ) → length xs ≤ i → get_or xs i 0 ≡ 0
get_or-beyond [] i h = refl
get_or-beyond (x ∷ xs) zero h = absurd (omega arith)
get_or-beyond (x ∷ xs) (suc i) h = get_or-beyond xs i (omega arith)

-- What the search gives for the name of entry `a` of the table.
abbrev FindsEntry : List PackEntry → ℕ → Option ℕ → Type 0
FindsEntry table a none = ⊥
FindsEntry table a (some i) =
    (i < length table)
    × (get_or (offsets_of (sorted_entries table)) i 0 ≡ (entry_at table a).offset)

module _ (table : List PackEntry) (entries : All IsEntry table) (distinct : IsDistinct table)
    (few : length table < 2147483648) (checksum hash : List ℕ)
    (checksum_long : length checksum ≡ 20) (hash_long : length hash ≡ 20) (pack_key : String)
    (pack_size : ℕ) where
  abbrev es : List PackEntry
  es = sorted_entries table

  sorted_few : length es < 2147483648
  sorted_few = omega (arith, length-sorted_entries table entries)

  abbrev buffer : List ℕ
  buffer = whole es checksum hash

  abbrev view : IdxView
  view = view_of pack_key buffer pack_size (fanout es) (length es) (offsets_of es)

  view-names :
      (raw : List ℕ)
      → raw ≡ name_bytes es
      → (i : ℕ) → i < length es
      → take 20 (drop (i * 20) raw) ≡ (entry_at es i).oid
  view-names raw e i h =
      ap (λ n. take 20 (drop (i * 20) n)) e ∙ name-get es i (sorted_entries-All table entries) h

  raw-lem : view.raw_names ≡ name_bytes es
  unfolding view_of
  raw-lem =
      buffer-names es checksum hash (sorted_entries-All table entries) sorted_few checksum_long
        hash_long

  name-lem : (i : ℕ) → i < length es → name_at view i ≡ (entry_at es i).oid
  name-lem i h = view-names view.raw_names raw-lem i h

  oid_long : (i : ℕ) → i < length es → length (entry_at es i).oid ≡ 20
  oid_long i h = (All-get IsEntry es i no_entry (sorted_entries-All table entries) h).0

  first_small : (i : ℕ) → i < length es → first_byte (entry_at es i) < 256
  first_small i h = (All-get IsEntry es i no_entry (sorted_entries-All table entries) h).1

  names-ascend :
      (i j : ℕ)
      → i < j
      → j < length es
      → compare_bytes (entry_at es i).oid (entry_at es j).oid ≡ less
  unfolding compare_oids
  names-ascend i j h l =
      let many = length-sorted_entries table entries in
      rw
        (
          sorted-entry table entries i (omega (arith, many)),
          sorted-entry table entries j (omega (arith, many)),
        )
        (indices-ascend table entries distinct i j h (omega (arith, many)))

  firsts-ascend :
      (i j : ℕ) → i ≤ j → j < length es → first_byte (entry_at es i) ≤ first_byte (entry_at es j)
  firsts-ascend i j h l = elim (Bool-cases (ltb i j)) [
    | inl y ↦
        compare-first (entry_at es i).oid (entry_at es j).oid
          (omega (arith, oid_long i (omega arith))) (omega (arith, oid_long j l))
          (names-ascend i j (ground arith) l)
    | inr n ↦ let e : i ≡ j = ground arith in rw e (omega arith)
  ]

  fanout-le : (b : ℕ) → get_or (fanout es) b 0 ≤ length es
  fanout-le b = elim (Bool-cases (ltb b 256)) [
    | inl y ↦
        omega (arith, fanout-get es b (ground arith), length-keep-le (λ e. leb (first_byte e) b) es)
    | inr n ↦ omega (arith, get_or-beyond (fanout es) b (ground (arith, length-fanout es)))
  ]

  -- The names with the first byte of entry `i` begin at or before it, and end behind it.
  start-le :
      (i b : ℕ)
      → i < length es
      → first_byte (entry_at es i) ≡ b
      → (if b == 0 then 0 else get_or (fanout es) (b - 1) 0) ≤ i
  start-le i zero h e = omega arith
  start-le i (suc b) h e =
      let small = first_small i h in
      let down : suc b - 1 ≡ b = omega arith in
      let read = fanout-get es b (omega arith) in
      let below =
        count-le_of_tail (λ x. ltb (first_byte x) (suc b)) es i
          (λ j l u. ground (arith, firsts-ascend i j l u, e)) in
      rw (down, read) (ground (arith, below, count-below_suc es b))

  lt-end : (i b : ℕ) → i < length es → first_byte (entry_at es i) ≡ b → i < get_or (fanout es) b 0
  lt-end i b h e =
      let small = first_small i h in
      let read = fanout-get es b (omega arith) in
      let head =
        lt-count_of_head (λ x. leb (first_byte x) b) es i h
          (λ j l. ground (arith, firsts-ascend j i l h, e)) in
      omega (arith, read, head)

  view-HasNameTable : HasNameTable view
  unfolding view_of
  view-HasNameTable = record {
    full = ap length raw-lem ∙ length-name_bytes es (sorted_entries-All table entries);
    ascending = λ i j h l. rw (name-lem i (omega arith), name-lem j l) (names-ascend i j h l);
    buckets = λ i h. rw (name-lem i h) (
      start-le i (first_byte (entry_at es i)) h refl,
      lt-end i (first_byte (entry_at es i)) h refl,
    );
    bounded = fanout-le;
  }

  finds_entry :
      (a : ℕ) (r : Option ℕ)
      → a < length table
      → FindsName view (entry_at table a).oid r
      → FindsEntry table a r
  unfolding view_of
  finds_entry a none h f =
      let many = length-sorted_entries table entries in
      let (m, l, e) = index-occurs table entries a h in
      let here : m < length es = omega (arith, many) in
      f m here
        (name-lem m here ∙ ap (λ x. x.oid) (sorted-entry table entries m l ∙ ap (entry_at table) e))
  finds_entry a (some i) h (l, e) =
      let many = length-sorted_entries table entries in
      let inside : i < length table = omega (arith, many) in
      let entry = sorted-entry table entries i inside in
      let same : get_or (build_oid_sorted_entry_indices table) i 0 ≡ a =
        distinct (get_or (build_oid_sorted_entry_indices table) i 0) a
          (index_in table entries i inside) h
          (ap (λ (x : PackEntry). x.oid) (sym entry) ∙ sym (name-lem i l) ∙ e) in
      (
        inside,
        get_or-map (λ (x : PackEntry). x.offset) es i 0 no_entry l
            ∙ ap (λ (x : PackEntry). x.offset) (entry ∙ ap (entry_at table) same),
      )

  take-long : (xs : List ℕ) (n : ℕ) → length xs ≡ n → take n xs ≡ xs
  take-long [] zero h = refl
  take-long [] (suc n) h = refl
  take-long (x ∷ xs) zero h = absurd (omega arith)
  take-long (x ∷ xs) (suc n) h = ap (◌∷◌ x) (take-long xs n (omega arith))

  view-FindsEntry :
      (a : ℕ)
      → a < length table
      → FindsEntry table a (find_oid_index_from_bytes view (entry_at table a).oid 0)
  view-FindsEntry a h =
      let (long, _, _, _) = All-get IsEntry table a no_entry entries h in
      finds_entry a (find_oid_index_from_bytes view (entry_at table a).oid 0) h (
        subst (λ n. FindsName view n (find_oid_index_from_bytes view (entry_at table a).oid 0))
          (take-long (entry_at table a).oid 20 long)
          (find_oid-FindsName view (entry_at table a).oid 0 view-HasNameTable
            (omega (arith, long))))

found :
    (table : List PackEntry) (a : ℕ) (r : Option ℕ) (count : ℕ)
    → count ≡ length table
    → FindsEntry table a r
    → (i : ℕ) × (r ≡ some i)
      × (i < count)
      × (get_or (offsets_of (sorted_entries table)) i 0 ≡ (entry_at table a).offset)
found table a none count e f = absurd f
found table a (some i) count e (l, o) = (i, refl, omega (arith, e), o)

-- If a pack has fewer than 2^31 entries with full and different names and offsets and checksums of
-- 32 bits, its own checksum and each digest have twenty bytes, and its size is one that the parser
-- accepts, then the index that is written for it is read back, with as many entries, and in it the
-- search for the name of each entry of the pack gives an entry with that entry's offset, whether the
-- offset is a large one or not.
pub write-FindsEntry :
    (sha1 : List ℕ → List ℕ) (table : List PackEntry) (checksum : List ℕ) (pack_key : String)
    (pack_size : ℕ)
    → ((bytes : List ℕ) → length (sha1 bytes) ≡ 20)
    → length checksum ≡ 20
    → All IsEntry table
    → IsDistinct table
    → length table < 2147483648
    → 20 ≤ pack_size
    → pack_size ≤ max_safe_integer
    → (view : IdxView) × (parse_idx_view pack_key (write_idx_v2 sha1 table checksum) pack_size
        ≡ parsed view)
      × (view.count ≡ length table)
      × ((a : ℕ)
          → a < length table
          → (i : ℕ) × (find_oid_index_from_bytes view (entry_at table a).oid 0 ≡ some i)
            × (i < view.count)
            × (get_or view.offsets i 0 ≡ (entry_at table a).offset))
write-FindsEntry sha1 table checksum pack_key pack_size digest long entries distinct few lo hi =
    let es = sorted_entries table in
    let hash = sha1 (idx_body es checksum) in
    let many = length-sorted_entries table entries in
    let small : length es < 2147483648 = omega (arith, many) in
    let view =
      view_of pack_key (whole es checksum hash) pack_size (fanout es) (length es) (offsets_of es) in
    (
      view,
      unfold write_idx_v2 in
          (ap (λ b. parse_idx_view pack_key b pack_size) (body-whole es checksum hash)
            ∙ buffer-parsed es checksum hash (sorted_entries-All table entries) small long
                (digest (idx_body es checksum)) pack_key pack_size lo hi),
      unfold view_of in many,
      λ a h.
          unfold view_of in
          found table a (find_oid_index_from_bytes view (entry_at table a).oid 0) (length es) many (
            view-FindsEntry table entries distinct few checksum hash long
              (digest (idx_body es checksum)) pack_key pack_size a h),
    )
