-- ===== src/Closure/Rounds.antt =====
-- What a round of the search does, name by name.
use gitedge.Shared.{
  ℕ, ◌≡◌, refl, sym, ap, ◌∙◌, Bool, true, List, [], ◌∷◌, ◌++◌, Option, none, some, ◌||◌, ◌&&◌, not,
  if◌then◌else◌, is_some, take, drop, take-append-drop, keep, Bool-cases, Option-cases, inl, inr,
  arith,
}
use mathlib.Core.Path.{subst}
use mathlib.Core.Option.{some-injective, none-ne-some}
use gitedge.Shared.Text.{codes_eq, codes_eq_iff}
use gitedge.Closure.{
  Oid, lower, has, add, Refs, lookup, insert, Marked, mark, mark_all, memo_hits, batch_refs,
  new_refs,
}

pub has-append : (x : Oid) (xs ys : List Oid) → has x (xs ++ ys) ≡ (has x xs || has x ys)
unfolding has
has-append x [] ys = refl
has-append x (y ∷ xs) ys = ground (arith, has-append x xs ys)

pub has-keep : (x : Oid) (p : Oid → Bool) (xs : List Oid) → has x (keep p xs) ≡ (has x xs && p x)
unfolding has
has-keep x p [] = refl
has-keep x p (y ∷ xs) = elim (Bool-cases (codes_eq x y)) [
  | inl e ↦
      let same : x ≡ y = (codes_eq_iff x y).0 e in
      rw e (ground (arith, has-keep x p xs, e, ap p same))
  | inr n ↦ rw n (ground (arith, has-keep x p xs, n))
]

pub has-add : (x y : Oid) (s : List Oid) → has x (add y s) ≡ (codes_eq x y || has x s)
unfolding add has
has-add x y s = ground (arith, codes_eq_iff x y, ap (λ z. has z s) {x = x} {y = y})

pub has-take-drop :
    (x : Oid) (n : ℕ) (xs : List Oid) → has x xs ≡ (has x (take n xs) || has x (drop n xs))
has-take-drop x n xs =
    ap (has x) (sym (take-append-drop n xs)) ∙ has-append x (take n xs) (drop n xs)

module _ (stop : List Oid) where
  mark_lem :
      (x oid : Oid) (m : Marked)
      → (has x (mark stop oid m).seen ≡ (codes_eq x oid || has x m.seen))
        × (has x (mark stop oid m).needed
            ≡ ((codes_eq x oid && not (has (lower x) stop)) || has x m.needed))
        × (has x (mark stop oid m).to_process
            ≡ (has x m.to_process || (codes_eq x oid && not (has (lower x) stop))))
  unfolding mark
  mark_lem x oid m =
      let same =
        λ (e : codes_eq x oid ≡ true). ap (λ z. has (lower z) stop) ((codes_eq_iff x oid).0 e) in
      let tail : has x (m.to_process ++ (oid ∷ [])) ≡ (has x m.to_process || codes_eq x oid) =
        has-append x m.to_process (oid ∷ []) ∙ unfold has in ground arith in
      elim (Bool-cases (has (lower oid) stop)) [
        | inl y ↦ rw y (has-add x oid m.seen, ground (arith, y, same), ground (arith, y, same))
        | inr n ↦ rw n (
          has-add x oid m.seen,
          has-add x oid m.needed ∙ ground (arith, n, same),
          tail ∙ ground (arith, n, same),
        )
      ]

  -- The names that are marked.
  pub mark_all-has :
      (x : Oid) (oids : List Oid) (m : Marked)
      → (has x (mark_all stop oids m).seen ≡ (has x oids || has x m.seen))
        × (has x (mark_all stop oids m).needed
            ≡ ((has x oids && not (has (lower x) stop)) || has x m.needed))
        × (has x (mark_all stop oids m).to_process
            ≡ (has x m.to_process || (has x oids && not (has (lower x) stop))))
  unfolding mark_all has
  mark_all-has x [] m = ground arith
  mark_all-has x (o ∷ oids) m =
      let (a, b, c) = mark_all-has x oids (mark stop o m) in
      let (d, e, f) = mark_lem x o m in (ground arith, ground arith, ground arith)

pub lookup-insert :
    (x o : Oid) (refs : List Oid) (m : Refs)
    → lookup x (insert o refs m) ≡ (if codes_eq x o then some refs else lookup x m)
unfolding lookup insert
lookup-insert x o refs [] = refl
lookup-insert x o refs ((k, old) ∷ m) =
    ground (arith, codes_eq_iff x o, codes_eq_iff o k, codes_eq_iff x k, lookup-insert x o refs m)

-- `refsMap` holds what the memo knows, then what the batch knows.
pub lookup-memo_hits :
    (x : Oid) (memo : Refs) (oids : List Oid) (m : Refs)
    → lookup x (memo_hits (some memo) oids m) ≡ (
        if has x oids && is_some (lookup (lower x) memo) then lookup (lower x) memo else lookup x m)
unfolding memo_hits has
lookup-memo_hits x memo [] m = refl
lookup-memo_hits x memo (o ∷ oids) m = elim (Option-cases (lookup (lower o) memo)) [
  | inl n ↦
      let same =
        λ (e : codes_eq x o ≡ true). ap (λ z. lookup (lower z) memo) ((codes_eq_iff x o).0 e) in
      rw (n, memo_hits) (lookup-memo_hits x memo oids m ∙ ground (arith, n, same))
  | inr (refs, s) ↦
      let same =
        λ (e : codes_eq x o ≡ true). ap (λ z. lookup (lower z) memo) ((codes_eq_iff x o).0 e) in
      rw (s, memo_hits)
        (lookup-memo_hits x memo oids (insert o refs m)
          ∙ ground (arith, s, same, lookup-insert x o refs m))
]

pub lookup-batch_refs :
    (x : Oid) (batch : Refs) (oids : List Oid) (m : Refs)
    → lookup x (batch_refs batch oids m)
      ≡ (if has x oids && is_some (lookup x batch) then lookup x batch else lookup x m)
unfolding batch_refs has
lookup-batch_refs x batch [] m = refl
lookup-batch_refs x batch (o ∷ oids) m =
    let same = λ (e : codes_eq x o ≡ true). ap (λ z. lookup z batch) ((codes_eq_iff x o).0 e) in
    elim (Option-cases (lookup o batch)) [
      | inl n ↦ rw (n, batch_refs) (lookup-batch_refs x batch oids m ∙ ground (arith, n, same))
      | inr (refs, s) ↦
          rw (s, batch_refs)
            (lookup-batch_refs x batch oids (insert o refs m)
              ∙ ground (arith, s, same, lookup-insert x o refs m))
    ]

-- A property of all entries of a map.
abbrev pub Entries {κ} : (Oid → List Oid → Type κ) → Refs → Type κ
Entries P [] = Unit
Entries P ((o, refs) ∷ m) = P o refs × Entries P m

module _ {κ} (P : Oid → List Oid → Type κ) where
  pub insert-Entries :
      (o : Oid) (refs : List Oid) (m : Refs) → P o refs → Entries P m → Entries P (insert o refs m)
  unfolding insert
  insert-Entries o refs [] p h = (p, tt)
  insert-Entries o refs ((k, old) ∷ m) p (q, h) = elim (Bool-cases (codes_eq o k)) [
    | inl e ↦ rw e (subst (λ z. P z refs) ((codes_eq_iff o k).0 e) p, h)
    | inr n ↦ rw n (q, insert-Entries o refs m p h)
  ]

  pub memo_hits-Entries :
      (memo : Option Refs) (oids : List Oid) (m : Refs)
      → ((o : Oid) (known refs : _)
          → memo ≡ some known
          → has o oids ≡ true
          → lookup (lower o) known ≡ some refs
          → P o refs)
      → Entries P m
      → Entries P (memo_hits memo oids m)
  unfolding memo_hits has
  memo_hits-Entries none oids m p h = h
  memo_hits-Entries (some memo) [] m p h = h
  memo_hits-Entries (some memo) (o ∷ oids) m p h = elim (Option-cases (lookup (lower o) memo)) [
    | inl n ↦
        rw (n, memo_hits)
          (memo_hits-Entries (some memo) oids m (λ x k r e i l. p x k r e (ground (arith, i)) l) h)
    | inr (refs, s) ↦
        rw (s, memo_hits)
          (memo_hits-Entries (some memo) oids (insert o refs m)
            (λ x k r e i l. p x k r e (ground (arith, i)) l)
            (insert-Entries o refs m
              (p o memo refs refl (ground (arith, (codes_eq_iff o o).1 refl)) s) h))
  ]

  pub batch_refs-Entries :
      (batch : Refs) (oids : List Oid) (m : Refs)
      → ((o : Oid) (refs : List Oid) → has o oids ≡ true → lookup o batch ≡ some refs → P o refs)
      → Entries P m
      → Entries P (batch_refs batch oids m)
  unfolding batch_refs has
  batch_refs-Entries batch [] m p h = h
  batch_refs-Entries batch (o ∷ oids) m p h = elim (Option-cases (lookup o batch)) [
    | inl n ↦
        rw (n, batch_refs)
          (batch_refs-Entries batch oids m (λ x r i l. p x r (ground (arith, i)) l) h)
    | inr (refs, s) ↦
        rw (s, batch_refs)
          (batch_refs-Entries batch oids (insert o refs m) (λ x r i l. p x r (ground (arith, i)) l)
            (insert-Entries o refs m (p o refs (ground (arith, (codes_eq_iff o o).1 refl)) s) h))
  ]

-- What is put on the queue comes from an entry.
pub new_refs-from :
    (P : Oid → List Oid → Type 0) (seen : List Oid) (m : Refs) (r : Oid)
    → Entries P m
    → has r (new_refs seen m) ≡ true
    → (o : Oid) × (refs : List Oid) × P o refs × (has r refs ≡ true)
unfolding new_refs has
new_refs-from P seen [] r h e = absurd (ground arith)
new_refs-from P seen ((o, refs) ∷ m) r (p, h) e =
    elim (Bool-cases (has r (keep (λ x. not (has x seen)) refs))) [
      | inl y ↦ (o, refs, p, ground (arith, y, has-keep r (λ x. not (has x seen)) refs))
      | inr n ↦
          new_refs-from P seen m r h
            (ground (arith, n, has-append r (keep (λ x. not (has x seen)) refs) (new_refs seen m)))
    ]

-- What an entry refers to has been seen, or is put on the queue.
pub new_refs-all :
    (seen : List Oid) (m : Refs) (o r : Oid) (refs : List Oid)
    → lookup o m ≡ some refs
    → has r refs ≡ true
    → (has r seen || has r (new_refs seen m)) ≡ true
unfolding new_refs lookup
new_refs-all seen [] o r refs e h = absurd (none-ne-some refs e)
new_refs-all seen ((k, old) ∷ m) o r refs e h =
    let parts = has-append r (keep (λ x. not (has x seen)) old) (new_refs seen m) in
    let kept = has-keep r (λ x. not (has x seen)) old in
    elim (Bool-cases (codes_eq o k)) [
      | inl y ↦
          let same : old ≡ refs = some-injective old refs (rw y at e) in
          ground (arith, parts, kept, ap (has r) same)
      | inr n ↦ ground (arith, parts, new_refs-all seen m o r refs (rw n at e) h)
    ]
