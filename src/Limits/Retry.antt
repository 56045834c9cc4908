-- ===== src/Limits/Retry.antt =====
-- The time that a refused caller is told to wait.
use gitedge.Shared.{
  ℕ, suc, ◌+◌, ◌*◌, ◌≤◌, ◌<◌, ◌≡◌, refl, leb→le, String, false, List, [], ◌∷◌, none, some, ltb, leb,
  or_else, Bool-cases, Option-cases, inl, inr, arith,
}
use mathlib.Core.Bool.{true≢false}
use gitedge.Limits.{
  HitRow, Limit, floor, safe_limit, window_ms, delete_old, count_hits, oldest_hit, retry_after_of,
  consume,
}
use gitedge.Limits.Window.{consume_cases}

count_hits-delete_old :
    (key : String) (now t : ℕ) (rows : List HitRow)
    → now ≤ t
    → count_hits key t (delete_old now rows) ≡ count_hits key t rows
unfolding count_hits delete_old
count_hits-delete_old key now t [] h = refl
count_hits-delete_old key now t (row ∷ rows) h =
    ground (arith, count_hits-delete_old key now t rows h)

count_hits-later :
    (key : String) (now t : ℕ) (rows : List HitRow)
    → now ≤ t
    → count_hits key t rows ≤ count_hits key now rows
unfolding count_hits
count_hits-later key now t [] h = omega arith
count_hits-later key now t (row ∷ rows) h = ground (arith, count_hits-later key now t rows h)

-- As long as the oldest hit is recent, so are all the others.
count_hits-kept :
    (key : String) (now t b : ℕ) (rows : List HitRow)
    → now ≤ t
    → t < b + window_ms
    → b ≤ or_else (oldest_hit key now rows) b
    → count_hits key t rows ≡ count_hits key now rows
unfolding count_hits oldest_hit
count_hits-kept key now t b [] h k m = refl
count_hits-kept key now t b (row ∷ rows) h k m = elim (Option-cases (oldest_hit key now rows)) [
  | inl e ↦ ground (arith, count_hits-kept key now t b rows)
  | inr (o, e) ↦ ground (arith, count_hits-kept key now t b rows)
]

-- Once the oldest hit is not recent any more, there is one hit less.
count_hits-dropped :
    (key : String) (now t o : ℕ) (rows : List HitRow)
    → now ≤ t
    → o + window_ms ≤ t
    → oldest_hit key now rows ≡ some o
    → suc (count_hits key t rows) ≤ count_hits key now rows
unfolding count_hits oldest_hit
count_hits-dropped key now t o [] h k e = absurd (ground arith)
count_hits-dropped key now t o (row ∷ rows) h k e = elim (Option-cases (oldest_hit key now rows)) [
  | inl n ↦ ground (arith, count_hits-later key now t rows)
  | inr (p, n) ↦
      ground (arith, count_hits-dropped key now t p rows, count_hits-later key now t rows)
]

oldest_hit-recent :
    (key : String) (now o : ℕ) (rows : List HitRow)
    → oldest_hit key now rows ≡ some o
    → now < o + window_ms
unfolding oldest_hit
oldest_hit-recent key now o [] e = absurd (ground arith)
oldest_hit-recent key now o (row ∷ rows) e = elim (Option-cases (oldest_hit key now rows)) [
  | inl n ↦ ground arith
  | inr (p, n) ↦ ground (arith, oldest_hit-recent key now p rows)
]

oldest_hit-none :
    (key : String) (now : ℕ) (rows : List HitRow)
    → oldest_hit key now rows ≡ none
    → count_hits key now rows ≡ 0
unfolding oldest_hit count_hits
oldest_hit-none key now [] e = refl
oldest_hit-none key now (row ∷ rows) e = elim (Option-cases (oldest_hit key now rows)) [
  | inl n ↦ ground (arith, oldest_hit-none key now rows)
  | inr (p, n) ↦ absurd (ground arith)
]

-- A request is allowed exactly if the recent hits of its key are fewer than the limit.
allowed_lem :
    (key : String) (limit : Limit) (now : ℕ) (rows : List HitRow)
    → (consume key limit now rows).1.allowed ≡ ltb (count_hits key now rows) (safe_limit limit)
allowed_lem key limit now rows =
    let same = count_hits-delete_old key now now rows (omega arith) in
    consume_cases (λ a. a.1.allowed ≡ ltb (count_hits key now rows) (safe_limit limit)) key limit
      now rows (λ h. ground (arith, same)) (λ h. ground (arith, same))

refused_lem :
    (key : String) (limit : Limit) (now : ℕ) (rows : List HitRow)
    → (consume key limit now rows).1.allowed ≡ false
    → ((consume key limit now rows).0 ≡ delete_old now rows)
      × ((consume key limit now rows).1.retry_after
          ≡ retry_after_of now (oldest_hit key now (delete_old now rows)))
refused_lem key limit now rows =
    consume_cases
      (λ a.
        a.1.allowed ≡ false
        → (a.0 ≡ delete_old now rows)
          × (a.1.retry_after ≡ retry_after_of now (oldest_hit key now (delete_old now rows))))
      key limit now rows (λ _ _. (refl, refl)) (λ _ h. absurd (true≢false h))

-- The seconds are the fewest that bring a time to the end of the minute of the oldest hit.
retry_after_iff :
    (now o s : ℕ)
    → now < o + window_ms
    → leb (retry_after_of now (some o)) s ≡ leb (o + window_ms) (now + 1000 * s)
unfolding retry_after_of
retry_after_iff now o s h = ground arith

-- A caller that is refused under a limit above 0, with no more hits stored than the limit, is told
-- the exact time to wait: if the key has no other request meanwhile, then a request under the same
-- limit some whole seconds later is allowed exactly if they are at least the seconds it was told.
pub consume-retry_after :
    (key : String) (n now s : ℕ) (rows : List HitRow)
    → 0 < n
    → count_hits key now rows ≤ n
    → (consume key (floor n) now rows).1.allowed ≡ false
    → (consume key (floor n) (now + 1000 * s) (consume key (floor n) now rows).0).1.allowed
      ≡ leb (consume key (floor n) now rows).1.retry_after s
unfolding safe_limit
consume-retry_after key n now s rows pos small refused =
    let t = now + 1000 * s in
    let left = delete_old now rows in
    let (state, seconds) = refused_lem key (floor n) now rows refused in
    let full = allowed_lem key (floor n) now rows in
    let next = allowed_lem key (floor n) t left in
    let same = count_hits-delete_old key now now rows (omega arith) in
    rw (state, seconds)
      (elim (Option-cases (oldest_hit key now left)) [
        | inl e ↦ absurd (ground (arith, oldest_hit-none key now left e))
        | inr (o, e) ↦
            let exact = retry_after_iff now o s (oldest_hit-recent key now o left e) in
            rw e (elim (Bool-cases (leb (o + window_ms) t)) [
              | inl y ↦
                  let less = count_hits-dropped key now t o left (omega arith) (leb→le _ _ y) e in
                  ground (arith, less, exact, next)
              | inr f ↦
                  let kept =
                    count_hits-kept key now t o left (omega arith) (ground arith)
                      (rw e (omega arith)) in
                  ground (arith, kept, exact, next)
            ])
      ])
