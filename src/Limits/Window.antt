-- ===== src/Limits/Window.antt =====
-- No minute has more allowed requests than the limit.
use gitedge.Shared.{
  ℕ, suc, ◌+◌, ◌≤◌, ◌<◌, max, ◌≡◌, ◌≢◌, ◌⊎◌, refl, sym, ◌∙◌, leb→le, String, Bool, true, false,
  List, [], ◌∷◌, ◌++◌, ltb, leb, ◌==◌, ◌||◌, ◌&&◌, if◌then◌else◌, All, All-map, Bool-cases, inl,
  inr, arith,
}
use mathlib.Core.Bool.{true≢false}
use gitedge.Shared.Text.{str_eq, str_eq_iff}
use gitedge.Limits.{
  HitRow, Limit, RateLimitDecision, safe_limit, window_ms, delete_old, count_hits, oldest_hit,
  retry_after_of, consume,
}

-- A call of `consume`.
pub record Request : Type 0 where
  pub key : String
  pub limit : Limit
  pub now : ℕ

-- The hits of the requests that are allowed, in their order.
unfoldable pub accepted : List Request → List HitRow → List HitRow
accepted [] rows = []
accepted (r ∷ rs) rows =
    let (rows', decision) = consume r.key r.limit r.now rows in
    let rest = accepted rs rows' in
    if decision.allowed then record { key = r.key; at = r.now } ∷ rest else rest

-- A hit of the key in the minute that ends at `t`.
abbrev pub in_window : String → ℕ → HitRow → Bool
in_window key t row = str_eq row.key key && leb row.at t && ltb t (row.at + window_ms)

unfoldable pub count_window : String → ℕ → List HitRow → ℕ
count_window key t [] = 0
count_window key t (row ∷ rows) =
    let rest = count_window key t rows in if in_window key t row then suc rest else rest

-- The requests come in the order of their times.
abbrev pub IsOrdered : List Request → Type 0
IsOrdered [] = Unit
IsOrdered (r ∷ rs) = All (λ s. r.now ≤ s.now) rs × IsOrdered rs

count_window-append :
    (key : String) (t : ℕ) (xs ys : List HitRow)
    → count_window key t (xs ++ ys) ≡ count_window key t xs + count_window key t ys
unfolding count_window
count_window-append key t [] ys = omega arith
count_window-append key t (x ∷ xs) ys = ground (arith, count_window-append key t xs ys)

-- What is deleted by `t` is not in the minute that ends at `t`.
count_window-delete_old :
    (key : String) (now t : ℕ) (rows : List HitRow)
    → now ≤ t
    → count_window key t (delete_old now rows) ≡ count_window key t rows
unfolding count_window delete_old
count_window-delete_old key now t [] h = refl
count_window-delete_old key now t (row ∷ rows) h =
    ground (arith, count_window-delete_old key now t rows h)

count_window-le :
    (key : String) (now t : ℕ) (rows : List HitRow)
    → now ≤ t
    → count_window key t rows ≤ count_hits key now rows
unfolding count_window count_hits
count_window-le key now t [] h = omega arith
count_window-le key now t (row ∷ rows) h = ground (arith, count_window-le key now t rows h)

-- Requests after `t` leave no hit in the minute that ends at `t`.
later-count_window :
    (key : String) (t : ℕ) (rs : List Request) (rows : List HitRow)
    → All (λ r. t < r.now) rs
    → count_window key t (accepted rs rows) ≡ 0
unfolding accepted count_window
later-count_window key t [] rows h = refl
later-count_window key t (r ∷ rs) rows (h, hs) =
    let (rows', decision) = consume r.key r.limit r.now rows in
    ground (arith, later-count_window key t rs rows' hs)

-- The ways in which a call of `consume` can end.
pub consume_cases {ℓ} :
    (P : List HitRow × RateLimitDecision → Type ℓ) (key : String) (limit : Limit) (now : ℕ)
    (rows : List HitRow)
    → (safe_limit limit ≤ count_hits key now (delete_old now rows)
        → P (
          delete_old now rows,
          record {
            allowed = false;
            retry_after = retry_after_of now (oldest_hit key now (delete_old now rows));
          },
        ))
    → (count_hits key now (delete_old now rows) < safe_limit limit
        → P (
          delete_old now rows ++ (record { key = key; at = now } ∷ []),
          record { allowed = true; retry_after = 0 },
        ))
    → P (consume key limit now rows)
unfolding consume
consume_cases P key limit now rows refuse allow =
    elim (Bool-cases (
      safe_limit limit == 0 || leb (safe_limit limit) (count_hits key now (delete_old now rows)))) [
        | inl y ↦ rw y (refuse (ground arith))
        | inr n ↦ rw n (allow (ground arith))
      ]

-- Every request of the key comes with a limit that is not above this one.
abbrev pub IsLimited : String → ℕ → Request → Type 0
IsLimited key bound r = (r.key ≢ key) ⊎ (safe_limit r.limit ≤ bound)

count_window-hit :
    (key : String) (t : ℕ) (row : HitRow)
    → (count_window key t (row ∷ []) ≤ 1) × (row.key ≢ key → count_window key t (row ∷ []) ≡ 0)
unfolding count_window
count_window-hit key t row = ground (arith, str_eq_iff row.key key)

window_step :
    (key : String) (bound t : ℕ) (r : Request) (rs : List Request) (rows : List HitRow)
    → r.now ≤ t
    → IsLimited key bound r
    → ((rows' : List HitRow)
        → count_window key t rows' + count_window key t (accepted rs rows')
          ≤ max bound (count_window key t rows'))
    → count_window key t rows + count_window key t (accepted (r ∷ rs) rows)
      ≤ max bound (count_window key t rows)
unfolding accepted
window_step key bound t r rs rows early limited rest =
    let left = delete_old r.now rows in
    let hit : HitRow = record { key = r.key; at = r.now } in
    let same = count_window-delete_old key r.now t rows early in
    consume_cases
      (λ a.
        count_window key t rows
          + count_window key t (if a.1.allowed then hit ∷ accepted rs a.0 else accepted rs a.0)
        ≤ max bound (count_window key t rows))
      r.key r.limit r.now rows (λ _. omega (arith, same, rest left))
      (λ free.
        let after = rest (left ++ (hit ∷ [])) in
        let grown = count_window-append key t left (hit ∷ []) in
        let first = count_window-append key t (hit ∷ []) (accepted rs (left ++ (hit ∷ []))) in
        let (one, other) = count_window-hit key t hit in
        elim limited [
          | inl n ↦ omega (arith, same, after, grown, first, other n)
          | inr small ↦ elim (Bool-cases (str_eq r.key key)) [
            | inl y ↦
                let e : r.key ≡ key = (str_eq_iff r.key key).0 y in
                let room : count_hits key r.now left < safe_limit r.limit = rw e at free in
                let inside = count_window-le key r.now t left early in
                omega (arith, same, after, grown, first, one, room, small, inside)
            | inr n ↦
                let none_here = other (λ e. true≢false (sym ((str_eq_iff r.key key).1 e) ∙ n)) in
                omega (arith, same, after, grown, first, none_here)
          ]
        ])

window_bound :
    (key : String) (bound t : ℕ) (rs : List Request) (rows : List HitRow)
    → IsOrdered rs
    → All (IsLimited key bound) rs
    → count_window key t rows + count_window key t (accepted rs rows)
      ≤ max bound (count_window key t rows)
window_bound key bound t [] rows o h = unfold accepted count_window in omega arith
window_bound key bound t (r ∷ rs) rows (o, os) (h, hs) = elim (Bool-cases (leb r.now t)) [
  | inl early ↦
      window_step key bound t r rs rows (leb→le r.now t early) h
        (λ rows'. window_bound key bound t rs rows' os hs)
  | inr late ↦
      let now_late : t < r.now = ground arith in
      let zero_left =
        later-count_window key t (r ∷ rs) rows
          (now_late, All-map (λ s. r.now ≤ s.now) (λ s. t < s.now) (λ s k. omega arith) rs o) in
      omega (arith, zero_left)
]

-- Of requests that come in the order of their times, to a table that starts empty, with no limit for
-- the key above the bound, no minute has more allowed requests of the key than the bound.
pub accepted-window :
    (key : String) (bound t : ℕ) (rs : List Request)
    → IsOrdered rs
    → All (IsLimited key bound) rs
    → count_window key t (accepted rs []) ≤ bound
accepted-window key bound t rs o h =
    let whole = window_bound key bound t rs [] o h in unfold count_window in omega arith
