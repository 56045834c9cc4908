-- ===== src/Limits.antt =====
-- workers/limits/src/index.ts: the durable object that limits the rate of requests. The table
-- `rate_limit_hits` is a list of rows, the newest last. A time that is not past the cutoff
-- `now - 60_000` is written as a sum, since ℕ has no negative times.
pub mod Window
pub mod Retry
mod Tests
use gitedge.Shared.{
  ℕ, suc, ◌+◌, ◌-◌, ◌/◌, max, min, String, Bool, true, false, List, [], ◌∷◌, ◌++◌, Option, none,
  some, ltb, leb, ◌==◌, ◌||◌, ◌&&◌, if◌then◌else◌, or_else, keep, length,
}
use gitedge.Shared.Text.{str_eq}

pub record HitRow : Type 0 where
  pub key : String
  pub at : ℕ

pub record RateLimitDecision : Type 0 where
  pub allowed : Bool
  pub retry_after : ℕ

-- The `limit` of a caller: not a finite number, a number below 0, or one with this floor.
pub data Limit : Type 0 where
  not_finite negative : Limit
  floor : ℕ → Limit

unfoldable pub safe_limit : Limit → ℕ
safe_limit not_finite = 0
safe_limit negative = 0
safe_limit (floor n) = n

abbrev pub window_ms : ℕ
window_ms = 60000

-- `at > cutoff`
abbrev pub is_recent : ℕ → HitRow → Bool
is_recent now row = ltb now (row.at + window_ms)

-- `DELETE FROM rate_limit_hits WHERE at <= cutoff`, of every key.
unfoldable pub delete_old : ℕ → List HitRow → List HitRow
delete_old now = keep (is_recent now)

-- `SELECT COUNT(*) ... WHERE key = ? AND at > cutoff`
unfoldable pub count_hits : String → ℕ → List HitRow → ℕ
count_hits key now [] = 0
count_hits key now (row ∷ rows) =
    let rest = count_hits key now rows in
    if str_eq row.key key && is_recent now row then suc rest else rest

-- The earlier of a time and the times so far.
abbrev pub earlier : ℕ → Option ℕ → Option ℕ
earlier at none = some at
earlier at (some other) = some (min at other)

-- `SELECT at ... WHERE key = ? AND at > cutoff ORDER BY at ASC LIMIT 1`
unfoldable pub oldest_hit : String → ℕ → List HitRow → Option ℕ
oldest_hit key now [] = none
oldest_hit key now (row ∷ rows) =
    let rest = oldest_hit key now rows in
    if str_eq row.key key && is_recent now row then earlier row.at rest else rest

-- `Math.max(1, Math.ceil(((oldest ?? now) + 60_000 - now) / 1000))`; an oldest hit is recent, so
-- the difference is positive.
unfoldable pub retry_after_of : ℕ → Option ℕ → ℕ
retry_after_of now oldest = max 1 ((or_else oldest now + window_ms - now + 999) / 1000)

unfoldable pub consume : String → Limit → ℕ → List HitRow → List HitRow × RateLimitDecision
unfolding safe_limit delete_old count_hits oldest_hit retry_after_of
consume key limit now rows₀ =
    let rows = delete_old now rows₀ in
    if safe_limit limit == 0 || leb (safe_limit limit) (count_hits key now rows)
    then (
      rows,
      record { allowed = false; retry_after = retry_after_of now (oldest_hit key now rows) },
    )
    else (rows ++ (record { key = key; at = now } ∷ []), record { allowed = true; retry_after = 0 })
