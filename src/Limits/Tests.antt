-- ===== src/Limits/Tests.antt =====
-- Two requests a minute.
use gitedge.Shared.{ℕ, ◌+◌, ◌*◌, ◌≤◌, ◌≡◌, refl, List, [], ◌∷◌, leb, inr, arith}
use gitedge.Limits.{HitRow, floor, safe_limit, consume, count_hits}
use gitedge.Limits.Window.{Request, accepted, accepted-window, count_window}
use gitedge.Limits.Retry.{consume-retry_after}

abbrev two_hits : List HitRow
two_hits = record { key = "user"; at = 1000 } ∷ record { key = "user"; at = 5000 } ∷ []

abbrev ask : ℕ → Request
ask now = record { key = "user"; limit = floor 2; now = now }

abbrev four_requests : List Request
four_requests = ask 1000 ∷ ask 5000 ∷ ask 30000 ∷ ask 61000 ∷ []

accepted-window_example : count_window "user" 62000 (accepted four_requests []) ≤ 2
unfolding safe_limit
accepted-window_example =
    accepted-window "user" 2 62000 four_requests
      (
        (omega arith, (omega arith, (omega arith, tt))),
        ((omega arith, (omega arith, tt)), ((omega arith, tt), (tt, tt))),
      )
      (inr (omega arith), (inr (omega arith), (inr (omega arith), (inr (omega arith), tt))))

consume-retry_after_example :
    (consume "user"
      (floor 2)
      (30000 + 1000 * 31)
      (consume "user" (floor 2) 30000 two_hits).0).1.allowed
    ≡ leb (consume "user" (floor 2) 30000 two_hits).1.retry_after 31
unfolding consume count_hits
consume-retry_after_example =
    consume-retry_after "user" 2 30000 31 two_hits (omega arith) (omega arith) refl

-- The fourth request comes when the first has left the minute.
three_are_allowed : accepted four_requests [] ≡ (
    record { key = "user"; at = 1000 }
    ∷ record { key = "user"; at = 5000 }
    ∷ record { key = "user"; at = 61000 }
    ∷ [])
unfolding accepted consume
three_are_allowed = refl
