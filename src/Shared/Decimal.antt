-- ===== src/Shared/Decimal.antt =====
-- Numbers in templates, in decimal.
use gitedge.Shared.Tests.{ltb, if◌then◌else◌}
use Prim.Native.Nat.{ℕ, zero, suc, ◌+◌, ◌/◌, ◌%◌}
use mathlib.Core.List.{List, [], ◌∷◌, ◌++◌}

-- A number in a template; it is below 2^53, so it has at most 16 digits.
unfoldable pub to_decimal : ℕ → ℕ → List ℕ
to_decimal zero n = []
to_decimal (suc f) n =
    let digits = to_decimal f (n / 10) in
    if ltb n 10 then (48 + n) ∷ [] else digits ++ ((48 + n % 10) ∷ [])

unfoldable pub number : ℕ → List ℕ
unfolding to_decimal
number n = to_decimal 16 n
