-- ===== src/Delta.antt =====
-- src/worker/git/object-store/delta.ts: `applyGitDelta`. Bytes are numbers below 256; the rest of the
-- delta is what `pos` has not passed. Bit operations work on 32 bits, and `out`, which is written in
-- order, is kept as the bytes so far.
pub mod Varint
pub mod Copy
pub mod Apply
mod Tests
use gitedge.Shared.{
  ℕ, zero, suc, ◌+◌, ◌-◌, ◌*◌, ◌/◌, ◌%◌, ◌^◌, max, Bool, true, false, List, [], ◌∷◌, ◌++◌, Option,
  none, some, ltb, leb, ◌==◌, ◌||◌, ◌&&◌, if◌then◌else◌, length, take, drop,
}

-- `a | b` on as many bits as there is fuel.
unfoldable pub bit_or : ℕ → ℕ → ℕ → ℕ
bit_or zero a b = 0
bit_or (suc f) a b = max (a % 2) (b % 2) + bit_or f (a / 2) (b / 2) * 2

-- `2 ** n`
unfoldable pub pow2 : ℕ → ℕ
pow2 zero = 1
pow2 (suc n) = pow2 n * 2

-- `readVarint`: the 32 bits of `out`, and the rest. A shift counts modulo 32.
unfoldable pub read_varint : ℕ → ℕ → List ℕ → Option (ℕ × List ℕ)
read_varint out shift [] = none
read_varint out shift (byte ∷ rest) =
    let next = bit_or 32 out (byte % 128 * pow2 (shift % 32) % 4294967296) in
    let more = read_varint next (shift + 7) rest in if ltb byte 128 then some (next, rest) else more

-- `delta[pos++]` where its flag is set; past the end it is `undefined`, which counts as 0.
unfoldable pub take_arg : Bool → List ℕ → ℕ × List ℕ
take_arg false rest = (0, rest)
take_arg true [] = (0, [])
take_arg true (b ∷ rest) = (b, rest)

abbrev pub has_bit : ℕ → ℕ → Bool
has_bit opcode place = opcode / place % 2 == 1

-- The offset, the size and the rest after the opcode of a copy. The four bytes do not overlap.
unfoldable pub read_copy : ℕ → List ℕ → ℕ × ℕ × List ℕ
read_copy opcode r₀ =
    let (o₁, r₁) = take_arg (has_bit opcode 1) r₀ in
    let (o₂, r₂) = take_arg (has_bit opcode 2) r₁ in
    let (o₃, r₃) = take_arg (has_bit opcode 4) r₂ in
    let (o₄, r₄) = take_arg (has_bit opcode 8) r₃ in
    let (s₁, r₅) = take_arg (has_bit opcode 16) r₄ in
    let (s₂, r₆) = take_arg (has_bit opcode 32) r₅ in
    let (s₃, r₇) = take_arg (has_bit opcode 64) r₆ in
    let size = s₁ + s₂ * 256 + s₃ * 65536 in
    (o₁ + o₂ * 256 + o₃ * 65536 + o₄ * 16777216, if size == 0 then 65536 else size, r₇)

-- `copyOffset < 0` for 32 bits with a sign, or the end past the base.
abbrev pub out_of_bounds : List ℕ → ℕ → ℕ → Bool
out_of_bounds base offset size = leb 2147483648 offset || ltb (length base) (offset + size)

-- `out.set(bytes, outPos)`, which throws where the bytes do not fit.
abbrev pub set_out : ℕ → List ℕ → List ℕ → Option (List ℕ)
set_out result_size out bytes =
    if ltb result_size (length out + length bytes) then none else some (out ++ bytes)

-- A copy, by its offset, its size and the rest behind it.
abbrev pub copy_part : List ℕ → ℕ → List ℕ → ℕ × ℕ × List ℕ → Option (List ℕ × List ℕ)
copy_part base result_size out (offset, size, left) =
    if out_of_bounds base offset size
    then none
    else elim (set_out result_size out (take size (drop offset base))) [
      | none ↦ none
      | some next ↦ some (next, left)
    ]

-- One round of the loop: `out` and the rest after an instruction, or an exception.
unfoldable pub step : List ℕ → ℕ → ℕ → List ℕ → List ℕ → Option (List ℕ × List ℕ)
step base result_size opcode rest out =
    if leb 128 opcode
    then copy_part base result_size out (read_copy opcode rest)
    else if opcode == 0
    then none
    else if ltb (length rest) opcode
    then none
    else elim (set_out result_size out (take opcode rest)) [
      | none ↦ none
      | some next ↦ some (next, drop opcode rest)
    ]

-- The loop, and the check after it. A round takes a byte at least.
unfoldable pub apply_loop : ℕ → List ℕ → ℕ → List ℕ → List ℕ → Option (List ℕ)
apply_loop f base result_size [] out = if length out == result_size then some out else none
apply_loop zero base result_size (opcode ∷ rest) out = none
apply_loop (suc f) base result_size (opcode ∷ rest) out =
    elim (step base result_size opcode rest out) [
      | none ↦ none
      | some (next, left) ↦ apply_loop f base result_size left next
    ]

-- An exception is `none`; a negative size throws in `new Uint8Array`.
abbrev pub with_sizes : List ℕ → ℕ → Option (ℕ × List ℕ) → Option (List ℕ)
with_sizes base base_size none = none
with_sizes base base_size (some (result_size, rest)) =
    if base_size == length base && ltb base_size 2147483648 && ltb result_size 2147483648
    then apply_loop (length rest) base result_size rest []
    else none

abbrev pub with_base_size : List ℕ → Option (ℕ × List ℕ) → Option (List ℕ)
with_base_size base none = none
with_base_size base (some (base_size, rest)) = with_sizes base base_size (read_varint 0 0 rest)

unfoldable pub apply_git_delta : List ℕ → List ℕ → Option (List ℕ)
apply_git_delta base delta = with_base_size base (read_varint 0 0 delta)
