-- ===== src/Delta/Tests.antt =====
-- A delta that turns `hello world` into `hello there`.
use gitedge.Shared.{ℕ, ◌≡◌, refl, List, [], ◌∷◌, ◌++◌, none, some, arith}
use gitedge.Shared.Text.{codes}
use gitedge.Delta.{
  apply_git_delta, apply_loop, step, read_copy, read_varint, take_arg, bit_or, pow2,
}
use gitedge.Delta.Apply.{
  Instruction, copy, insert, encode_delta, meaning, result_of, apply-encode_delta,
}

abbrev base : List ℕ
base = codes "hello world"

abbrev instructions : List Instruction
instructions = copy 0 6 ∷ insert (codes "there") ∷ []

apply-encode_delta_example :
    apply_git_delta base (encode_delta base instructions) ≡ some (result_of base instructions)
unfolding result_of meaning
apply-encode_delta_example =
    apply-encode_delta base instructions (omega arith) (omega arith)
      ((omega arith, omega arith, omega arith, omega arith), ((omega arith, omega arith), tt))

abbrev raw_delta : List ℕ
raw_delta = (11 ∷ 11 ∷ 0x90 ∷ 6 ∷ 5 ∷ []) ++ codes "there"

raw_run : apply_git_delta base raw_delta ≡ some (codes "hello there")
unfolding apply_git_delta apply_loop step read_copy read_varint take_arg bit_or pow2
raw_run = refl

-- A copy past the end of the base is refused.
past_end : apply_git_delta base (11 ∷ 11 ∷ 0x90 ∷ 12 ∷ []) ≡ none
unfolding apply_git_delta apply_loop step read_copy read_varint take_arg bit_or pow2
past_end = refl
