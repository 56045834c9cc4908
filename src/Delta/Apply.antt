-- ===== src/Delta/Apply.antt =====
-- A delta in the format of Git yields what its instructions say.
use gitedge.Shared.{
  ℕ, zero, suc, ◌+◌, ◌≤◌, ◌<◌, ◌≡◌, refl, ◌∙◌, ap, true, false, List, [], ◌∷◌, ◌++◌, ◌&&◌, some,
  ltb, leb, ◌==◌, length, length-append, take, drop, take-length, drop-length, All, arith,
}
use gitedge.Delta.{
  out_of_bounds, copy_part, step, apply_loop, apply_git_delta, with_base_size, with_sizes,
}
use gitedge.Delta.Varint.{encode_varint, read-varint_start}
use gitedge.Delta.Copy.{copy_opcode, copy_args, copy_args-longer, opcode-copy, read-copy}

-- The instructions of a delta: a part of the base, or bytes of its own.
pub data Instruction : Type 0 where
  copy : ℕ → ℕ → Instruction
  insert : List ℕ → Instruction

-- What an instruction stands for.
unfoldable pub meaning : List ℕ → Instruction → List ℕ
meaning base (copy offset size) = take size (drop offset base)
meaning base (insert bytes) = bytes

unfoldable pub result_of : List ℕ → List Instruction → List ℕ
result_of base [] = []
result_of base (i ∷ is) = meaning base i ++ result_of base is

-- The bytes of the instructions.
pub encode_instructions : List Instruction → List ℕ
encode_instructions [] = []
encode_instructions (copy offset size ∷ is) =
    copy_opcode offset size ∷ copy_args offset size (encode_instructions is)
encode_instructions (insert bytes ∷ is) = length bytes ∷ (bytes ++ encode_instructions is)

-- A copy inside of the base, of a size that the format can tell, or from 1 to 127 bytes.
abbrev pub IsInstruction : List ℕ → Instruction → Type 0
IsInstruction base (copy offset size) =
    (0 < size) × (size < 16777216) × (offset < 2147483648) × (offset + size ≤ length base)
IsInstruction base (insert bytes) = (0 < length bytes) × (length bytes < 128)

pub encode_delta : List ℕ → List Instruction → List ℕ
encode_delta base is =
    encode_varint 4 (length base)
    ++ (encode_varint 4 (length (result_of base is)) ++ encode_instructions is)

step-copy :
    (base out rest : List ℕ) (result_size offset size : ℕ)
    → IsInstruction base (copy offset size)
    → length out + length (meaning base (copy offset size)) ≤ result_size
    → step base result_size (copy_opcode offset size) (copy_args offset size rest) out
      ≡ some (out ++ meaning base (copy offset size), rest)
unfolding step meaning
step-copy base out rest result_size offset size (pos, small, low, inside) fits =
    let bounds : out_of_bounds base offset size ≡ false = ground arith in
    let room : ltb result_size (length out + length (take size (drop offset base))) ≡ false =
      ground (arith, fits) in
    rw (opcode-copy offset size) (
      ap (copy_part base result_size out) (read-copy offset size rest (omega arith) pos small)
      ∙ rw (bounds, room) refl)

step-insert :
    (base out rest bytes : List ℕ) (result_size : ℕ)
    → IsInstruction base (insert bytes)
    → length out + length bytes ≤ result_size
    → step base result_size (length bytes) (bytes ++ rest) out ≡ some (out ++ bytes, rest)
unfolding step
step-insert base out rest bytes result_size (pos, small) fits =
    let plain : leb 128 (length bytes) ≡ false = ground arith in
    let some_bytes : (length bytes == 0) ≡ false = ground arith in
    let whole : ltb (length (bytes ++ rest)) (length bytes) ≡ false =
      ground (arith, length-append bytes rest) in
    let room : ltb result_size (length out + length bytes) ≡ false = ground arith in
    rw (plain, some_bytes, whole, take-length bytes rest, room, drop-length bytes rest) refl

append-append {ℓ} : {A : Type ℓ} (xs ys zs : List A) → (xs ++ ys) ++ zs ≡ xs ++ (ys ++ zs)
append-append [] ys zs = refl
append-append (x ∷ xs) ys zs = ap (◌∷◌ x) (append-append xs ys zs)

append-nil {ℓ} : {A : Type ℓ} (xs : List A) → xs ++ [] ≡ xs
append-nil [] = refl
append-nil (x ∷ xs) = ap (◌∷◌ x) (append-nil xs)

loop-step :
    (f opcode result_size : ℕ) (base rest left out next : List ℕ)
    → step base result_size opcode rest out ≡ some (next, left)
    → apply_loop (suc f) base result_size (opcode ∷ rest) out
      ≡ apply_loop f base result_size left next
unfolding apply_loop
loop-step f opcode result_size base rest left out next h = rw (h, apply_loop) refl

loop-instructions :
    (f result_size : ℕ) (base out : List ℕ) (is : List Instruction)
    → length (encode_instructions is) ≤ f
    → All (IsInstruction base) is
    → length out + length (result_of base is) ≡ result_size
    → apply_loop f base result_size (encode_instructions is) out ≡ some (out ++ result_of base is)
unfolding encode_instructions result_of meaning
loop-instructions f result_size base out [] n h e =
    unfold apply_loop in
    (let full : (length out == result_size) ≡ true = ground arith in rw (full, append-nil out) refl)
loop-instructions zero result_size base out (copy offset size ∷ is) n h e =
    absurd (omega (arith, n))
loop-instructions zero result_size base out (insert bytes ∷ is) n h e = absurd (omega (arith, n))
loop-instructions (suc f) result_size base out (copy offset size ∷ is) n (h, hs) e =
    let part = meaning base (copy offset size) in
    let sum = length-append part (result_of base is) in
    let grown = length-append out part in
    loop-step f (copy_opcode offset size) result_size base
      (copy_args offset size (encode_instructions is)) (encode_instructions is) out (out ++ part)
      (step-copy base out (encode_instructions is) result_size offset size h (omega (arith, sum)))
    ∙ loop-instructions f result_size base (out ++ part) is
        (omega (arith, n, copy_args-longer offset size (encode_instructions is))) hs
        (omega (arith, sum, grown))
    ∙ ap some (append-append out part (result_of base is))
loop-instructions (suc f) result_size base out (insert bytes ∷ is) n (h, hs) e =
    let sum = length-append bytes (result_of base is) in
    let grown = length-append out bytes in
    let long = length-append bytes (encode_instructions is) in
    loop-step f (length bytes) result_size base (bytes ++ encode_instructions is)
      (encode_instructions is) out (out ++ bytes)
      (step-insert base out (encode_instructions is) bytes result_size h (omega (arith, sum)))
    ∙ loop-instructions f result_size base (out ++ bytes) is (omega (arith, n, long)) hs
        (omega (arith, sum, grown))
    ∙ ap some (append-append out bytes (result_of base is))

-- A delta in the format of Git, with the sizes of the base and of the result below 2^31 in front,
-- copies that lie in the base and inserts of 1 to 127 bytes, is applied to its base without an
-- exception, and yields the parts that its instructions stand for, one after the other.
pub apply-encode_delta :
    (base : List ℕ) (is : List Instruction)
    → length base < 2147483648
    → length (result_of base is) < 2147483648
    → All (IsInstruction base) is
    → apply_git_delta base (encode_delta base is) ≡ some (result_of base is)
unfolding apply_git_delta encode_delta
apply-encode_delta base is b r h =
    let size = length (result_of base is) in
    let body = encode_instructions is in
    let sizes : (length base == length base && ltb (length base) 2147483648 && ltb size 2147483648)
        ≡ true =
      ground arith in
    let run = loop-instructions (length body) size base [] is (omega arith) h (omega arith) in
    ap (with_base_size base) (read-varint_start (length base) (encode_varint 4 size ++ body) b)
    ∙ ap (with_sizes base (length base)) (read-varint_start size body r)
    ∙ rw sizes run
