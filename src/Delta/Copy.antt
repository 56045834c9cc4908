-- ===== src/Delta/Copy.antt =====
-- The format of a copy: an opcode that flags the bytes of the offset and of the size that follow.
use gitedge.Shared.{
  ℕ, ◌+◌, ◌*◌, ◌/◌, ◌%◌, ◌≤◌, ◌<◌, ◌≡◌, refl, true, false, List, [], ◌∷◌, ◌++◌, leb, ◌==◌,
  if◌then◌else◌, length, Bool-cases, inl, inr, arith,
}
use gitedge.Delta.{take_arg, has_bit, read_copy}

-- A byte is left out where it is 0.
abbrev arg : ℕ → List ℕ
arg v = if v == 0 then [] else v ∷ []

abbrev flag : ℕ → ℕ
flag v = if v == 0 then 0 else 1

-- The bytes of a number, the lowest first.
abbrev byte : ℕ → ℕ → ℕ
byte place v = v / place % 256

arg-longer :
    (v : ℕ) (xs rest : List ℕ) → length rest ≤ length xs → length rest ≤ length (arg v ++ xs)
arg-longer v xs rest h = ground arith

pub copy_opcode : ℕ → ℕ → ℕ
copy_opcode offset size =
    128
    + flag (byte 1 offset)
    + 2 * flag (byte 256 offset)
    + 4 * flag (byte 65536 offset)
    + 8 * flag (byte 16777216 offset)
    + 16 * flag (byte 1 size)
    + 32 * flag (byte 256 size)
    + 64 * flag (byte 65536 size)

pub copy_args : ℕ → ℕ → List ℕ → List ℕ
copy_args offset size rest =
    arg (byte 1 offset)
    ++ (arg (byte 256 offset)
        ++ (arg (byte 65536 offset)
            ++ (arg (byte 16777216 offset)
                ++ (arg (byte 1 size)
                    ++ (arg (byte 256 size) ++ (arg (byte 65536 size) ++ rest))))))

-- Seven flags of an opcode.
module _ (a b c d e f g : ℕ) (ha : a ≤ 1) (hb : b ≤ 1) (hc : c ≤ 1) (hd : d ≤ 1) (he : e ≤ 1)
    (hf : f ≤ 1) (hg : g ≤ 1) where
  abbrev op : ℕ
  op = 128 + a + 2 * b + 4 * c + 8 * d + 16 * e + 32 * f + 64 * g

  bits :
      (op / 1 % 2 ≡ a)
      × (op / 2 % 2 ≡ b)
      × (op / 4 % 2 ≡ c)
      × (op / 8 % 2 ≡ d)
      × (op / 16 % 2 ≡ e)
      × (op / 32 % 2 ≡ f)
      × (op / 64 % 2 ≡ g)
  bits = (omega arith, omega arith, omega arith, omega arith, omega arith, omega arith, omega arith)

flag-le : (v : ℕ) → flag v ≤ 1
flag-le v = ground arith

take-arg :
    (opcode place v : ℕ) (rest : List ℕ)
    → opcode / place % 2 ≡ flag v
    → take_arg (has_bit opcode place) (arg v ++ rest) ≡ (v, rest)
unfolding take_arg
take-arg opcode place v rest h = elim (Bool-cases (v == 0)) [
  | inl y ↦
      let z : v ≡ 0 = ground arith in
      let off : has_bit opcode place ≡ false = ground arith in rw (off, z) refl
  | inr n ↦ let on : has_bit opcode place ≡ true = ground arith in rw (on, n) refl
]

pub read-copy :
    (offset size : ℕ) (rest : List ℕ)
    → offset < 4294967296
    → 0 < size
    → size < 16777216
    → read_copy (copy_opcode offset size) (copy_args offset size rest) ≡ (offset, size, rest)
unfolding read_copy copy_opcode copy_args
read-copy offset size rest h pos k =
    let (b₁, b₂, b₃, b₄, b₅, b₆, b₇) =
      bits (flag (byte 1 offset)) (flag (byte 256 offset)) (flag (byte 65536 offset))
        (flag (byte 16777216 offset)) (flag (byte 1 size)) (flag (byte 256 size))
        (flag (byte 65536 size)) (flag-le (byte 1 offset)) (flag-le (byte 256 offset))
        (flag-le (byte 65536 offset)) (flag-le (byte 16777216 offset)) (flag-le (byte 1 size))
        (flag-le (byte 256 size)) (flag-le (byte 65536 size)) in
    let opcode = copy_opcode offset size in
    let whole : byte 1 size + byte 256 size * 256 + byte 65536 size * 65536 ≡ size = omega arith in
    let place : byte 1 offset
          + byte 256 offset * 256
          + byte 65536 offset * 65536
          + byte 16777216 offset * 16777216
        ≡ offset =
      omega arith in
    let some_size : (size == 0) ≡ false = ground arith in
    rw
      (
        take-arg opcode 1 (byte 1 offset) _ b₁,
        take-arg opcode 2 (byte 256 offset) _ b₂,
        take-arg opcode 4 (byte 65536 offset) _ b₃,
        take-arg opcode 8 (byte 16777216 offset) _ b₄,
        take-arg opcode 16 (byte 1 size) _ b₅,
        take-arg opcode 32 (byte 256 size) _ b₆,
        take-arg opcode 64 (byte 65536 size) rest b₇,
        whole,
        place,
        some_size,
      )
      refl

pub opcode-copy : (offset size : ℕ) → leb 128 (copy_opcode offset size) ≡ true
unfolding copy_opcode
opcode-copy offset size = ground arith

pub copy_args-longer :
    (offset size : ℕ) (rest : List ℕ) → length rest ≤ length (copy_args offset size rest)
unfolding copy_args
copy_args-longer offset size rest = arg-longer (byte 1 offset) _ rest (
    arg-longer (byte 256 offset) _ rest (
      arg-longer (byte 65536 offset) _ rest (
        arg-longer (byte 16777216 offset) _ rest (
          arg-longer (byte 1 size) _ rest (
            arg-longer (byte 256 size) _ rest
              (arg-longer (byte 65536 size) rest rest (omega arith)))))))
