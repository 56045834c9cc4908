-- ===== src/Delta/Varint.antt =====
-- The numbers at the front of a delta.
use gitedge.Shared.{
  ℕ, zero, suc, ◌+◌, ◌*◌, ◌/◌, ◌%◌, max, ◌≤◌, ◌<◌, ◌≡◌, refl, ◌∙◌, ap, true, false, List, [], ◌∷◌,
  ◌++◌, some, ltb, ltb→lt, if◌then◌else◌, Bool-cases, inl, inr, arith,
}
use native.Mathlib.Nat.{mul-le-mul_right}
use gitedge.Delta.{bit_or, pow2, read_varint}

-- The format of a number: seven bits a byte, the lowest first, all but the last with a flag.
pub encode_varint : ℕ → ℕ → List ℕ
encode_varint zero n = n ∷ []
encode_varint (suc f) n =
    let rest = encode_varint f (n / 128) in if ltb n 128 then n ∷ [] else (n % 128 + 128) ∷ rest

bit_or-zero : (f b : ℕ) → b < pow2 f → bit_or f 0 b ≡ b
unfolding bit_or pow2
bit_or-zero zero b h = omega arith
bit_or-zero (suc f) b h = omega (arith, bit_or-zero f (b / 2) (omega arith))

-- Numbers that share no bit are added.
bit_or-add :
    (f s a c : ℕ) → a < pow2 s → a + c * pow2 s < pow2 f → bit_or f a (c * pow2 s) ≡ a + c * pow2 s
unfolding bit_or pow2
bit_or-add f zero a c h k =
    let z : a ≡ 0 = omega (arith, h) in
    rw z (bit_or-zero f (c * pow2 0) (omega arith) ∙ omega arith)
bit_or-add zero (suc s) a c h k = omega (arith, k)
bit_or-add (suc f) (suc s) a c h k =
    let double : c * pow2 (suc s) ≡ c * pow2 s * 2 = omega arith in
    let half : a / 2 < pow2 s = omega (arith, h) in
    let fits : a / 2 + c * pow2 s < pow2 f = omega (arith, k, double) in
    let same : c * pow2 (suc s) / 2 ≡ c * pow2 s = omega (arith, double) in
    ap (λ q. max (a % 2) (c * pow2 (suc s) % 2) + bit_or f (a / 2) q * 2) same
    ∙ omega (arith, bit_or-add f s (a / 2) c half fits, double)

pow2-seven : (n : ℕ) → pow2 (n + 7) ≡ pow2 n * 128
pow2-seven n = ap pow2 (the_same n) ∙ unfold pow2 in omega arith
  where
    the_same : (n : ℕ) → n + 7 ≡ suc (suc (suc (suc (suc (suc (suc n))))))
    the_same n = omega arith

split_at : (n p : ℕ) → n * p ≡ n % 128 * p + n / 128 * (p * 128)
split_at n p = let e : n ≡ n % 128 + n / 128 * 128 = omega arith in ap (λ x. x * p) e ∙ omega arith

or_shifted :
    (out d shift : ℕ)
    → shift ≤ 28
    → out < pow2 shift
    → out + d * pow2 shift < 4294967296
    → bit_or 32 out (d * pow2 (shift % 32) % 4294967296) ≡ out + d * pow2 shift
or_shifted out d shift s h k =
    let small : shift % 32 ≡ shift = omega arith in
    let whole : d * pow2 shift % 4294967296 ≡ d * pow2 shift = omega (arith, k) in
    ap (λ q. bit_or 32 out (d * pow2 q % 4294967296)) small
    ∙ ap (bit_or 32 out) whole
    ∙ bit_or-add 32 shift out d h (unfold pow2 in k)

read_varint-last :
    (out n shift : ℕ) (rest : List ℕ)
    → n < 128
    → shift ≤ 28
    → out < pow2 shift
    → out + n * pow2 shift < 4294967296
    → read_varint out shift (n ∷ rest) ≡ some (out + n * pow2 shift, rest)
unfolding read_varint
read_varint-last out n shift rest small s h k =
    let low : n % 128 ≡ n = omega arith in
    let last : ltb n 128 ≡ true = ground arith in rw (last, low, or_shifted out n shift s h k) refl

read_varint-more :
    (out n shift : ℕ) (rest : List ℕ)
    → shift ≤ 28
    → out < pow2 shift
    → out + n % 128 * pow2 shift < 4294967296
    → read_varint out shift ((n % 128 + 128) ∷ rest)
      ≡ read_varint (out + n % 128 * pow2 shift) (shift + 7) rest
unfolding read_varint
read_varint-more out n shift rest s h k =
    let low : (n % 128 + 128) % 128 ≡ n % 128 = omega arith in
    let more : ltb (n % 128 + 128) 128 ≡ false = ground arith in
    rw (more, low, or_shifted out (n % 128) shift s h k) refl

low_part : (out n p q : ℕ) → out < p → q ≡ p * 128 → out + n % 128 * p < q
low_part out n p q h e =
    let at_most : n % 128 * p ≤ 127 * p = mul-le-mul_right p (omega arith) in omega arith

-- A number of 32 bits reads back, after the lower groups that stand for `out`.
read-encode_varint :
    (f out n shift : ℕ) (rest : List ℕ)
    → shift + 7 * f ≡ 28
    → out < pow2 shift
    → out + n * pow2 shift < 4294967296
    → read_varint out shift (encode_varint f n ++ rest) ≡ some (out + n * pow2 shift, rest)
unfolding encode_varint
read-encode_varint zero out n shift rest s h k =
    let e : shift ≡ 28 = omega arith in
    let small : n * 268435456 < 4294967296 = unfold pow2 in omega (arith, rw e at k) in
    read_varint-last out n shift rest (omega arith) (omega arith) h k
read-encode_varint (suc f) out n shift rest s h k = elim (Bool-cases (ltb n 128)) [
  | inl y ↦ rw y (read_varint-last out n shift rest (ltb→lt n 128 y) (omega arith) h k)
  | inr m ↦
      let parts = split_at n (pow2 shift) in
      let wider = pow2-seven shift in
      let again = ap (λ p. n / 128 * p) wider in
      let sum : out + n % 128 * pow2 shift + n / 128 * pow2 (shift + 7) ≡ out + n * pow2 shift =
        omega (arith, parts, again) in
      rw m (
        read_varint-more out n shift (encode_varint f (n / 128) ++ rest) (omega arith) h
          (omega (arith, parts, k))
        ∙ read-encode_varint f (out + n % 128 * pow2 shift) (n / 128) (shift + 7) rest (omega arith)
            (low_part out n (pow2 shift) (pow2 (shift + 7)) h wider) (omega (arith, sum, k))
        ∙ ap (λ v. some (v, rest)) sum)
]

-- The number at the front.
pub read-varint_start :
    (n : ℕ) (rest : List ℕ)
    → n < 2147483648
    → read_varint 0 0 (encode_varint 4 n ++ rest) ≡ some (n, rest)
read-varint_start n rest h =
    let value : 0 + n * pow2 0 ≡ n = unfold pow2 in omega arith in
    let start : 0 < pow2 0 = unfold pow2 in omega arith in
    read-encode_varint 4 0 n 0 rest (omega arith) start (omega (arith, value, h))
    ∙ ap (λ v. some (v, rest)) value
