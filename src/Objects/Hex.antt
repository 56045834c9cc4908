-- ===== src/Objects/Hex.antt =====
-- src/worker/common/hex.ts: names of objects in hexadecimal digits.
use gitedge.Shared.{
  ℕ, ◌+◌, ◌*◌, ◌/◌, ◌%◌, ◌<◌, ◌≡◌, refl, ◌∙◌, ap, true, List, [], ◌∷◌, some, none, All, every,
  is_some, length, ◌==◌, arith,
}
use gitedge.PktLine.{
  hex_digit, hex_value, skip_spaces, digits_value, skip_0x, plus, parse_signed, parse_int16,
}
use gitedge.PktLine.Digits.{
  to_string16_step, to_string16_last, zero_digit, hex_value-hex_digit, hex_digit_plain,
  digits_value_step,
}
use gitedge.Objects.{hex_byte, bytes_to_hex, stored_byte, hex_pairs, hex_to_bytes, is_valid_oid}

hex_byte_lem : (b : ℕ) → b < 256 → hex_byte b ≡ hex_digit (b / 16) ∷ hex_digit (b % 16) ∷ []
unfolding hex_byte
hex_byte_lem b h =
    ground (
      arith,
      to_string16_last 13 b,
      to_string16_step 13 b,
      to_string16_last 12 (b / 16),
      zero_digit,
    )

two_value :
    (a b : ℕ) → a < 16 → b < 16 → parse_int16 (hex_digit a ∷ hex_digit b ∷ []) ≡ plus (a * 16 + b)
two_value a b ha hb =
    let (space, dash, cross, _, _, _) = hex_digit_plain a ha in
    let (_, _, _, x, big_x, _) = hex_digit_plain b hb in
    let value : digits_value none (hex_digit a ∷ hex_digit b ∷ []) ≡ some (a * 16 + b) =
      digits_value_step none a _ ha
      ∙ digits_value_step _ b _ hb
      ∙ unfold digits_value in ap some (omega arith) in
    let plain : skip_0x (hex_digit a ∷ hex_digit b ∷ []) ≡ hex_digit a ∷ hex_digit b ∷ [] =
      unfold skip_0x in ground arith in
    unfold parse_int16 parse_signed skip_spaces in ground (arith, value, plain)

pub length-bytes_to_hex :
    (bs : List ℕ) → All (λ b. b < 256) bs → length (bytes_to_hex bs) ≡ length bs * 2
unfolding bytes_to_hex
length-bytes_to_hex [] h = refl
length-bytes_to_hex (b ∷ bs) (h, hs) =
    rw (hex_byte_lem b h) (omega (arith, length-bytes_to_hex bs hs))

hex_pairs-bytes_to_hex : (bs : List ℕ) → All (λ b. b < 256) bs → hex_pairs (bytes_to_hex bs) ≡ bs
unfolding bytes_to_hex hex_pairs
hex_pairs-bytes_to_hex [] h = refl
hex_pairs-bytes_to_hex (b ∷ bs) (h, hs) =
    rw
      (
        hex_byte_lem b h,
        two_value (b / 16) (b % 16) (omega arith) (omega arith),
        hex_pairs-bytes_to_hex bs hs,
      )
      (unfold stored_byte in ap (λ n. n ∷ bs) (omega arith))

every-bytes_to_hex :
    (bs : List ℕ)
    → All (λ b. b < 256) bs
    → every (λ c. is_some (hex_value c)) (bytes_to_hex bs) ≡ true
unfolding bytes_to_hex
every-bytes_to_hex [] h = refl
every-bytes_to_hex (b ∷ bs) (h, hs) =
    rw
      (
        hex_byte_lem b h,
        hex_value-hex_digit (b / 16) (omega arith),
        hex_value-hex_digit (b % 16) (omega arith),
        every-bytes_to_hex bs hs,
      )
      refl

-- The hexadecimal text of bytes is read back as these bytes, and for twenty bytes, and no other
-- number of them, it is a valid name of an object.
pub hex_to_bytes-bytes_to_hex :
    (bs : List ℕ)
    → All (λ b. b < 256) bs
    → (hex_to_bytes (bytes_to_hex bs) ≡ some bs)
      × (is_valid_oid (bytes_to_hex bs) ≡ (length bs == 20))
hex_to_bytes-bytes_to_hex bs h =
    let long = length-bytes_to_hex bs h in
    let read = hex_pairs-bytes_to_hex bs h in
    let digits = every-bytes_to_hex bs h in
    (
      unfold hex_to_bytes in rw (long, read) (ground arith),
      unfold is_valid_oid in rw (long, digits) (ground arith),
    )
