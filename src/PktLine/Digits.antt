-- ===== src/PktLine/Digits.antt =====
-- The header of a frame: what `toHex4` writes, `parseInt` reads.
use gitedge.Shared.{
  ℕ, suc, ◌+◌, ◌-◌, ◌*◌, ◌/◌, ◌%◌, ◌≤◌, ◌<◌, ◌≡◌, ◌≢◌, refl, sym, ◌∙◌, ap, false, List, [], ◌∷◌,
  ◌++◌, Option, none, some, ltb, if◌then◌else◌, or_else, All, Bool-cases, inl, inr, arith,
}
use gitedge.Shared.Text.{codes_eq, codes_eq_iff}
use gitedge.PktLine.{
  hex_digit, to_string16, pad_start4, to_hex4, hex_value, is_space, skip_spaces, digits_value,
  skip_0x, plus, parse_signed, parse_int16, header_of, payload_of, flush_pkt, delim_pkt,
  response_end_pkt,
}

-- The four digits of a length.
abbrev pub four_digits : ℕ → List ℕ
four_digits n =
    hex_digit (n / 4096)
    ∷ hex_digit (n / 256 % 16)
    ∷ hex_digit (n / 16 % 16)
    ∷ hex_digit (n % 16)
    ∷ []

pub to_string16_step :
    (f n : ℕ) → 16 ≤ n → to_string16 (suc f) n ≡ to_string16 f (n / 16) ++ (hex_digit (n % 16) ∷ [])
unfolding to_string16
to_string16_step f n h = ground arith

pub to_string16_last : (f n : ℕ) → n < 16 → to_string16 (suc f) n ≡ hex_digit n ∷ []
unfolding to_string16
to_string16_last f n h = ground arith

pub zero_digit : hex_digit 0 ≡ b'0'
unfolding hex_digit
zero_digit = refl

-- The digits of a number below 16, 256, 4096 and 65536.
to_string16_digits :
    (n : ℕ)
    → n < 65536
    → to_string16 14 n ≡ (
        if ltb n 16
        then hex_digit n ∷ []
        else if ltb n 256
        then hex_digit (n / 16) ∷ hex_digit (n % 16) ∷ []
        else if ltb n 4096
        then hex_digit (n / 256) ∷ hex_digit (n / 16 % 16) ∷ hex_digit (n % 16) ∷ []
        else four_digits n)
to_string16_digits n h = ground (
  arith,
  to_string16_last 13 n,
  to_string16_step 13 n,
  to_string16_last 12 (n / 16),
  to_string16_step 12 (n / 16),
  to_string16_last 11 (n / 16 / 16),
  to_string16_step 11 (n / 16 / 16),
  to_string16_last 10 (n / 16 / 16 / 16),
)

pub to_hex4_lem : (n : ℕ) → n < 65536 → to_hex4 n ≡ four_digits n
unfolding to_hex4 pad_start4
to_hex4_lem n h = rw (to_string16_digits n h) (ground (arith, zero_digit))

pub hex_value-hex_digit : (d : ℕ) → d < 16 → hex_value (hex_digit d) ≡ some d
unfolding hex_value hex_digit
hex_value-hex_digit d h = ground arith

pub hex_digit_plain :
    (d : ℕ)
    → d < 16
    → (is_space (hex_digit d) ≡ false)
      × (hex_digit d ≢ b'-')
      × (hex_digit d ≢ b'+')
      × (hex_digit d ≢ b'x')
      × (hex_digit d ≢ b'X')
      × (hex_digit d < 128)
unfolding is_space hex_digit
hex_digit_plain d h = ground arith

-- The loop over the digits.
pub digits_value_step :
    (acc : Option ℕ) (d : ℕ) (cs : List ℕ)
    → d < 16
    → digits_value acc (hex_digit d ∷ cs) ≡ digits_value (some (or_else acc 0 * 16 + d)) cs
unfolding digits_value
digits_value_step acc d cs h = ground (arith, hex_value-hex_digit d h)

four_value :
    (a b c d : ℕ)
    → a < 16
    → b < 16
    → c < 16
    → d < 16
    → parse_int16 (hex_digit a ∷ hex_digit b ∷ hex_digit c ∷ hex_digit d ∷ [])
      ≡ plus (((a * 16 + b) * 16 + c) * 16 + d)
four_value a b c d ha hb hc hd =
    let (space, dash, cross, _, _, _) = hex_digit_plain a ha in
    let (_, _, _, x, big_x, _) = hex_digit_plain b hb in
    let value : digits_value none (hex_digit a ∷ hex_digit b ∷ hex_digit c ∷ hex_digit d ∷ [])
        ≡ some (((a * 16 + b) * 16 + c) * 16 + d) =
      digits_value_step none a _ ha
      ∙ digits_value_step _ b _ hb
      ∙ digits_value_step _ c _ hc
      ∙ digits_value_step _ d _ hd
      ∙ unfold digits_value in ap some (omega arith) in
    let plain : skip_0x (hex_digit a ∷ hex_digit b ∷ hex_digit c ∷ hex_digit d ∷ [])
        ≡ hex_digit a ∷ hex_digit b ∷ hex_digit c ∷ hex_digit d ∷ [] =
      unfold skip_0x in ground arith in
    unfold parse_int16 parse_signed skip_spaces in ground (arith, value, plain)

four_digits_value : (n : ℕ) → n < 65536 → parse_int16 (four_digits n) ≡ plus n
four_digits_value n h =
    four_value (n / 4096) (n / 256 % 16) (n / 16 % 16) (n % 16) (omega arith) (omega arith)
      (omega arith) (omega arith)
    ∙ ap plus (omega arith)

-- A length of four or more is none of the special headers.
not_special :
    (n m : ℕ) (w : List ℕ)
    → m < 4
    → 4 ≤ n
    → n < 65536
    → parse_int16 w ≡ plus m
    → codes_eq (four_digits n) w ≡ false
not_special n m w small lo hi e = elim (Bool-cases (codes_eq (four_digits n) w)) [
  | inr f ↦ f
  | inl t ↦
      let same : plus n ≡ plus m =
        sym (four_digits_value n hi) ∙ ap parse_int16 ((codes_eq_iff _ _).0 t) ∙ e in
      absurd (ground arith)
]

parse-flush : parse_int16 flush_pkt ≡ plus 0
unfolding parse_int16 skip_spaces is_space parse_signed skip_0x digits_value hex_value
parse-flush = refl

parse-delim : parse_int16 delim_pkt ≡ plus 1
unfolding parse_int16 skip_spaces is_space parse_signed skip_0x digits_value hex_value
parse-delim = refl

parse-response_end : parse_int16 response_end_pkt ≡ plus 2
unfolding parse_int16 skip_spaces is_space parse_signed skip_0x digits_value hex_value
parse-response_end = refl

-- The header of a frame of `n` bytes tells the length of the payload.
pub header_of_lem : (n : ℕ) → 4 ≤ n → n < 65536 → header_of (four_digits n) ≡ payload_of (n - 4)
unfolding header_of
header_of_lem n lo hi = ground (
  arith,
  not_special n 0 flush_pkt (omega arith) lo hi parse-flush,
  not_special n 1 delim_pkt (omega arith) lo hi parse-delim,
  not_special n 2 response_end_pkt (omega arith) lo hi parse-response_end,
  four_digits_value n hi,
)

pub four_digits-All : (n : ℕ) → n < 65536 → All (λ c. c < 128) (four_digits n)
four_digits-All n h = (
  (hex_digit_plain (n / 4096) (omega arith)).5,
  (
    (hex_digit_plain (n / 256 % 16) (omega arith)).5,
    (
      (hex_digit_plain (n / 16 % 16) (omega arith)).5,
      ((hex_digit_plain (n % 16) (omega arith)).5, tt),
    ),
  ),
)
