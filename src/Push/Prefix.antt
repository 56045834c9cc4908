-- ===== src/Push/Prefix.antt =====
-- `parsePktSectionPrefix` when more bytes come: a verdict is final.
use gitedge.Shared.{
  ℕ, zero, suc, ◌+◌, ◌≤◌, ◌≡◌, refl, ap, ◌∙◌, ◌⊎◌, inl, inr, true, List, [], ◌∷◌, ◌++◌, leb, length,
  length-append, length-drop, take, drop, Bool-cases, arith,
}
use gitedge.PktLine.{
  Header, header_of, flush_header, delim_header, response_end_header, malformed, payload_of, chomp,
}
use gitedge.Push.{
  ParsedPktSection, parsed, incomplete, invalid, add_line, prefix_loop, parse_pkt_section_prefix,
}

take-append {ℓ} :
    {A : Type ℓ} (n : ℕ) (xs ys : List A) → n ≤ length xs → take n (xs ++ ys) ≡ take n xs
take-append zero xs ys h = refl
take-append (suc n) [] ys h = absurd (omega arith)
take-append (suc n) (x ∷ xs) ys h = ap (◌∷◌ x) (take-append n xs ys (omega arith))

pub drop-append {ℓ} :
    {A : Type ℓ} (n : ℕ) (xs ys : List A) → n ≤ length xs → drop n (xs ++ ys) ≡ drop n xs ++ ys
drop-append zero xs ys h = refl
drop-append (suc n) [] ys h = absurd (omega arith)
drop-append (suc n) (x ∷ xs) ys h = drop-append n xs ys (omega arith)

-- Undecided, or decided for good.
abbrev pub Settles : ParsedPktSection → ParsedPktSection → Type 0
Settles before after = (before ≡ incomplete) ⊎ (after ≡ before)

add_line-Settles :
    (l : List ℕ) (p q : ParsedPktSection) → Settles p q → Settles (add_line l p) (add_line l q)
add_line-Settles l p q (inl e) = inl (ap (add_line l) e)
add_line-Settles l p q (inr e) = inr (ap (add_line l) e)

module _ (decode : List ℕ → List ℕ) where
  payload_step :
      (f n offset : ℕ) (buf : List ℕ)
      → leb 4 (length buf) ≡ true
      → header_of (decode (take 4 buf)) ≡ payload_of n
      → leb n (length (drop 4 buf)) ≡ true
      → prefix_loop decode (suc f) buf offset
        ≡ add_line
            (chomp (decode (take n (drop 4 buf))))
            (prefix_loop decode f (drop n (drop 4 buf)) (offset + 4 + n))
  unfolding prefix_loop
  payload_step f n o buf h e fits = rw (h, e, fits, prefix_loop) refl

  payload_Settles :
      (f g n : ℕ) (buf more : List ℕ) (offset : ℕ)
      → leb 4 (length buf) ≡ true
      → leb 4 (length (buf ++ more)) ≡ true
      → header_of (decode (take 4 buf)) ≡ payload_of n
      → header_of (decode (take 4 (buf ++ more))) ≡ payload_of n
      → drop 4 (buf ++ more) ≡ drop 4 buf ++ more
      → leb n (length (drop 4 buf)) ≡ true
      → Settles
          (prefix_loop decode f (drop n (drop 4 buf)) (offset + 4 + n))
          (prefix_loop decode g (drop n (drop 4 buf) ++ more) (offset + 4 + n))
      → Settles
          (prefix_loop decode (suc f) buf offset)
          (prefix_loop decode (suc g) (buf ++ more) offset)
  payload_Settles f g n buf more o h l e k d fits ih =
      let enough : n ≤ length (drop 4 buf) = ground arith in
      let long : leb n (length (drop 4 (buf ++ more))) ≡ true =
        rw d (ground (arith, length-append (drop 4 buf) more)) in
      let after : prefix_loop decode (suc g) (buf ++ more) o
          ≡ add_line (chomp (decode (take n (drop 4 buf))))
              (prefix_loop decode g (drop n (drop 4 buf) ++ more) (o + 4 + n)) =
        payload_step g n o (buf ++ more) l k long
        ∙ rw (d, take-append n (drop 4 buf) more enough, drop-append n (drop 4 buf) more enough)
            refl in
      rw (payload_step f n o buf h e fits, after)
        (add_line-Settles (chomp (decode (take n (drop 4 buf)))) _ _ ih)

  header_Settles :
      (f g : ℕ) (buf more : List ℕ) (offset : ℕ) (header : Header)
      → header_of (decode (take 4 buf)) ≡ header
      → header_of (decode (take 4 (buf ++ more))) ≡ header
      → drop 4 (buf ++ more) ≡ drop 4 buf ++ more
      → leb 4 (length buf) ≡ true
      → leb 4 (length (buf ++ more)) ≡ true
      → ((rest : List ℕ) (o : ℕ)
          → Settles (prefix_loop decode f rest o) (prefix_loop decode g (rest ++ more) o))
      → Settles
          (prefix_loop decode (suc f) buf offset)
          (prefix_loop decode (suc g) (buf ++ more) offset)
  unfolding prefix_loop
  header_Settles f g buf more o flush_header e k d h l ih = rw (h, l, e, k, prefix_loop) (inr refl)
  header_Settles f g buf more o delim_header e k d h l ih = rw (h, l, e, k, prefix_loop) (inr refl)
  header_Settles f g buf more o response_end_header e k d h l ih =
      rw (h, l, e, k, prefix_loop) (inr refl)
  header_Settles f g buf more o malformed e k d h l ih = rw (h, l, e, k, prefix_loop) (inr refl)
  header_Settles f g buf more o (payload_of n) e k d h l ih =
      elim (Bool-cases (leb n (length (drop 4 buf)))) [
        | inr short ↦ rw (h, e, short, prefix_loop) (inl refl)
        | inl fits ↦
            payload_Settles f g n buf more o h l e k d fits (ih (drop n (drop 4 buf)) (o + 4 + n))
      ]

  loop_Settles :
      (f g : ℕ) (buf more : List ℕ) (offset : ℕ)
      → f ≤ g
      → Settles (prefix_loop decode f buf offset) (prefix_loop decode g (buf ++ more) offset)
  unfolding prefix_loop
  loop_Settles zero g buf more o h = inl refl
  loop_Settles (suc f) zero buf more o h = absurd (omega arith)
  loop_Settles (suc f) (suc g) buf more o h = elim (Bool-cases (leb 4 (length buf))) [
    | inr short ↦ inl (rw (short, prefix_loop) refl)
    | inl y ↦
        let enough : 4 ≤ length buf = ground arith in
        header_Settles f g buf more o (header_of (decode (take 4 buf))) refl
          (ap (λ s. header_of (decode s)) (take-append 4 buf more enough))
          (drop-append 4 buf more enough) y (ground (arith, length-append buf more))
          (λ rest p. loop_Settles f g rest more p (omega arith))
  ]

  -- What has been decided of a buffer is decided in the same way of every longer one.
  pub prefix-append :
      (buf more : List ℕ)
      → Settles
          (parse_pkt_section_prefix decode buf)
          (parse_pkt_section_prefix decode (buf ++ more))
  unfolding parse_pkt_section_prefix
  prefix-append buf more =
      loop_Settles (length buf) (length (buf ++ more)) buf more 0
        (omega (arith, length-append buf more))

  -- The offset of a section lies in the buffer.
  header_le :
      (f : ℕ) (buf : List ℕ) (offset : ℕ) (lines : List (List ℕ)) (end : ℕ) (header : Header)
      → header_of (decode (take 4 buf)) ≡ header
      → leb 4 (length buf) ≡ true
      → ((rest : List ℕ) (o : ℕ) (ls : List (List ℕ))
          → prefix_loop decode f rest o ≡ parsed ls end
          → end ≤ o + length rest)
      → prefix_loop decode (suc f) buf offset ≡ parsed lines end
      → end ≤ offset + length buf
  unfolding prefix_loop
  header_le f buf o lines end flush_header e h ih p = ground (arith, rw (h, e, prefix_loop) at p)
  header_le f buf o lines end delim_header e h ih p =
      absurd (ground (arith, rw (h, e, prefix_loop) at p))
  header_le f buf o lines end response_end_header e h ih p =
      absurd (ground (arith, rw (h, e, prefix_loop) at p))
  header_le f buf o lines end malformed e h ih p =
      absurd (ground (arith, rw (h, e, prefix_loop) at p))
  header_le f buf o lines end (payload_of n) e h ih p =
      elim (Bool-cases (leb n (length (drop 4 buf)))) [
        | inr short ↦ absurd (ground (arith, rw (h, e, short, prefix_loop) at p))
        | inl fits ↦
            let (ls, q) =
              add_line_parsed (chomp (decode (take n (drop 4 buf))))
                (prefix_loop decode f (drop n (drop 4 buf)) (o + 4 + n)) lines end
                (rw (h, e, fits, prefix_loop) at p) in
            ground (
              arith,
              ih (drop n (drop 4 buf)) (o + 4 + n) ls q,
              length-drop n (drop 4 buf),
              length-drop 4 buf,
            )
      ]
    where
      add_line_parsed :
          (l : List ℕ) (p : ParsedPktSection) (lines : List (List ℕ)) (end : ℕ)
          → add_line l p ≡ parsed lines end
          → (ls : List (List ℕ)) × (p ≡ parsed ls end)
      add_line_parsed l (parsed ls o) lines end e = (ls, ground arith)
      add_line_parsed l incomplete lines end e = absurd (ground arith)
      add_line_parsed l (invalid r) lines end e = absurd (ground arith)

  loop_le :
      (f : ℕ) (buf : List ℕ) (offset : ℕ) (lines : List (List ℕ)) (end : ℕ)
      → prefix_loop decode f buf offset ≡ parsed lines end
      → end ≤ offset + length buf
  unfolding prefix_loop
  loop_le zero buf o lines end p = absurd (ground arith)
  loop_le (suc f) buf o lines end p = elim (Bool-cases (leb 4 (length buf))) [
    | inr short ↦ absurd (ground (arith, rw (short, prefix_loop) at p))
    | inl y ↦
        header_le f buf o lines end (header_of (decode (take 4 buf))) refl y
          (λ rest q ls. loop_le f rest q ls end) p
  ]

  pub offset-le :
      (buf : List ℕ) (lines : List (List ℕ)) (end : ℕ)
      → parse_pkt_section_prefix decode buf ≡ parsed lines end
      → end ≤ length buf
  unfolding parse_pkt_section_prefix
  offset-le buf lines end p = omega (arith, loop_le (length buf) buf 0 lines end p)
