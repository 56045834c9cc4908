-- ===== src/Idx/Write/Offsets.antt =====
-- The two tables of offsets.
use gitedge.Shared.{
  ℕ, zero, suc, ◌+◌, ◌*◌, ◌≤◌, ◌<◌, ◌≡◌, ◌⊎◌, refl, ap, ◌∙◌, List, [], ◌∷◌, leb, length, get_or,
  All, Bool-cases, inl, inr, arith,
}
use gitedge.Idx.Write.{PackEntry, entry_at, offset_words, large_words}
use gitedge.Idx.Write.Bytes.{AreWords}

-- An offset stands in the first table, or in the second one at the place that the first one tells.
abbrev pub IsStored : ℕ → ℕ → List ℕ → ℕ → Type 0
IsStored word offset larges large =
    ((word ≡ offset) × (offset < 2147483648))
    ⊎ ((k : ℕ) × (word ≡ 2147483648 + (large + k))
        × (large + k < 2147483648)
        × (suc (2 * k) < length larges)
        × (get_or larges (2 * k) 0 ≡ 0)
        × (get_or larges (suc (2 * k)) 0 ≡ offset))

abbrev pub HasOffsets : List PackEntry → Type 0
HasOffsets es = All (λ e. e.offset < 4294967296) es

pub length-offset_words :
    (large : ℕ) (es : List PackEntry) → length (offset_words large es) ≡ length es
unfolding offset_words
length-offset_words large [] = refl
length-offset_words large (e ∷ es) =
    ground (arith, length-offset_words large es, length-offset_words (large + 1) es)

pub offset_words-AreWords :
    (large : ℕ) (es : List PackEntry) → HasOffsets es → AreWords (offset_words large es)
unfolding offset_words
offset_words-AreWords large [] h = tt
offset_words-AreWords large (e ∷ es) (p, h) = elim (Bool-cases (leb 2147483648 e.offset)) [
  | inl y ↦ rw y (omega arith, offset_words-AreWords (large + 1) es h)
  | inr n ↦ rw n (p, offset_words-AreWords large es h)
]

pub large_words-AreWords : (es : List PackEntry) → HasOffsets es → AreWords (large_words es)
unfolding large_words
large_words-AreWords [] h = tt
large_words-AreWords (e ∷ es) (p, h) = elim (Bool-cases (leb 2147483648 e.offset)) [
  | inl y ↦ rw y (omega arith, (p, large_words-AreWords es h))
  | inr n ↦ rw n (large_words-AreWords es h)
]

pub offset_words-IsStored :
    (large : ℕ) (es : List PackEntry) (i : ℕ)
    → i < length es
    → large + length es ≤ 2147483648
    → IsStored (get_or (offset_words large es) i 0) (entry_at es i).offset (large_words es) large
unfolding offset_words large_words
offset_words-IsStored large [] i h l = absurd (omega arith)
offset_words-IsStored large (e ∷ es) zero h l = elim (Bool-cases (leb 2147483648 e.offset)) [
  | inl y ↦ rw y (inr (0, omega arith, omega arith, omega arith, refl, refl))
  | inr n ↦ rw n (inl (refl, ground arith))
]
offset_words-IsStored large (e ∷ es) (suc i) h l = elim (Bool-cases (leb 2147483648 e.offset)) [
  | inl y ↦ rw y (
      later e.offset (get_or (offset_words (large + 1) es) i 0) (entry_at es i).offset
        (large_words es) large (offset_words-IsStored (large + 1) es i (omega arith) (omega arith)))
  | inr n ↦ rw n (offset_words-IsStored large es i (omega arith) (omega arith))
]
  where
    later :
        (o word offset : ℕ) (larges : List ℕ) (large : ℕ)
        → IsStored word offset larges (large + 1)
        → IsStored word offset (0 ∷ o ∷ larges) large
    later o word offset larges large (inl h) = inl h
    later o word offset larges large (inr (k, a, b, c, d, f)) =
        let at : 2 * suc k ≡ suc (suc (2 * k)) = omega arith in
        inr (
          suc k,
          omega arith,
          omega arith,
          omega arith,
          ap (λ j. get_or (0 ∷ o ∷ larges) j 0) at ∙ d,
          ap (λ j. get_or (0 ∷ o ∷ larges) (suc j) 0) at ∙ f,
        )
