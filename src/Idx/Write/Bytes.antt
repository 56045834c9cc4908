-- ===== src/Idx/Write/Bytes.antt =====
-- Numbers and tables of numbers at their places in a buffer.
use gitedge.Shared.{
  ℕ, zero, suc, ◌+◌, ◌*◌, ◌<◌, ◌≡◌, refl, sym, ap, ◌∙◌, List, [], ◌∷◌, ◌++◌, length, length-append,
  get_or, All, arith,
}
use mathlib.Core.List.{append_assoc}
use gitedge.Shared.Positions.{get_or-right}
use gitedge.Idx.{get_uint32}
use gitedge.Idx.Write.{uint32_bytes, words}

uint32_lem : (n : ℕ) (post : List ℕ) → n < 4294967296 → get_uint32 (uint32_bytes n ++ post) 0 ≡ n
unfolding get_uint32 uint32_bytes
uint32_lem n post h = omega arith

get_uint32-right :
    (pre post : List ℕ) (k : ℕ) → get_uint32 (pre ++ post) (length pre + k) ≡ get_uint32 post k
unfolding get_uint32
get_uint32-right pre post k =
    let at : (i : ℕ) → get_or (pre ++ post) (length pre + k + i) 0 ≡ get_or post (k + i) 0 = λ i.
      ap (λ j. get_or (pre ++ post) j 0) {y = length pre + (k + i)} (omega arith)
      ∙ get_or-right pre post (k + i) 0 in
    rw (get_or-right pre post k 0, at 1, at 2, at 3) refl

-- A number behind `pre`.
pub get_uint32-at :
    (pre : List ℕ) (n : ℕ) (post : List ℕ)
    → n < 4294967296
    → get_uint32 (pre ++ (uint32_bytes n ++ post)) (length pre) ≡ n
get_uint32-at pre n post h =
    ap (get_uint32 (pre ++ (uint32_bytes n ++ post))) {y = length pre + 0} (omega arith)
    ∙ get_uint32-right pre (uint32_bytes n ++ post) 0
    ∙ uint32_lem n post h

abbrev pub AreWords : List ℕ → Type 0
AreWords ns = All (λ n. n < 4294967296) ns

pub length-words : (ns : List ℕ) → length (words ns) ≡ length ns * 4
unfolding words uint32_bytes
length-words [] = omega arith
length-words (n ∷ ns) = omega (arith, length-words ns)

-- An entry of a table behind `pre`.
pub get_uint32-words :
    (pre ns post : List ℕ) (i : ℕ)
    → AreWords ns
    → i < length ns
    → get_uint32 (pre ++ (words ns ++ post)) (length pre + i * 4) ≡ get_or ns i 0
unfolding words
get_uint32-words pre [] post i h l = absurd (omega arith)
get_uint32-words pre (n ∷ ns) post zero (small, h) l =
    ap (λ b. get_uint32 (pre ++ b) (length pre + 0 * 4))
      (append_assoc (uint32_bytes n) (words ns) post)
    ∙ ap (get_uint32 (pre ++ (uint32_bytes n ++ (words ns ++ post)))) {y = length pre} (omega arith)
    ∙ get_uint32-at pre n (words ns ++ post) small
get_uint32-words pre (n ∷ ns) post (suc i) (small, h) l =
    let pre' = pre ++ uint32_bytes n in
    let long : length pre' ≡ length pre + 4 =
      length-append pre (uint32_bytes n) ∙ unfold uint32_bytes in refl in
    ap (λ b. get_uint32 (pre ++ b) (length pre + suc i * 4))
      (append_assoc (uint32_bytes n) (words ns) post)
    ∙ ap (λ b. get_uint32 b (length pre + suc i * 4))
        (sym (append_assoc pre (uint32_bytes n) (words ns ++ post)))
    ∙ ap (get_uint32 (pre' ++ (words ns ++ post))) {y = length pre' + i * 4} (omega (arith, long))
    ∙ get_uint32-words pre' ns post i h (omega arith)
