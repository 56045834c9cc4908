-- ===== src/Idx/Write/Fanout.antt =====
-- The fanout: how many names have a first byte up to a given one.
use gitedge.Shared.{
  ℕ, zero, suc, ◌+◌, ◌≤◌, ◌<◌, ◌≡◌, refl, ap, ◌∙◌, Bool, true, false, List, [], ◌∷◌, ltb, leb,
  length, get_or, keep, length-keep-le, All, arith,
}
use gitedge.Idx.Write.{PackEntry, no_entry, first_byte, bucket, fanout_from}
use gitedge.Idx.Write.Bytes.{AreWords}

-- How many entries have a first byte of at most, or of less than, `b`.
abbrev pub count_to : List PackEntry → ℕ → ℕ
count_to entries b = length (keep (λ e. leb (first_byte e) b) entries)

abbrev pub count_below : List PackEntry → ℕ → ℕ
count_below entries b = length (keep (λ e. ltb (first_byte e) b) entries)

count_bucket : (es : List PackEntry) (b : ℕ) → count_to es b ≡ count_below es b + bucket es b
unfolding bucket
count_bucket [] b = omega arith
count_bucket (e ∷ es) b = ground (arith, count_bucket es b)

pub count-below_suc : (es : List PackEntry) (b : ℕ) → count_below es (suc b) ≡ count_to es b
count-below_suc [] b = refl
count-below_suc (e ∷ es) b = ground (arith, count-below_suc es b)

count-below_zero : (es : List PackEntry) → count_below es 0 ≡ 0
count-below_zero [] = refl
count-below_zero (e ∷ es) = ground (arith, count-below_zero es)

count_to-All :
    (es : List PackEntry) (b : ℕ) → All (λ e. first_byte e < suc b) es → count_to es b ≡ length es
count_to-All [] b h = refl
count_to-All (e ∷ es) b (p, h) = ground (arith, count_to-All es b h)

fanout_from-get :
    (es : List PackEntry) (b n cumulative i : ℕ)
    → cumulative ≡ count_below es b
    → i < n
    → get_or (fanout_from es b n cumulative) i 0 ≡ count_to es (b + i)
unfolding fanout_from
fanout_from-get es b zero c i e h = absurd (omega arith)
fanout_from-get es b (suc n) c zero e h =
    omega (arith, e, count_bucket es b) ∙ ap (count_to es) {x = b} {y = b + 0} (omega arith)
fanout_from-get es b (suc n) c (suc i) e h =
    fanout_from-get es (suc b) n (c + bucket es b) i
      (omega (arith, e, count_bucket es b, count-below_suc es b)) (omega arith)
    ∙ ap (count_to es) {x = suc b + i} {y = b + suc i} (omega arith)

length-fanout_from :
    (es : List PackEntry) (b n cumulative : ℕ) → length (fanout_from es b n cumulative) ≡ n
unfolding fanout_from
length-fanout_from es b zero c = refl
length-fanout_from es b (suc n) c = ap suc (length-fanout_from es (suc b) n (c + bucket es b))

fanout_from-AreWords :
    (es : List PackEntry) (b n cumulative : ℕ)
    → cumulative ≡ count_below es b
    → length es < 4294967296
    → AreWords (fanout_from es b n cumulative)
unfolding fanout_from
fanout_from-AreWords es b zero c e h = tt
fanout_from-AreWords es b (suc n) c e h = (
  omega (arith, e, count_bucket es b, length-keep-le (λ e. leb (first_byte e) b) es),
  fanout_from-AreWords es (suc b) n (c + bucket es b)
      (omega (arith, e, count_bucket es b, count-below_suc es b)) h,
)

abbrev pub fanout : List PackEntry → List ℕ
fanout es = fanout_from es 0 256 0

module _ (es : List PackEntry) where
  start : 0 ≡ count_below es 0
  start = omega (arith, count-below_zero es)

  pub fanout-get : (i : ℕ) → i < 256 → get_or (fanout es) i 0 ≡ count_to es i
  fanout-get i h =
      fanout_from-get es 0 256 0 i start h ∙ ap (count_to es) {x = 0 + i} {y = i} (omega arith)

  pub length-fanout : length (fanout es) ≡ 256
  length-fanout = length-fanout_from es 0 256 0

  pub fanout-AreWords : length es < 4294967296 → AreWords (fanout es)
  fanout-AreWords h = fanout_from-AreWords es 0 256 0 start h

  pub fanout-count : All (λ e. first_byte e < 256) es → get_or (fanout es) 255 0 ≡ length es
  fanout-count h = fanout-get 255 (omega arith) ∙ count_to-All es 255 h

-- An entry that the test fails on from position `k` on, or holds of up to `k`.
pub count-le_of_tail :
    (p : PackEntry → Bool) (es : List PackEntry) (k : ℕ)
    → ((j : ℕ) → k ≤ j → j < length es → p (get_or es j no_entry) ≡ false)
    → length (keep p es) ≤ k
count-le_of_tail p [] k h = omega arith
count-le_of_tail p (e ∷ es) zero h =
    let first = h 0 (omega arith) (omega arith) in
    let rest = count-le_of_tail p es 0 (λ j l u. h (suc j) (omega arith) (omega arith)) in
    rw first (omega (arith, rest))
count-le_of_tail p (e ∷ es) (suc k) h =
    let rest = count-le_of_tail p es k (λ j l u. h (suc j) (omega arith) (omega arith)) in
    ground (arith, rest)

pub lt-count_of_head :
    (p : PackEntry → Bool) (es : List PackEntry) (k : ℕ)
    → k < length es
    → ((j : ℕ) → j ≤ k → p (get_or es j no_entry) ≡ true)
    → k < length (keep p es)
lt-count_of_head p [] k l h = absurd (omega arith)
lt-count_of_head p (e ∷ es) zero l h = rw (h 0 (omega arith)) (omega arith)
lt-count_of_head p (e ∷ es) (suc k) l h =
    let rest = lt-count_of_head p es k (omega arith) (λ j u. h (suc j) (omega arith)) in
    rw (h 0 (omega arith)) (omega (arith, rest))
