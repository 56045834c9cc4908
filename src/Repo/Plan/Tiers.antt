-- ===== src/Repo/Plan/Tiers.antt =====
-- The counts of the tiers, and the tier that a plan compacts.
use gitedge.Shared.{
  ℕ, ◌+◌, ◌≤◌, ◌<◌, ◌≡◌, refl, sym, ◌∙◌, Bool, true, false, List, [], ◌∷◌, none, some, ltb, leb,
  ◌==◌, if◌then◌else◌, length, keep, find, All, All-map, find-All, find-none, keep-none, Bool-cases,
  inl, inr, arith,
}
use gitedge.Shared.Sort.{sort_by-All, sort_by-IsSorted, count-sort_by, IsSorted}
use mathlib.Core.Option.{some-injective}
use gitedge.Repo.State.{PackCatalogRow}
use gitedge.Repo.Plan.{
  CompactionTierState, compaction_fan_in, count_tier, count_tiers, summarize_tier_counts,
  overflowing_tier,
}

-- The number of packs of a tier.
abbrev pub tier_size : ℕ → List PackCatalogRow → ℕ
tier_size tier catalog = length (keep (λ pack. pack.tier == tier) catalog)

tier_count : ℕ → List CompactionTierState → ℕ
tier_count tier [] = 0
tier_count tier (c ∷ cs) = if c.tier == tier then c.active_pack_count else tier_count tier cs

tier_count-count_tier :
    (u t : ℕ) (cs : List CompactionTierState)
    → tier_count t (count_tier u cs) ≡ tier_count t cs + (if u == t then 1 else 0)
unfolding tier_count count_tier
tier_count-count_tier u t [] = ground arith
tier_count-count_tier u t (c ∷ cs) = ground (arith, tier_count-count_tier u t cs)

tier_count-count_tiers :
    (t : ℕ) (packs : List PackCatalogRow) (cs : List CompactionTierState)
    → tier_count t (count_tiers packs cs) ≡ tier_count t cs + tier_size t packs
unfolding count_tiers
tier_count-count_tiers t [] cs = omega arith
tier_count-count_tiers t (p ∷ packs) cs = ground (
  arith,
  tier_count-count_tiers t packs (count_tier p.tier cs),
  tier_count-count_tier p.tier t cs,
)

-- Each tier stands once, with a pack at least.
abbrev IsCounts : List CompactionTierState → Type 0
IsCounts [] = Unit
IsCounts (c ∷ cs) = (0 < c.active_pack_count) × (tier_count c.tier cs ≡ 0) × IsCounts cs

count_tier-IsCounts :
    (u : ℕ) (cs : List CompactionTierState) → IsCounts cs → IsCounts (count_tier u cs)
unfolding tier_count count_tier
count_tier-IsCounts u [] h = omega arith
count_tier-IsCounts u (c ∷ cs) h =
    ground (arith, tier_count-count_tier u c.tier cs, count_tier-IsCounts u cs)

count_tiers-IsCounts :
    (packs : List PackCatalogRow) (cs : List CompactionTierState)
    → IsCounts cs
    → IsCounts (count_tiers packs cs)
unfolding count_tiers
count_tiers-IsCounts [] cs h = h
count_tiers-IsCounts (p ∷ packs) cs h =
    count_tiers-IsCounts packs (count_tier p.tier cs) (count_tier-IsCounts p.tier cs h)

abbrev Counted : List CompactionTierState → CompactionTierState → Type 0
Counted cs c = (tier_count c.tier cs ≡ c.active_pack_count) × (0 < c.active_pack_count)

IsCounts-Counted : (cs : List CompactionTierState) → IsCounts cs → All (Counted cs) cs
unfolding tier_count
IsCounts-Counted [] h = tt
IsCounts-Counted (c ∷ cs) (pos, fresh, h) = (
  ground arith,
  All-map (Counted cs) (Counted (c ∷ cs)) (λ d k. ground arith) cs (IsCounts-Counted cs h),
)

abbrev over : CompactionTierState → Bool
over t = ltb compaction_fan_in t.active_pack_count

abbrev over_at : ℕ → CompactionTierState → Bool
over_at tier c = if c.tier == tier then over c else false

-- Each entry of the summary counts the packs of its tier.
summary-counts :
    (catalog : List PackCatalogRow)
    → All (λ c. tier_size c.tier catalog ≡ c.active_pack_count) (summarize_tier_counts catalog)
unfolding summarize_tier_counts
summary-counts catalog =
    sort_by-All _ (λ c. tier_size c.tier catalog ≡ c.active_pack_count) (count_tiers catalog [])
      (All-map (Counted (count_tiers catalog [])) _
        (λ c k. omega (arith, k.0, tier_count-count_tiers c.tier catalog [], zero_count c.tier))
        (count_tiers catalog []) (IsCounts-Counted _ (count_tiers-IsCounts catalog [] tt)))
  where
    zero_count : (t : ℕ) → tier_count t [] ≡ 0
    zero_count t = unfold tier_count in refl

over_at-none :
    (tier : ℕ) (cs : List CompactionTierState)
    → length (keep (over_at tier) cs) ≡ 0
    → tier_count tier cs ≤ compaction_fan_in
unfolding tier_count
over_at-none tier [] h = omega arith
over_at-none tier (c ∷ cs) h = ground (arith, over_at-none tier cs)

-- A tier that no overflowing entry of the summary names is within the policy.
tier_within :
    (tier : ℕ) (catalog : List PackCatalogRow)
    → All (λ c. over_at tier c ≡ false) (summarize_tier_counts catalog)
    → tier_size tier catalog ≤ compaction_fan_in
unfolding summarize_tier_counts
tier_within tier catalog h = omega (
  arith,
  over_at-none tier (count_tiers catalog []) (
      sym (count-sort_by _ (over_at tier) (count_tiers catalog [])) ∙ keep-none (over_at tier) _ h),
  tier_count-count_tiers tier catalog [],
)

-- No plan is made for a tier within the policy, and none is made if all tiers are.
pub overflowing-none :
    (catalog : List PackCatalogRow)
    → overflowing_tier catalog ≡ none
    → (tier : ℕ) → tier_size tier catalog ≤ compaction_fan_in
unfolding overflowing_tier
overflowing-none catalog e tier = tier_within tier catalog (
    All-map (λ c. over c ≡ false) _ (λ c k. ground arith) (summarize_tier_counts catalog)
      (find-none over _ e))

-- The tier that a plan takes has more packs than the policy allows.
pub overflowing-some :
    (catalog : List PackCatalogRow) (t : CompactionTierState)
    → overflowing_tier catalog ≡ some t
    → (compaction_fan_in < tier_size t.tier catalog)
      × (tier_size t.tier catalog ≡ t.active_pack_count)
unfolding overflowing_tier
overflowing-some catalog t e =
    let (size, big) =
      find-All over (λ c. tier_size c.tier catalog ≡ c.active_pack_count)
        (summarize_tier_counts catalog) t (summary-counts catalog) e in
    (ground (arith, size, big), size)

find-first :
    (cs : List CompactionTierState) (t : CompactionTierState) (tier : ℕ)
    → IsSorted (λ l r. leb l.tier r.tier) cs
    → find over cs ≡ some t
    → tier < t.tier
    → All (λ c. over_at tier c ≡ false) cs
find-first [] t tier h e lt = tt
find-first (c ∷ cs) t tier (h, k) e lt = elim (Bool-cases (over c)) [
  | inl o ↦
      let same : c ≡ t = some-injective c t (rw o at e) in
      let below : tier < c.tier = rw same lt in
      (
        ground arith,
        All-map (λ d. leb c.tier d.tier ≡ true) (λ d. over_at tier d ≡ false) (λ d l. ground arith)
            cs h,
      )
  | inr o ↦ (ground arith, find-first cs t tier k (rw o at e) lt)
]

-- It is the lowest such tier.
pub overflowing-lowest :
    (catalog : List PackCatalogRow) (t : CompactionTierState)
    → overflowing_tier catalog ≡ some t
    → (tier : ℕ) → tier < t.tier
    → tier_size tier catalog ≤ compaction_fan_in
unfolding overflowing_tier
overflowing-lowest catalog t e tier lt =
    tier_within tier catalog (find-first (summarize_tier_counts catalog) t tier sorted e lt)
  where
    sorted : IsSorted (λ l r. leb l.tier r.tier) (summarize_tier_counts catalog)
    sorted =
        unfold summarize_tier_counts in
        sort_by-IsSorted (λ l r. leb l.tier r.tier) (λ x y h. ground arith)
          (λ x y z h k. ground arith) (count_tiers catalog [])
