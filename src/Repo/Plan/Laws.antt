-- ===== src/Repo/Plan/Laws.antt =====
-- When a compaction is planned, and what it takes.
use gitedge.Shared.{
  ℕ, ◌+◌, ◌≤◌, ◌<◌, ◌≡◌, refl, sym, ◌∙◌, ◌↔◌, Bool, true, false, List, [], ◌∷◌, ◌++◌,
  take-append-drop, none, some, leb, ◌==◌, length, take, drop, keep, All, All-map, All-take,
  Bool-cases, Option-cases, inl, inr, length-take, arith,
}
use mathlib.Core.Path.{subst}
use mathlib.Core.List.{Perm}
use mathlib.Core.Option.{some-injective, none-ne-some}
use gitedge.Shared.Sort.{
  sort_by-All, sort_by-IsSorted, sort_by-Perm, length-sort_by, take-before-drop,
}
use gitedge.Repo.State.{PackCatalogRow}
use gitedge.Repo.Plan.{
  CompactionPlan, CompactionTierState, compaction_fan_in, packs_of_tier, overflowing_tier,
  summarize_tier_counts, sum_source_bytes, sum_source_objects, select_compaction_plan,
  catalog_needs_compaction,
}
use gitedge.Repo.Plan.Tiers.{tier_size, overflowing-none, overflowing-some, overflowing-lowest}

length-packs_of_tier :
    (tier : ℕ) (catalog : List PackCatalogRow)
    → length (packs_of_tier tier catalog) ≡ tier_size tier catalog
unfolding packs_of_tier
length-packs_of_tier tier catalog = length-sort_by _ _

source_packs : ℕ → List PackCatalogRow → List PackCatalogRow
source_packs tier catalog = take compaction_fan_in (packs_of_tier tier catalog)

length-source_packs :
    (tier : ℕ) (catalog : List PackCatalogRow)
    → compaction_fan_in < tier_size tier catalog
    → length (source_packs tier catalog) ≡ compaction_fan_in
unfolding source_packs
length-source_packs tier catalog h = omega (
  arith,
  length-take compaction_fan_in (packs_of_tier tier catalog),
  length-packs_of_tier tier catalog,
)

keep-All {ℓ} : {A : Type ℓ} (p : A → Bool) (xs : List A) → All (λ x. p x ≡ true) (keep p xs)
keep-All p [] = tt
keep-All p (x ∷ xs) = elim (Bool-cases (p x)) [
  | inl t ↦ rw t (t, keep-All p xs)
  | inr f ↦ rw f (keep-All p xs)
]

packs_of_tier-All :
    (tier : ℕ) (catalog : List PackCatalogRow)
    → All (λ p. p.tier ≡ tier) (packs_of_tier tier catalog)
unfolding packs_of_tier
packs_of_tier-All tier catalog =
    sort_by-All _ (λ p. p.tier ≡ tier) _
      (All-map (λ p. (p.tier == tier) ≡ true) _ (λ p h. ground arith) _ (keep-All _ catalog))

-- What a plan promises: the lowest tier over the policy, and four packs that are in the catalog, the
-- oldest of that tier, as the packs of the tier are these four and others that begin no earlier.
pub record IsPlan (catalog : List PackCatalogRow) (plan : CompactionPlan) : Type 0 where
  pub overflows : compaction_fan_in < tier_size plan.source_tier catalog
  pub lowest : (tier : ℕ) → tier < plan.source_tier → tier_size tier catalog ≤ compaction_fan_in
  pub next_tier : plan.target_tier ≡ plan.source_tier + 1
  pub fan_in : length plan.source_packs ≡ compaction_fan_in
  pub same_tier : All (λ p. p.tier ≡ plan.source_tier) plan.source_packs
  pub others : List PackCatalogRow
  pub split :
      Perm (plan.source_packs ++ others) (keep (λ pack. pack.tier == plan.source_tier) catalog)
  pub oldest : All (λ p. All (λ q. p.seq_lo ≤ q.seq_lo) others) plan.source_packs
  pub bytes : plan.source_bytes ≡ sum_source_bytes plan.source_packs
  pub objects : plan.source_objects ≡ sum_source_objects plan.source_packs

-- The packs that are taken and those that are left are the packs of the tier.
source-Perm :
    (tier : ℕ) (catalog : List PackCatalogRow)
    → Perm
        (source_packs tier catalog ++ drop compaction_fan_in (packs_of_tier tier catalog))
        (keep (λ pack. pack.tier == tier) catalog)
unfolding source_packs packs_of_tier
source-Perm tier catalog =
    let packs = packs_of_tier tier catalog in
    subst (λ xs. Perm xs (keep (λ pack. pack.tier == tier) catalog))
      (sym (take-append-drop compaction_fan_in packs))
      (sort_by-Perm (λ (l r : PackCatalogRow). leb l.seq_lo r.seq_lo)
        (keep (λ pack. pack.tier == tier) catalog))

oldest_first :
    (tier : ℕ) (catalog : List PackCatalogRow)
    → All
        (λ p. All (λ q. p.seq_lo ≤ q.seq_lo) (drop compaction_fan_in (packs_of_tier tier catalog)))
        (source_packs tier catalog)
unfolding source_packs packs_of_tier
oldest_first tier catalog =
    All-map _ _
      (λ p h.
        All-map (λ q. leb p.seq_lo q.seq_lo ≡ true) (λ q. p.seq_lo ≤ q.seq_lo) (λ q k. ground arith)
          _ h)
      _
      (take-before-drop (λ (l r : PackCatalogRow). leb l.seq_lo r.seq_lo) compaction_fan_in _
        (sort_by-IsSorted (λ (l r : PackCatalogRow). leb l.seq_lo r.seq_lo) (λ x y h. ground arith)
          (λ x y z h k. ground arith) (keep (λ pack. pack.tier == tier) catalog)))

planned : CompactionTierState → List PackCatalogRow → CompactionPlan
planned t catalog = record {
  source_tier = t.tier;
  target_tier = t.tier + 1;
  source_packs = source_packs t.tier catalog;
  source_bytes = sum_source_bytes (source_packs t.tier catalog);
  source_objects = sum_source_objects (source_packs t.tier catalog);
  tiers = summarize_tier_counts catalog;
}

planned-IsPlan :
    (t : CompactionTierState) (catalog : List PackCatalogRow)
    → overflowing_tier catalog ≡ some t
    → IsPlan catalog (planned t catalog)
unfolding planned
planned-IsPlan t catalog e =
    let (big, _) = overflowing-some catalog t e in
    record {
      overflows = big;
      lowest = overflowing-lowest catalog t e;
      next_tier = refl;
      fan_in = length-source_packs t.tier catalog big;
      same_tier =
          unfold source_packs in All-take _ compaction_fan_in _ (packs_of_tier-All t.tier catalog);
      others = drop compaction_fan_in (packs_of_tier t.tier catalog);
      split = source-Perm t.tier catalog;
      oldest = oldest_first t.tier catalog;
      bytes = refl;
      objects = refl;
    }

-- With an overflowing tier the guard on the number of packs never fails.
select-planned :
    (t : CompactionTierState) (catalog : List PackCatalogRow)
    → overflowing_tier catalog ≡ some t
    → select_compaction_plan catalog ≡ some (planned t catalog)
unfolding select_compaction_plan planned source_packs
select-planned t catalog e =
    let (big, _) = overflowing-some catalog t e in
    ground (arith, length-source_packs t.tier catalog big)

-- A plan takes the lowest tier that has more than four active packs, for the next tier. Its four packs
-- and some others are together, up to the order, the packs of that tier in the catalog, and none
-- of the others begins before one of the four. Its numbers of bytes and objects are the sums of
-- theirs.
pub select-IsPlan :
    (catalog : List PackCatalogRow) (plan : CompactionPlan)
    → select_compaction_plan catalog ≡ some plan
    → IsPlan catalog plan
select-IsPlan catalog plan h = elim (Option-cases (overflowing_tier catalog)) [
  | inl e ↦ absurd (none-ne-some plan (sym (select-none catalog e) ∙ h))
  | inr (t, e) ↦
      subst (IsPlan catalog)
        (some-injective (planned t catalog) plan (sym (select-planned t catalog e) ∙ h))
        (planned-IsPlan t catalog e)
]
  where
    select-none :
        (catalog : List PackCatalogRow)
        → overflowing_tier catalog ≡ none
        → select_compaction_plan catalog ≡ none
    select-none catalog e = unfold select_compaction_plan in ground arith

-- A catalog needs no compaction exactly when no tier has more than four active packs.
pub needs_no_compaction_iff :
    (catalog : List PackCatalogRow)
    → (catalog_needs_compaction catalog ≡ false)
      ↔ ((tier : ℕ) → tier_size tier catalog ≤ compaction_fan_in)
needs_no_compaction_iff catalog = elim (Option-cases (overflowing_tier catalog)) [
  | inl e ↦ (
    λ _. overflowing-none catalog e,
    λ _. unfold catalog_needs_compaction select_compaction_plan in ground arith,
  )
  | inr (t, e) ↦
      let made = select-planned t catalog e in
      let (big, _) = overflowing-some catalog t e in
      (
        λ h. absurd (unfold catalog_needs_compaction in ground arith),
        λ h. let small = h t.tier in absurd (omega arith),
      )
]
