-- ===== src/Ownership/Shares.antt =====
-- internal/store/singbox.go: the rows that stand in the order of a user, and their groups.
use mathlib.Core.List.{Memᴰ}
use qing_zhou.Common.{
  ℕ, ◌≡◌, refl, inl, inr, Bool, true, false, not, Option, none, some, List, [], ◌∷◌, ◌++◌, map, ltb,
  select, last, last-passes, All, All-of_Memᴰ, Memᴰ-select, Bool-cases, if◌then◌else◌, ◌<◌, ltb→lt,
}
use qing_zhou.Bucket.{Bucket, can_carry}
use qing_zhou.Ownership.{
  OwnedBucket, all_plan_groups, groups_of, own, free_share, pool_share, sort_plans, is_live_plan,
  is_live_pool, is_live_free, is_empty, order_buckets,
}
use qing_zhou.Ownership.Ranking.{sort_plans-All, select-All, select-passes}
use qing_zhou.Ownership.Metered.{last-Memᴰ}

-- A row of these rows that is in service: a plan that can carry traffic, with its groups; the free row,
-- with the free group alone; or a pool that can carry traffic, with the groups of the valid plans.
pub data IsEntitled (free_group : ℕ) (plan_groups : ℕ → List ℕ) (now : ℕ) (rows : List Bucket)
    : OwnedBucket → Type 0 where
  plan :
      (b : Bucket)
      → Memᴰ b rows
      → is_live_plan b ≡ true
      → can_carry now b ≡ true
      → IsEntitled free_group plan_groups now rows (record {
        bucket = b;
        groups =
            groups_of free_group plan_groups (all_plan_groups free_group plan_groups now rows) b;
      })
  free :
      (b : Bucket)
      → Memᴰ b rows
      → is_live_free b ≡ true
      → 0 < free_group
      → IsEntitled free_group plan_groups now rows (record { bucket = b; groups = free_group ∷ [] })
  pool :
      (b : Bucket)
      → Memᴰ b rows
      → is_live_pool b ≡ true
      → can_carry now b ≡ true
      → IsEntitled free_group plan_groups now rows
          (record { bucket = b; groups = all_plan_groups free_group plan_groups now rows })

All-append {ℓ κ} :
    {A : Type ℓ} (P : A → Type κ) (xs ys : List A) → All P xs → All P ys → All P (xs ++ ys)
All-append P [] ys h k = k
All-append P (x ∷ xs) ys h k = (h.0, All-append P xs ys h.1 k)

module _ (free_group : ℕ) (plan_groups : ℕ → List ℕ) (now : ℕ) (rows : List Bucket) where
  abbrev Entitled : OwnedBucket → Type 0
  Entitled = IsEntitled free_group plan_groups now rows

  plans-IsEntitled :
      (plans : List Bucket)
      → All (λ (b : Bucket). Memᴰ b rows) plans
      → All (λ (b : Bucket). is_live_plan b ≡ true) plans
      → All (λ (b : Bucket). can_carry now b ≡ true) plans
      → All Entitled
          (map (own free_group plan_groups (all_plan_groups free_group plan_groups now rows)) plans)
  unfolding own
  plans-IsEntitled [] mine live carries = tt
  plans-IsEntitled (b ∷ plans) mine live carries =
      (IsEntitled.plan b mine.0 live.0 carries.0, plans-IsEntitled plans mine.1 live.1 carries.1)

  free_share-IsEntitled :
      (free : Option Bucket)
      → last is_live_free rows ≡ free
      → All Entitled (free_share free_group plan_groups free)
  unfolding free_share
  free_share-IsEntitled none f = tt
  free_share-IsEntitled (some b) f = elim (Bool-cases (ltb 0 free_group)) [
    | inl there ↦ rw there (
      IsEntitled.free b (last-Memᴰ is_live_free rows f) (last-passes is_live_free rows f)
          (ltb→lt 0 free_group there),
      tt,
    )
    | inr missing ↦ rw missing tt
  ]

  pool_share-IsEntitled :
      (pool : Option Bucket)
      → last is_live_pool rows ≡ pool
      → All Entitled (
          pool_share free_group plan_groups now
            (all_plan_groups free_group plan_groups now rows)
            pool)
  unfolding pool_share
  pool_share-IsEntitled none p = tt
  pool_share-IsEntitled (some b) p = elim (Bool-cases (can_carry now b)) [
    | inl carries ↦ rw carries (kept (is_empty all) carries)
    | inr spent ↦ rw spent tt
  ]
    where
      all : List ℕ
      all = all_plan_groups free_group plan_groups now rows

      kept :
          (e : Bool)
          → can_carry now b ≡ true
          → All Entitled (if not e then record { bucket = b; groups = all } ∷ [] else [])
      kept true carries = tt
      kept false carries = (
        IsEntitled.pool b (last-Memᴰ is_live_pool rows p) (last-passes is_live_pool rows p) carries,
        tt,
      )

  pub order_buckets-IsEntitled : All Entitled (order_buckets free_group plan_groups rows now)
  unfolding order_buckets
  order_buckets-IsEntitled =
      let plans = select is_live_plan rows in
      let sorted = sort_plans plans in
      All-append Entitled _ _
        (plans-IsEntitled (select (can_carry now) sorted)
          (select-All _ (can_carry now) sorted (
            sort_plans-All _ plans
              (All-of_Memᴰ _ plans (λ b m. (Memᴰ-select is_live_plan rows m).0))))
          (select-All _ (can_carry now) sorted
            (sort_plans-All _ plans (select-passes is_live_plan rows)))
          (select-passes (can_carry now) sorted))
        (All-append Entitled _ _ (free_share-IsEntitled (last is_live_free rows) refl)
          (pool_share-IsEntitled (last is_live_pool rows) refl))
