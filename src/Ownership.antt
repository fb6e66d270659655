-- ===== src/Ownership.antt =====
-- internal/store/singbox.go: in which order a user's rows own nodes, `orderBuckets` and `pickOwner`,
-- and `accountMeterBucket` of proxyaccount.go, the row that an account's own login spends. The rows
-- with package 0 stand for every grant without a package.
pub mod Ranking
pub mod Metered
pub mod Owners
pub mod Shares
pub mod Entitled
use qing_zhou.Common.{
  ℕ, ◌+◌, Bool, true, false, not, ◌&&◌, ◌||◌, Option, none, some, List, [], ◌∷◌, ◌++◌, map, ltb,
  ◌==◌, any, select, first, last, if◌then◌else◌,
}
use qing_zhou.Common.Int.{ℤ, pos, negsuc, ltb_ℤ}
use qing_zhou.Bucket.{Bucket, is_plan, is_pool, is_free, is_queued, is_zero, can_carry, not_expired}
use qing_zhou.Store.{Db}

-- `ownedBucket`
pub record OwnedBucket : Type 0 where
  pub bucket : Bucket
  pub groups : List ℕ

abbrev pub max_int64 : ℕ
max_int64 = 9223372036854775807

-- a row that never expires sorts after the dated ones
unfoldable pub expiry_rank : ℤ → ℤ
expiry_rank e = if is_zero e then pos max_int64 else e

-- the less function of the sort
unfoldable pub ranks_before : Bucket → Bucket → Bool
unfolding expiry_rank
ranks_before a b =
    let x = expiry_rank a.expiry_at in
    let y = expiry_rank b.expiry_at in ltb_ℤ x y || not (ltb_ℤ y x) && ltb a.id b.id

unfoldable pub insert_ranked : Bucket → List Bucket → List Bucket
unfolding ranks_before
insert_ranked a [] = a ∷ []
insert_ranked a (b ∷ bs) = if ranks_before b a then b ∷ insert_ranked a bs else a ∷ b ∷ bs

-- `sort.Slice`; ids are distinct, so the order of the result is the only one
unfoldable pub sort_plans : List Bucket → List Bucket
unfolding insert_ranked
sort_plans [] = []
sort_plans (b ∷ bs) = insert_ranked b (sort_plans bs)

-- the rows that the first loop leaves in `plans`
abbrev pub is_live_plan : Bucket → Bool
is_live_plan b = not (is_queued b.status) && is_plan b.kind

abbrev pub is_live_pool : Bucket → Bool
is_live_pool b = not (is_queued b.status) && is_pool b.kind

abbrev pub is_live_free : Bucket → Bool
is_live_free b = not (is_queued b.status) && is_free b.kind

abbrev pub is_empty : List ℕ → Bool
is_empty [] = true
is_empty (_ ∷ _) = false

module _ (free_group : ℕ) (plan_groups : ℕ → List ℕ) where
  -- `allPlanGroups`: the groups of the plans that are valid, used up or not
  unfoldable pub all_plan_groups : ℕ → List Bucket → List ℕ
  all_plan_groups now [] = []
  all_plan_groups now (b ∷ bs) =
      (if is_live_plan b && (ltb 0 b.traffic_limit && not_expired now b)
        then plan_groups b.package_id
        else [])
      ++ all_plan_groups now bs

  -- the groups of a plan in the order; a grant has those of the user's plans, and the free group
  unfoldable pub groups_of : List ℕ → Bucket → List ℕ
  groups_of all b =
      if b.package_id == 0
      then (if ltb 0 free_group then free_group ∷ [] else []) ++ all
      else plan_groups b.package_id

  unfoldable pub own : List ℕ → Bucket → OwnedBucket
  unfolding groups_of
  own all b = record { bucket = b; groups = groups_of all b }

  unfoldable pub free_share : Option Bucket → List OwnedBucket
  free_share none = []
  free_share (some b) =
      if ltb 0 free_group then record { bucket = b; groups = free_group ∷ [] } ∷ [] else []

  unfoldable pub pool_share : ℕ → List ℕ → Option Bucket → List OwnedBucket
  pool_share now all none = []
  pool_share now all (some b) =
      if can_carry now b && not (is_empty all) then record { bucket = b; groups = all } ∷ [] else []

  -- `orderBuckets`, on the user's rows in the order of their ids
  unfoldable pub order_buckets : List Bucket → ℕ → List OwnedBucket
  unfolding all_plan_groups own free_share pool_share sort_plans
  order_buckets bs now =
      let all = all_plan_groups now bs in
      map (own all) (select (can_carry now) (sort_plans (select is_live_plan bs)))
      ++ (free_share (last is_live_free bs) ++ pool_share now all (last is_live_pool bs))

  -- `userBucketOrder`
  unfoldable pub user_bucket_order : ℕ → ℕ → Db → List OwnedBucket
  unfolding order_buckets
  user_bucket_order user_id now db =
      order_buckets (select (λ (b : Bucket). b.user_id == user_id) db.user_plans) now

  -- `accountMeterBucket`; `none` for a user with nothing chargeable
  unfoldable pub account_meter_bucket : ℕ → ℕ → Db → Option OwnedBucket
  unfolding user_bucket_order
  account_meter_bucket user_id now db =
      first (λ (o : OwnedBucket). not (is_free o.bucket.kind)) (user_bucket_order user_id now db)

-- `pickOwner`
unfoldable pub pick_owner : List OwnedBucket → List ℕ → ℕ → Option OwnedBucket
pick_owner ord inbound_groups group_count =
    if group_count == 0
    then none
    else first (λ (o : OwnedBucket). any (λ g. any (λ h. h == g) o.groups) inbound_groups) ord
