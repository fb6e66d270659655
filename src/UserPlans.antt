-- ===== src/UserPlans.antt =====
-- internal/store/userplans.go: what an administrator does to one row of a user, `DeleteBucket` and
-- `AdjustBucketTraffic`, and the reversal of an order's row, `reverseOrderBucket`.
pub mod Rows
pub mod Adjusting
use qing_zhou.Common.{
  ℕ, ◌+◌, ◌-◌, ◌*◌, Bool, true, false, not, ◌&&◌, ◌||◌, Option, none, some, List, [], ◌∷◌, any,
  first, ltb, leb, ◌==◌, update_where, delete_where, if◌then◌else◌, larger,
}
use qing_zhou.Common.Int.{ℤ, pos, negsuc, ◌+ℤ◌, ◌-ℤ◌, ◌≤ℤ◌, ltb_ℤ, pos_part}
use qing_zhou.Result.{
  Result, ok, err, bucket_not_found, bucket_protected, zero_delta, traffic_floor, bucket_finished,
  fail_if, or_fail, ◌>>=◌, ◌>>◌,
}
use qing_zhou.Bucket.{
  Bucket, is_plan, is_free, is_active, is_queued, is_retired, not_expired, used, day,
}
use qing_zhou.Lines.{recompute_user_aggregate}
use qing_zhou.Queue.{advance_user_queues}
use qing_zhou.Store.{Db, Tx}

-- WHERE id=? AND user_id=?
abbrev pub is_own : ℕ → ℕ → Bucket → Bool
is_own user_id bucket_id b = b.id == bucket_id && b.user_id == user_id

-- what both end with: the queues advance, and the user's mirror is recomputed
unfoldable pub settle_user : ℕ → ℕ → Db → Db
unfolding advance_user_queues recompute_user_aggregate
settle_user user_id now db =
    recompute_user_aggregate user_id now (advance_user_queues user_id now db).0

-- `DeleteBucket`: the removed row
unfoldable pub delete_bucket : ℕ → ℕ → ℕ → Tx Bucket
unfolding settle_user
delete_bucket user_id bucket_id now db = do
  b ← or_fail (first (is_own user_id bucket_id) db.user_plans) bucket_not_found
  fail_if (is_free b.kind) bucket_protected
  let left = record db { user_plans = delete_where (is_own user_id bucket_id) db.user_plans }
  ok (b, settle_user user_id now left)

-- the UPDATE of `AdjustBucketTraffic`
unfoldable pub adjusted_bucket : ℤ → ℕ → ℕ → Bucket → Bucket
unfolding ◌+ℤ◌
adjusted_bucket delta new_limit now b = record b {
  traffic_limit = new_limit;
  period_base =
      if ltb 0 b.period_days && is_active b.status
      then pos_part (pos b.period_base +ℤ delta)
      else b.period_base;
  period_quota = if ltb 0 b.period_days && is_queued b.status then new_limit else b.period_quota;
  updated_at = now;
}

unfoldable pub is_finished : ℕ → Bucket → Bool
unfolding not_expired
is_finished now b = is_retired b.status || is_plan b.kind && not (not_expired now b)

-- the new limit, if it is not below what is used
unfoldable pub floor_limit : Bucket → ℤ → Result ℕ
floor_limit b (negsuc _) = err traffic_floor
floor_limit b (pos n) = if ltb n (used b) then err traffic_floor else ok n

abbrev is_nil : ℤ → Bool
is_nil (pos n) = n == 0
is_nil (negsuc _) = false

-- `AdjustBucketTraffic`: the row as it is afterwards
unfoldable pub adjust_bucket_traffic : ℕ → ℕ → ℤ → ℕ → Tx Bucket
unfolding is_finished floor_limit ◌+ℤ◌ adjusted_bucket settle_user
adjust_bucket_traffic user_id bucket_id delta now db = do
  fail_if (is_nil delta) zero_delta
  b ← or_fail (first (is_own user_id bucket_id) db.user_plans) bucket_not_found
  fail_if (is_free b.kind) bucket_protected
  fail_if (is_finished now b) bucket_finished
  new_limit ← floor_limit b (pos b.traffic_limit +ℤ delta)
  let db' = record db {
    user_plans =
        update_where (is_own user_id bucket_id) (adjusted_bucket delta new_limit now) db.user_plans;
  }
  let settled = settle_user user_id now db'
  updated ← or_fail (first (is_own user_id bucket_id) settled.user_plans) bucket_not_found
  ok (updated, settled)

-- the tail of `reversePlanBucket`: the row without one order's quota and duration, or no row
unfoldable pub shrink_bucket : ℕ → ℕ → ℕ → Bucket → Db → Db
unfolding ◌-ℤ◌
shrink_bucket traffic_bytes duration_days now b db =
    let new_limit = larger (b.traffic_limit - traffic_bytes) (used b) in
    let new_expiry = b.expiry_at -ℤ pos (duration_days * day) in
    if leb new_limit (used b) && not (ltb_ℤ (pos now) new_expiry)
    then record db { user_plans = delete_where (λ (r : Bucket). r.id == b.id) db.user_plans }
    else record db {
      user_plans =
          update_where (λ (r : Bucket). r.id == b.id)
            (λ (r : Bucket). record r {
              traffic_limit = new_limit;
              expiry_at = new_expiry;
              updated_at = now;
            })
            db.user_plans;
    }

-- `reversePlanBucket`
unfoldable pub reverse_plan_bucket : ℕ → ℕ → ℕ → ℕ → ℕ → Db → Db
unfolding shrink_bucket
reverse_plan_bucket user_id package_id traffic_bytes duration_days now db =
    elim (first
      (λ (b : Bucket). b.user_id == user_id && (is_plan b.kind && b.package_id == package_id))
      db.user_plans) [ none ↦ db | some b ↦ shrink_bucket traffic_bytes duration_days now b db ]

-- a row that may still hold several orders of an account from before the queues
abbrev pub is_merged : ℕ → Bucket → Bool
is_merged traffic_bytes b =
    b.period_days == 0
    && (is_active b.status && (ltb 0 traffic_bytes && ltb traffic_bytes b.traffic_limit))

-- `reverseOrderBucket`
unfoldable pub reverse_order_bucket : ℕ → ℕ → ℕ → ℕ → ℕ → ℕ → Db → Db
unfolding reverse_plan_bucket advance_user_queues
reverse_order_bucket order_id user_id package_id traffic_bytes duration_days now db =
    elim (first (λ (b : Bucket). is_plan b.kind && (b.user_id == user_id && b.order_id == order_id))
      db.user_plans) [
        | none ↦ reverse_plan_bucket user_id package_id traffic_bytes duration_days now db
        | some b ↦
            if is_merged traffic_bytes b
            then reverse_plan_bucket user_id package_id traffic_bytes duration_days now db
            else (let left = record db {
              user_plans = delete_where (λ (r : Bucket). r.id == b.id) db.user_plans;
            } in
                (advance_user_queues user_id now left).0)
      ]
