-- ===== src/Refund.antt =====
-- internal/store/purchase.go: `RefundOrder`, which gives points back and takes the entitlement of an
-- order back, in one transaction.
pub mod Policy
pub mod Quote
pub mod TakeBack
pub mod Paying
pub mod Once
pub mod Full
use qing_zhou.Common.{
  ℕ, ◌+◌, Bool, true, false, not, ◌&&◌, Option, none, some, ◌==◌, first, any, count_by,
  update_where, if◌then◌else◌,
}
use qing_zhou.Common.Int.{pos}
use qing_zhou.Result.{
  Result, ok, err, order_not_found, already_refunded, user_not_found, sync_failed, fail_if, or_fail,
  ◌>>=◌, ◌>>◌,
}
use qing_zhou.Package.{Package, PackageType, is_plan_type}
use qing_zhou.Store.{User, Order, OrderStatus, TxType, Db}
use qing_zhou.Points.{find_user, update_user, log_points}
use qing_zhou.Lines.{recompute_user_aggregate}
use qing_zhou.Grants.{sub_from_pool}
use qing_zhou.UserPlans.{reverse_order_bucket}
use qing_zhou.Refund.Policy.{Float, RefundMode, RefundPolicy}
use qing_zhou.Refund.Quote.{RefundQuote, order_quote, is_refunded, is_package_row}

-- UPDATE users SET points=? WHERE id=?, where points are due
unfoldable pub pay_back : ℕ → ℕ → ℕ → Db → Db
pay_back user_id refund_points new_points db =
    if not (refund_points == 0)
    then update_user user_id (λ (u : User). record u { points = new_points }) db
    else db

abbrev pub clears : ℕ → Option ℕ → Bool
clears package_id none = false
clears package_id (some id) = id == package_id

-- UPDATE users SET current_plan_id=NULL WHERE id=? AND current_plan_id=?, if no row of the package is
-- left
unfoldable pub clear_current_plan : ℕ → ℕ → Db → Db
clear_current_plan user_id package_id db =
    if any (is_package_row user_id package_id) db.user_plans then db else record db {
      users =
          update_where (λ (u : User). u.id == user_id && clears package_id u.current_plan_id)
            (λ (u : User). record u { current_plan_id = none }) db.users;
    }

-- what the order brought is taken back
unfoldable pub take_back : PackageType → Order → ℕ → Db → Db
unfolding reverse_order_bucket clear_current_plan sub_from_pool
take_back PackageType.plan o now db = clear_current_plan o.user_id o.package_id (
    reverse_order_bucket o.id o.user_id o.package_id o.package_snapshot.traffic_bytes
      o.package_snapshot.duration_days now db)
take_back PackageType.traffic o now db =
    sub_from_pool o.user_id o.package_snapshot.traffic_bytes now db
take_back PackageType.other o now db = db

-- WHERE id=? AND status='success'
abbrev pub is_open_order : ℕ → Order → Bool
is_open_order order_id o = o.id == order_id && not (is_refunded o.status)

unfoldable pub mark_refunded : ℕ → ℕ → ℕ → ℕ → Db → Db
mark_refunded order_id refund_points refund_traffic now db = record db {
  orders =
      update_where (is_open_order order_id)
        (λ (o : Order). record o {
          status = OrderStatus.refunded;
          refunded_points = refund_points;
          refunded_at = now;
          refunded_traffic = refund_traffic;
        })
        db.orders;
}

-- the snapshot of the user that is handed to `sync`
unfoldable pub refunded_user : User → Order → ℕ → Option User → User
refunded_user u o points none = u
refunded_user u o points (some v) = record u {
  points = points;
  traffic_limit = v.traffic_limit;
  used_up = v.used_up;
  used_down = v.used_down;
  expiry_at = v.expiry_at;
  current_plan_id =
      if is_plan_type o.package_snapshot.type && clears o.package_id u.current_plan_id
      then none
      else u.current_plan_id;
}

module _ {ℓ} {F : Type ℓ} ⦃d : Float F⦄ where
  -- from the points to the user's mirror
  unfoldable pub undo : Order → ℕ → User → RefundQuote F → ℕ → Db → Db
  unfolding pay_back log_points take_back recompute_user_aggregate
  undo o operator_id u quote now db =
      let points = u.points + quote.refund_points in
      let paid = pay_back o.user_id quote.refund_points points db in
      let logged =
        log_points o.user_id (pos quote.refund_points) TxType.refund points o.id operator_id now
          paid in
      recompute_user_aggregate o.user_id now (take_back o.package_snapshot.type o now logged)

  -- `RefundOrder`
  unfoldable pub refund_order :
      ℕ
      → ℕ
      → Option RefundMode
      → RefundPolicy F
      → (User → Bool)
      → ℕ
      → Db
      → Result ((User × RefundQuote F) × Db)
  unfolding undo mark_refunded refunded_user
  refund_order order_id operator_id mode pol sync now db = do
    o ← or_fail (first (λ (o : Order). o.id == order_id) db.orders) order_not_found
    fail_if (is_refunded o.status) already_refunded
    u ← or_fail (find_user o.user_id db) user_not_found
    let quote = order_quote o mode pol now db
    let undone = undo o operator_id u quote now db
    fail_if (not (count_by (is_open_order order_id) undone.orders == 1)) already_refunded
    let marked = mark_refunded order_id quote.refund_points quote.refund_traffic now undone
    let updated = refunded_user u o (u.points + quote.refund_points) (find_user o.user_id undone)
    fail_if (not (sync updated)) sync_failed
    ok ((updated, quote), marked)
