-- ===== src/Purchase.antt =====
-- internal/store/purchase.go and autorenew.go: buying, assigning and renewing a package, each in one
-- transaction. The push to the nodes that a caller passes as `sync` is a parameter that answers
-- whether it went through.
pub mod Assign
pub mod Books
pub mod Charges
pub mod Replay
pub mod Stock
pub mod Terms
use qing_zhou.Common.{
  ℕ, ◌+◌, ◌-◌, String, Bool, true, false, not, ◌&&◌, ◌||◌, Option, none, some, List, [], ◌∷◌, ◌++◌,
  ltb, ◌==◌, str_eq, any, select, first, last, count_by, update_where, if◌then◌else◌,
}
use qing_zhou.Common.Int.{ℤ, pos, negsuc, ◌-ℤ◌}
use qing_zhou.Result.{
  Result, ok, err, Error, user_not_found, insufficient_funds, package_disabled, package_not_allowed,
  out_of_stock, package_no_traffic, unknown_pkg_type, sync_failed, fail_if, or_fail, ◌>>=◌, ◌>>◌,
}
use qing_zhou.Bucket.{Bucket, is_active, is_queued, is_after, is_zero}
use qing_zhou.Package.{Package, PackageType, is_plan_type, for_duration, for_admin_duration}
use qing_zhou.Lines.{recompute_user_aggregate}
use qing_zhou.Queue.{in_line}
use qing_zhou.Store.{User, Order, OrderStatus, TxType, Db, Tx}
use qing_zhou.Points.{find_user, update_user, set_points, log_points}
use qing_zhou.Grants.{grant}

abbrev pub find_package : ℕ → Db → Option Package
find_package id db = first (λ (p : Package). p.id == id) db.packages

-- `canBuyPackageTx`: the package is public, or is bound to a group that the user is in
unfoldable pub can_buy_package : ℕ → ℕ → Db → Bool
can_buy_package user_id package_id db =
    not (any (λ (g : ℕ × ℕ). g.0 == package_id) db.package_user_groups)
    || any
        (λ (g : ℕ × ℕ).
          g.0 == package_id
          && any (λ (m : ℕ × ℕ). m.0 == g.1 && m.1 == user_id) db.user_group_members)
        db.package_user_groups

abbrev pub is_unknown : PackageType → Bool
is_unknown PackageType.other = true
is_unknown _ = false

abbrev pub is_positive : ℤ → Bool
is_positive (pos n) = ltb 0 n
is_positive (negsuc _) = false

-- the order that was already made for this intent, if the buyer's client sent a key
unfoldable pub find_order : ℕ → String → Db → Option Order
find_order user_id key db =
    if str_eq key ""
    then none
    else first (λ (o : Order). o.user_id == user_id && str_eq o.idempotency_key key) db.orders

-- what a transaction sells: the package as it was resolved, the price, and how it is booked
pub record Sale : Type 0 where
  pub pkg : Package
  pub price : ℕ
  pub amount : ℤ
  pub balance : ℕ
  pub type : TxType
  pub operator_id : ℕ
  pub idempotency_key : String

-- the row that INSERT INTO orders adds
unfoldable pub new_order : ℕ → Sale → ℕ → Db → Order
new_order user_id s now db = record {
  id = db.next_order_id;
  user_id = user_id;
  package_id = s.pkg.id;
  package_snapshot = s.pkg;
  price_points = s.price;
  status = OrderStatus.success;
  idempotency_key = s.idempotency_key;
  created_at = now;
  refunded_points = 0;
  refunded_at = 0;
  refunded_traffic = 0;
}

unfoldable pub insert_order : Order → Db → Db
insert_order o db = record db { orders = db.orders ++ o ∷ []; next_order_id = db.next_order_id + 1 }

-- UPDATE users SET current_plan_id=?, for a plan
unfoldable pub set_current_plan : ℕ → Package → Db → Db
set_current_plan user_id pkg db =
    if is_plan_type pkg.type
    then update_user user_id (λ (u : User). record u { current_plan_id = some pkg.id }) db
    else db

-- from the order to the user's mirror: what a purchase, a grant and a renewal do alike
unfoldable pub book : ℕ → String → Sale → ℕ → Db → Db
unfolding new_order insert_order grant log_points recompute_user_aggregate set_current_plan
book user_id username s now db =
    let order_id = db.next_order_id in
    let ordered = insert_order (new_order user_id s now db) db in
    let granted = grant user_id username s.pkg s.pkg.type order_id now ordered in
    let logged = log_points user_id s.amount s.type s.balance order_id s.operator_id now granted in
    set_current_plan user_id s.pkg (recompute_user_aggregate user_id now logged)

-- UPDATE packages SET stock=stock-1 WHERE id=? AND stock>0, which must change exactly one row
unfoldable pub take_stock : Package → Db → Result Db
unfolding ◌-ℤ◌
take_stock pkg db =
    let in_stock = λ (p : Package). p.id == pkg.id && is_positive p.stock in
    if is_positive pkg.stock
    then (do
      fail_if (not (count_by in_stock db.packages == 1)) out_of_stock
      ok (record db {
        packages =
            update_where in_stock (λ (p : Package). record p { stock = p.stock -ℤ pos 1 })
              db.packages;
      }))
    else ok db

-- the snapshot of the user that is handed to `sync`
unfoldable pub updated_user : User → ℕ → Package → Option User → User
updated_user u points pkg none = u
updated_user u points pkg (some v) = record u {
  points = points;
  traffic_limit = v.traffic_limit;
  used_up = v.used_up;
  used_down = v.used_down;
  expiry_at = v.expiry_at;
  current_plan_id = if is_plan_type pkg.type then some pkg.id else u.current_plan_id;
}

-- the checks on the package as it stands in the transaction
unfoldable pub check_sale : ℕ → User → Package → Db → Result (Unit {0})
unfolding can_buy_package
check_sale user_id u pkg db = do
  fail_if (pkg.traffic_bytes == 0) package_no_traffic
  fail_if (not pkg.enabled) package_disabled
  fail_if (is_zero pkg.stock) out_of_stock
  fail_if (not (can_buy_package user_id pkg.id db)) package_not_allowed
  fail_if (ltb u.points pkg.price_points) insufficient_funds
  fail_if (is_unknown pkg.type) unknown_pkg_type

-- -price, as the ledger books it
unfoldable pub charged : ℕ → ℤ
unfolding ◌-ℤ◌
charged price = pos 0 -ℤ pos price

unfoldable pub purchase_of : User → Package → String → Sale
unfolding charged
purchase_of u pkg key = record {
  pkg = pkg;
  price = pkg.price_points;
  amount = charged pkg.price_points;
  balance = u.points - pkg.price_points;
  type = TxType.purchase;
  operator_id = 0;
  idempotency_key = key;
}

unfoldable pub buy : ℕ → User → ℕ → ℕ → String → (User → Bool) → ℕ → Tx (Order × User)
unfolding check_sale purchase_of book take_stock new_order updated_user set_points
buy user_id u package_id days key sync now db = do
  fresh ← or_fail (find_package package_id db) package_disabled
  pkg ← for_duration fresh days
  check_sale user_id u pkg db
  let paid = set_points user_id (u.points - pkg.price_points) now db
  let booked = book user_id u.username (purchase_of u pkg key) now paid
  stocked ← take_stock pkg booked
  let updated = updated_user u (u.points - pkg.price_points) pkg (find_user user_id booked)
  fail_if (not (sync updated)) sync_failed
  ok ((new_order user_id (purchase_of u pkg key) now paid, updated), stocked)

unfoldable pub replay_or :
    Option Order → User → Db → Result ((Order × User) × Db) → Result ((Order × User) × Db)
replay_or (some o) u db rest = ok ((o, u), db)
replay_or none u db rest = rest

-- `PurchaseDuration`. `pkg` is the package as the caller read it before the transaction.
unfoldable pub purchase_duration : ℕ → Package → ℕ → String → (User → Bool) → ℕ → Tx (Order × User)
unfolding find_order replay_or buy
purchase_duration user_id pkg days key sync now db = do
  fail_if (not pkg.enabled) package_disabled
  fail_if (is_zero pkg.stock) out_of_stock
  u ← or_fail (find_user user_id db) user_not_found
  let bought = buy user_id u pkg.id days key sync now db
  replay_or (find_order user_id key db) u db bought

unfoldable pub assignment_of : User → Package → ℕ → Sale
assignment_of u pkg operator_id = record {
  pkg = pkg;
  price = 0;
  amount = pos 0;
  balance = u.points;
  type = TxType.admin_grant;
  operator_id = operator_id;
  idempotency_key = "";
}

-- `AssignPackageDuration`
unfoldable pub assign_package_duration : ℕ → Package → ℤ → ℕ → (User → Bool) → ℕ → Tx (Order × User)
unfolding assignment_of book new_order updated_user
assign_package_duration user_id given days operator_id sync now db = do
  pkg ← for_admin_duration given days
  fail_if (pkg.traffic_bytes == 0) package_no_traffic
  u ← or_fail (find_user user_id db) user_not_found
  fail_if (is_unknown pkg.type) unknown_pkg_type
  let booked = book user_id u.username (assignment_of u pkg operator_id) now db
  let updated = updated_user u u.points pkg (find_user user_id booked)
  fail_if (not (sync updated)) sync_failed
  ok ((new_order user_id (assignment_of u pkg operator_id) now db, updated), booked)
