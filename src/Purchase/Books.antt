-- ===== src/Purchase/Books.antt =====
-- internal/store/purchase.go: which balances and ledger rows the steps of a purchase write.
use qing_zhou.Common.{
  ℕ, ◌≡◌, refl, String, Bool, true, false, ◌∙◌, ap, List, [], ◌∷◌, ◌++◌, if◌then◌else◌,
  Option-cases, Bool-cases, inl, inr, first, any, ◌==◌, ◌&&◌,
}
use qing_zhou.Package.{is_plan_type, Package, PackageType}
use qing_zhou.Lines.{recompute_user_aggregate}
use qing_zhou.Queue.{advance_lines, queued_lines, refresh_period_limits, advance_user_queues}
use qing_zhou.Store.{PointTx, User, PlanIdentity, Db}
use qing_zhou.Points.Ledger.{points_of, balance, IsQuiet, IsQuiet-trans, points-update_where}
use qing_zhou.Grants.{
  ensure_plan_identity, enqueue_plan_bucket, insert_bucket, add_to_pool, is_pool_of, grant,
}
use qing_zhou.Points.{tx_row, log_points}
use qing_zhou.Purchase.{Sale, new_order, book, insert_order, set_current_plan}

pub same_books :
    (a b : Db)
    → b.users ≡ a.users
    → b.point_transactions ≡ a.point_transactions
    → b.orders ≡ a.orders
    → b.packages ≡ a.packages
    → IsQuiet a b
same_books a b u t o p = record {
  balances = λ j. ap (λ (us : List User). points_of (first (λ (x : User). x.id == j) us)) u;
  ledger = t;
  orders = o;
  packages = p;
}

pub IsQuiet-if :
    (c : Bool) (a b b' : Db) → IsQuiet a b → IsQuiet a b' → IsQuiet a (if c then b else b')
IsQuiet-if true a b b' p q = p
IsQuiet-if false a b b' p q = q

pub recompute-IsQuiet :
    (user_id now : ℕ) (db : Db) → IsQuiet db (recompute_user_aggregate user_id now db)
unfolding recompute_user_aggregate
recompute-IsQuiet user_id now db = record {
  balances = λ j. points-update_where j user_id _ db.users (λ u. (refl, refl));
  ledger = refl;
  orders = refl;
  packages = refl;
}

set_current_plan-IsQuiet :
    (user_id : ℕ) (pkg : Package) (db : Db) → IsQuiet db (set_current_plan user_id pkg db)
unfolding set_current_plan
set_current_plan-IsQuiet user_id pkg db =
    IsQuiet-if (is_plan_type pkg.type) db _ db
      (record {
        balances = λ j. points-update_where j user_id _ db.users (λ u. (refl, refl));
        ledger = refl;
        orders = refl;
        packages = refl;
      })
      (same_books db db refl refl refl refl)

enqueue-IsQuiet :
    (user_id : ℕ) (username : String) (pkg : Package) (order_id now : ℕ) (db : Db)
    → IsQuiet db (enqueue_plan_bucket user_id username pkg order_id now db)
unfolding enqueue_plan_bucket ensure_plan_identity insert_bucket
enqueue-IsQuiet user_id username pkg order_id now db =
    let known =
      any (λ (i : PlanIdentity). i.user_id == user_id && i.package_id == pkg.id)
        db.plan_identities in
    elim (Bool-cases known) [
      | inl there ↦ rw there (same_books _ _ refl refl refl refl)
      | inr new ↦ rw new (same_books _ _ refl refl refl refl)
    ]

pub advance-IsQuiet :
    (user_id now : ℕ) (db : Db) → IsQuiet db (advance_user_queues user_id now db).0
unfolding advance_user_queues
advance-IsQuiet user_id now db =
    let (rows, changed) =
      advance_lines user_id now (queued_lines user_id db.user_plans) db.user_plans in
    let db' = record db { user_plans = refresh_period_limits db.packages user_id rows } in
    IsQuiet-if changed db (recompute_user_aggregate user_id now db') db'
      (IsQuiet-trans db db' _ (same_books db db' refl refl refl refl)
        (recompute-IsQuiet user_id now db'))
      (same_books db db' refl refl refl refl)

add_to_pool-IsQuiet :
    (user_id : ℕ) (username : String) (add_bytes now : ℕ) (db : Db)
    → IsQuiet db (add_to_pool user_id username add_bytes now db)
unfolding add_to_pool insert_bucket
add_to_pool-IsQuiet user_id username add_bytes now db =
    elim (Option-cases (first (is_pool_of user_id) db.user_plans)) [
      | inl missing ↦ rw (add_to_pool, missing) (same_books _ _ refl refl refl refl)
      | inr (p, found) ↦ rw (add_to_pool, found) (same_books _ _ refl refl refl refl)
    ]

grant-IsQuiet :
    (user_id : ℕ) (username : String) (pkg : Package) (type : PackageType) (order_id now : ℕ)
    (db : Db)
    → IsQuiet db (grant user_id username pkg type order_id now db)
unfolding grant
grant-IsQuiet user_id username pkg PackageType.plan order_id now db =
    let queued = enqueue_plan_bucket user_id username pkg order_id now db in
    IsQuiet-trans db queued _ (enqueue-IsQuiet user_id username pkg order_id now db)
      (advance-IsQuiet user_id now queued)
grant-IsQuiet user_id username pkg PackageType.traffic order_id now db =
    add_to_pool-IsQuiet user_id username pkg.traffic_bytes now db
grant-IsQuiet user_id username pkg PackageType.other order_id now db =
    same_books db db refl refl refl refl

-- What `book` writes about one user's points: the row of the sale, after every other row.
pub record IsLogged (user_id : ℕ) (s : Sale) (now : ℕ) (db db' : Db) : Type 0 where
  pub row : PointTx
  pub owner : row.user_id ≡ user_id
  pub amount : row.amount ≡ s.amount
  pub balances : (j : ℕ) → balance j db' ≡ balance j db
  pub ledger : db'.point_transactions ≡ db.point_transactions ++ row ∷ []
  pub orders : db'.orders ≡ db.orders ++ new_order user_id s now db ∷ []
  pub packages : db'.packages ≡ db.packages

pub book-IsLogged :
    (user_id : ℕ) (username : String) (s : Sale) (now : ℕ) (db : Db)
    → IsLogged user_id s now db (book user_id username s now db)
unfolding book insert_order log_points
book-IsLogged user_id username s now db =
    let ordered = insert_order (new_order user_id s now db) db in
    let granted = grant user_id username s.pkg s.pkg.type db.next_order_id now ordered in
    let logged =
      log_points user_id s.amount s.type s.balance db.next_order_id s.operator_id now granted in
    let summed = recompute_user_aggregate user_id now logged in
    let quiet = grant-IsQuiet user_id username s.pkg s.pkg.type db.next_order_id now ordered in
    let after =
      IsQuiet-trans logged summed _ (recompute-IsQuiet user_id now logged)
        (set_current_plan-IsQuiet user_id s.pkg summed) in
    record {
      row =
          tx_row user_id s.amount s.type s.balance db.next_order_id s.operator_id now
            granted.next_tx_id;
      owner = refl;
      amount = refl;
      balances = λ j. after.balances j ∙ quiet.balances j;
      ledger = after.ledger ∙ rw quiet.ledger refl;
      orders = after.orders ∙ quiet.orders;
      packages = after.packages ∙ quiet.packages;
    }
