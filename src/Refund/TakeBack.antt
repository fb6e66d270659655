-- ===== src/Refund/TakeBack.antt =====
-- internal/store/purchase.go: what taking an entitlement back writes.
use qing_zhou.Common.{
  ℕ, ◌+◌, ◌≡◌, refl, Bool, true, false, none, some, List, [], ◌∷◌, ◌∙◌, ap, arith, inl, inr, ◌==◌,
  ◌&&◌, ==_iff, first, update_where, delete_where, Bool-cases, Option-cases, if◌then◌else◌,
}
use qing_zhou.Bucket.{Bucket}
use qing_zhou.Package.{PackageType}
use qing_zhou.Store.{User, Order, Db}
use qing_zhou.Points.{find_user}
use qing_zhou.Points.Ledger.{points_of, balance, IsQuiet, IsQuiet-trans, balance-update_user}
use qing_zhou.Purchase.Books.{same_books, advance-IsQuiet, IsQuiet-if}
use qing_zhou.Grants.{sub_from_pool, is_pool_of}
use qing_zhou.UserPlans.{shrink_bucket, reverse_plan_bucket, reverse_order_bucket}
use qing_zhou.Refund.{pay_back, clear_current_plan, take_back, clears}
use qing_zhou.Refund.Quote.{is_order_row, is_package_row}

-- A change of the rows alone.
rows_only : (rows : List Bucket) (db : Db) → IsQuiet db (record db { user_plans = rows })
rows_only rows db = same_books db _ refl refl refl refl

shrink_bucket-IsQuiet :
    (bytes days now : ℕ) (b : Bucket) (db : Db) → IsQuiet db (shrink_bucket bytes days now b db)
unfolding shrink_bucket
shrink_bucket-IsQuiet bytes days now b db = IsQuiet-if _ db _ _ (rows_only _ db) (rows_only _ db)

reverse_plan_bucket-IsQuiet :
    (user_id package_id bytes days now : ℕ) (db : Db)
    → IsQuiet db (reverse_plan_bucket user_id package_id bytes days now db)
unfolding reverse_plan_bucket
reverse_plan_bucket-IsQuiet user_id package_id bytes days now db =
    elim (Option-cases (first (is_package_row user_id package_id) db.user_plans)) [
      | inl e ↦ rw (reverse_plan_bucket, e) (rows_only db.user_plans db)
      | inr (b, e) ↦ rw (reverse_plan_bucket, e) (shrink_bucket-IsQuiet bytes days now b db)
    ]

reverse_order_bucket-IsQuiet :
    (order_id user_id package_id bytes days now : ℕ) (db : Db)
    → IsQuiet db (reverse_order_bucket order_id user_id package_id bytes days now db)
unfolding reverse_order_bucket
reverse_order_bucket-IsQuiet order_id user_id package_id bytes days now db =
    let merged = reverse_plan_bucket-IsQuiet user_id package_id bytes days now db in
    elim (Option-cases (first (is_order_row user_id order_id) db.user_plans)) [
      | inl e ↦ rw (reverse_order_bucket, e) merged
      | inr (b, e) ↦
          (let left = record db {
            user_plans = delete_where (λ (r : Bucket). r.id == b.id) db.user_plans;
          } in
            rw (reverse_order_bucket, e)
              (IsQuiet-if _ db _ _ merged
                (IsQuiet-trans db left _ (rows_only _ db) (advance-IsQuiet user_id now left))))
    ]

clear_current_plan-IsQuiet :
    (user_id package_id : ℕ) (db : Db) → IsQuiet db (clear_current_plan user_id package_id db)
unfolding clear_current_plan
clear_current_plan-IsQuiet user_id package_id db =
    IsQuiet-if _ db _ _ (same_books db db refl refl refl refl) (record {
      balances = λ j. points-cleared j db.users;
      ledger = refl;
      orders = refl;
      packages = refl;
    })
  where
    points-cleared :
        (j : ℕ) (us : List User)
        → points_of (
            first
              (λ (u : User). u.id == j)
              (update_where
                (λ (u : User). u.id == user_id && clears package_id u.current_plan_id)
                (λ (u : User). record u { current_plan_id = none })
                us))
          ≡ points_of (first (λ (u : User). u.id == j) us)
    points-cleared j [] = refl
    points-cleared j (u ∷ us) = ground (arith, points-cleared j us)

sub_from_pool-IsQuiet :
    (user_id bytes now : ℕ) (db : Db) → IsQuiet db (sub_from_pool user_id bytes now db)
unfolding sub_from_pool
sub_from_pool-IsQuiet user_id bytes now db =
    elim (Option-cases (first (is_pool_of user_id) db.user_plans)) [
      | inl e ↦ rw (sub_from_pool, e) (rows_only db.user_plans db)
      | inr (p, e) ↦ rw (sub_from_pool, e) (rows_only _ db)
    ]

pub take_back-IsQuiet :
    (type : PackageType) (o : Order) (now : ℕ) (db : Db) → IsQuiet db (take_back type o now db)
unfolding take_back
take_back-IsQuiet PackageType.plan o now db =
    IsQuiet-trans db _ _
      (reverse_order_bucket-IsQuiet o.id o.user_id o.package_id o.package_snapshot.traffic_bytes
        o.package_snapshot.duration_days now db)
      (clear_current_plan-IsQuiet o.user_id o.package_id _)
take_back-IsQuiet PackageType.traffic o now db =
    sub_from_pool-IsQuiet o.user_id o.package_snapshot.traffic_bytes now db
take_back-IsQuiet PackageType.other o now db = same_books db db refl refl refl refl

-- Paying back leaves the user with the new balance, and the others with theirs.
pub balance-pay_back :
    (user_id refund j : ℕ) (u : User) (db : Db)
    → find_user user_id db ≡ some u
    → balance j (pay_back user_id refund (u.points + refund) db)
      ≡ (if j == user_id then u.points + refund else balance j db)
unfolding pay_back
balance-pay_back user_id refund j u db e = elim (Bool-cases (refund == 0)) [
  | inl nothing ↦ rw nothing (still (j == user_id) refl nothing)
  | inr due ↦
      rw due (balance-update_user user_id (u.points + refund) _ (λ x. (refl, refl)) j u db e)
]
  where
    still :
        (same : Bool)
        → (j == user_id) ≡ same
        → (refund == 0) ≡ true
        → balance j db ≡ (if same then u.points + refund else balance j db)
    still true s z =
        let own : balance j db ≡ u.points =
          ap (λ i. balance i db) ((==_iff j user_id).0 s) ∙ ap points_of e in
        omega (arith, own, (==_iff refund 0).0 z)
    still false s z = refl
