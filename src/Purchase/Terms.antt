-- ===== src/Purchase/Terms.antt =====
-- internal/store/purchase.go: what a purchase that went through has checked, and what it charges.
use qing_zhou.Common.{
  ℕ, ◌-◌, ◌≤◌, ◌<◌, ◌≡◌, refl, String, Bool, true, false, not, Option, none, some, ◌∙◌, ap, sym,
  subst, arith, Bool-cases, inl, inr, count_by, ◌==◌, ◌&&◌, ◌⊎◌, List,
}
use qing_zhou.Result.{
  ok, or_fail-eq-ok, guarded-eq-ok, >>=-eq-ok, ok-injective, package_disabled, out_of_stock,
  user_not_found, sync_failed,
}
use qing_zhou.Bucket.{is_zero}
use qing_zhou.Package.{Package, for_duration}
use qing_zhou.Store.{User, Order, Db}
use qing_zhou.Points.{find_user, set_points}
use qing_zhou.Purchase.{
  new_order, book, buy, find_package, check_sale, take_stock, purchase_of, purchase_duration,
  find_order, replay_or, updated_user, can_buy_package, is_unknown, is_positive,
}

-- the tables after the points were deducted
abbrev pub paid : ℕ → User → Package → ℕ → Db → Db
paid user_id u pkg now db = set_points user_id (u.points - pkg.price_points) now db

abbrev pub booked : ℕ → User → Package → String → ℕ → Db → Db
booked user_id u pkg key now db =
    book user_id u.username (purchase_of u pkg key) now (paid user_id u pkg now db)

-- A sale that went through: the package is the one of the tables, resolved for the duration, it
-- passed every check, and the order and the tables are the ones of the sale.
pub record IsSale (user_id : ℕ) (u : User) (package_id days : ℕ) (key : String) (now : ℕ) (db : Db)
    (o : Order) (db' : Db) : Type 0 where
  pub fresh : Package
  pub pkg : Package
  pub listed : find_package package_id db ≡ some fresh
  pub chosen : for_duration fresh days ≡ ok pkg
  pub checked : check_sale user_id u pkg db ≡ ok tt
  pub ordered : o ≡ new_order user_id (purchase_of u pkg key) now (paid user_id u pkg now db)
  pub stocked : take_stock pkg (booked user_id u pkg key now db) ≡ ok db'

pub buy-IsSale :
    (user_id : ℕ) (u : User) (package_id days : ℕ) (key : String) (sync : User → Bool) (now : ℕ)
    (db : Db) (o : Order) (v : User) (db' : Db)
    → buy user_id u package_id days key sync now db ≡ ok ((o, v), db')
    → IsSale user_id u package_id days key now db o db'
unfolding buy
buy-IsSale user_id u package_id days key sync now db o v db' h =
    let (fresh, kept, h1) = >>=-eq-ok _ _ h in
    let (pkg, chosen, h2) = >>=-eq-ok _ _ h1 in
    let (t, checked, h3) = >>=-eq-ok _ _ h2 in
    let (stocked, taken, h4) = >>=-eq-ok _ _ h3 in
    let updated =
      updated_user u (u.points - pkg.price_points) pkg
        (find_user user_id (booked user_id u pkg key now db)) in
    let (synced, h5) = guarded-eq-ok (not (sync updated)) sync_failed _ h4 in
    let same = ok-injective _ _ h5 in
    record {
      fresh = fresh;
      pkg = pkg;
      listed = or_fail-eq-ok (find_package package_id db) package_disabled kept;
      chosen = chosen;
      checked = checked;
      ordered = sym (ap (λ r. r.0.0) same);
      stocked = taken ∙ ap (λ r. ok (r.1)) same;
    }

-- A purchase answers with the order that the key already has, and writes nothing, or it is a sale.
pub purchase-cases :
    (user_id : ℕ) (given : Package) (days : ℕ) (key : String) (sync : User → Bool) (now : ℕ)
    (db : Db) (o : Order) (v : User) (db' : Db)
    → purchase_duration user_id given days key sync now db ≡ ok ((o, v), db')
    → (u : User) × (find_user user_id db ≡ some u)
      × (((find_order user_id key db ≡ some o) × (db' ≡ db))
          ⊎ ((find_order user_id key db ≡ none) × IsSale user_id u given.id days key now db o db'))
unfolding purchase_duration replay_or
purchase-cases user_id given days key sync now db o v db' h =
    let (enabled, h1) = guarded-eq-ok (not given.enabled) package_disabled _ h in
    let (stocked, h2) = guarded-eq-ok (is_zero given.stock) out_of_stock _ h1 in
    let (u, kept, h3) = >>=-eq-ok _ _ h2 in
    (
      u,
      or_fail-eq-ok (find_user user_id db) user_not_found kept,
      answer u (find_order user_id key db) refl h3,
    )
  where
    answer :
        (u : User) (earlier : Option Order)
        → find_order user_id key db ≡ earlier
        → replay_or earlier u db (buy user_id u given.id days key sync now db) ≡ ok ((o, v), db')
        → ((find_order user_id key db ≡ some o) × (db' ≡ db))
          ⊎ ((find_order user_id key db ≡ none) × IsSale user_id u given.id days key now db o db')
    answer u none e h = inr (e, buy-IsSale user_id u given.id days key sync now db o v db' h)
    answer u (some p) e h =
        let same = ok-injective _ _ h in
        inl (e ∙ ap (λ r. some (r.0.0)) same, sym (ap (λ r. r.1) same))

-- The terms of a sale: what the package as it was resolved, and the buyer, must satisfy.
pub record MeetsTerms (user_id : ℕ) (u : User) (pkg : Package) (db : Db) : Type 0 where
  pub traffic : 0 < pkg.traffic_bytes
  pub enabled : pkg.enabled ≡ true
  pub stocked : is_zero pkg.stock ≡ false
  pub allowed : can_buy_package user_id pkg.id db ≡ true
  pub funded : pkg.price_points ≤ u.points
  pub known : is_unknown pkg.type ≡ false

pub check_sale-MeetsTerms :
    (user_id : ℕ) (u : User) (pkg : Package) (db : Db)
    → check_sale user_id u pkg db ≡ ok tt
    → MeetsTerms user_id u pkg db
unfolding check_sale
check_sale-MeetsTerms user_id u pkg db h = record {
  traffic = ground (arith, h);
  enabled = ground (arith, h);
  stocked = ground (arith, h);
  allowed = ground (arith, h);
  funded = ground (arith, h);
  known = ground (arith, h);
}

-- Taking stock touches the packages only.
pub record IsStockOnly (db db' : Db) : Type 0 where
  pub users : db'.users ≡ db.users
  pub ledger : db'.point_transactions ≡ db.point_transactions
  pub orders : db'.orders ≡ db.orders

stock_only : (db : Db) (ps : List Package) → IsStockOnly db (record db { packages = ps })
stock_only db ps = record { users = refl; ledger = refl; orders = refl }

pub take_stock-IsStockOnly :
    (pkg : Package) (db db' : Db) → take_stock pkg db ≡ ok db' → IsStockOnly db db'
unfolding take_stock
take_stock-IsStockOnly pkg db db' h = elim (Bool-cases (is_positive pkg.stock)) [
  | inl limited ↦
      (let in_stock = λ (p : Package). p.id == pkg.id && is_positive p.stock in
        let (one, rest) =
          guarded-eq-ok (not (count_by in_stock db.packages == 1)) out_of_stock _
            (rw limited at h) in
        subst (IsStockOnly db) (ok-injective _ _ rest) (stock_only db _))
  | inr unlimited ↦
      subst (IsStockOnly db) (ok-injective _ _ (rw unlimited at h)) (stock_only db db.packages)
]
