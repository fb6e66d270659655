-- ===== src/Purchase/Charges.antt =====
-- internal/store/purchase.go: what a purchase charges and books.
use qing_zhou.Common.{
  ℕ, ◌+◌, ◌-◌, ◌≤◌, ◌≡◌, refl, String, Bool, true, false, none, some, ◌∙◌, ap, sym, subst, arith,
  inl, inr, ==_iff, ◌==◌, first, if◌then◌else◌,
}
use qing_zhou.Common.Int.{pos, ◌+ℤ◌, ◌-ℤ◌}
use qing_zhou.Result.{ok}
use qing_zhou.Package.{Package, for_duration}
use qing_zhou.Store.{User, Order, Db}
use qing_zhou.Points.{find_user, set_points}
use qing_zhou.Points.Ledger.{balance, IsBooked, IsBooked-of_row, points_of, balance-set_points}
use qing_zhou.Purchase.{
  take_stock, Sale, new_order, book, find_package, purchase_of, purchase_duration, find_order,
  charged,
}
use qing_zhou.Purchase.Books.{book-IsLogged, same_books}
use qing_zhou.Purchase.Terms.{
  IsSale, purchase-cases, MeetsTerms, check_sale-MeetsTerms, take_stock-IsStockOnly, IsStockOnly,
}

charged_sum : (p q : ℕ) → p ≤ q → pos q +ℤ charged p ≡ pos (q - p)
unfolding charged ◌-ℤ◌ ◌+ℤ◌
charged_sum p q h = ground (arith, h)

stock_balance : (db db' : Db) → IsStockOnly db db' → (j : ℕ) → balance j db' ≡ balance j db
stock_balance db db' s j = ap (λ us. points_of (first (λ (x : User). x.id == j) us)) s.users

-- A sale at a price that the user can pay: the points are deducted, the sale is booked with the price,
-- and the stock is taken.
module _ (user_id : ℕ) (u : User) (s : Sale) (now : ℕ) (db db' : Db) where
  abbrev deducted : Db
  deducted = set_points user_id (u.points - s.price) now db

  pub charged-IsBooked :
      find_user user_id db ≡ some u
      → s.amount ≡ charged s.price
      → s.price ≤ u.points
      → take_stock s.pkg (book user_id u.username s now deducted) ≡ ok db'
      → IsBooked db db'
  charged-IsBooked found amount funded taken =
      let log = book-IsLogged user_id u.username s now deducted in
      let stock = take_stock-IsStockOnly s.pkg (book user_id u.username s now deducted) db' taken in
      let after = stock_balance (book user_id u.username s now deducted) db' stock in
      IsBooked-of_row user_id (u.points - s.price) now u log.row db deducted db' found log.owner
        (rw (log.amount, amount) (charged_sum s.price u.points funded))
        (same_books deducted deducted refl refl refl refl) (λ j. after j ∙ log.balances j)
        (stock.ledger ∙ log.ledger)

  charged-balance :
      find_user user_id db ≡ some u
      → take_stock s.pkg (book user_id u.username s now deducted) ≡ ok db'
      → (j : ℕ) → balance j db' ≡ (if j == user_id then u.points - s.price else balance j db)
  charged-balance found taken j =
      let log = book-IsLogged user_id u.username s now deducted in
      let stock = take_stock-IsStockOnly s.pkg (book user_id u.username s now deducted) db' taken in
      stock_balance (book user_id u.username s now deducted) db' stock j
      ∙ log.balances j
      ∙ balance-set_points user_id (u.points - s.price) now j u db found

  -- what is left and the price make the old balance
  pub charged-pays :
      find_user user_id db ≡ some u
      → s.price ≤ u.points
      → take_stock s.pkg (book user_id u.username s now deducted) ≡ ok db'
      → (j : ℕ) → balance j db' + (if j == user_id then s.price else 0) ≡ balance j db
  charged-pays found funded taken j =
      rw (charged-balance found taken j) (paid_back (j == user_id) refl)
    where
      paid_back :
          (same : Bool)
          → (j == user_id) ≡ same
          → (if same then u.points - s.price else balance j db) + (if same then s.price else 0)
            ≡ balance j db
      paid_back true e =
          let own : balance j db ≡ u.points =
            ap (λ i. balance i db) ((==_iff j user_id).0 e) ∙ ap points_of found in
          omega (arith, own, funded)
      paid_back false e = omega arith

module _ (user_id : ℕ) (u : User) (package_id days : ℕ) (key : String) (now : ℕ) (db : Db)
    (o : Order) (db' : Db) where
  sale_price :
      (s : IsSale user_id u package_id days key now db o db') → o.price_points ≡ s.pkg.price_points
  unfolding new_order purchase_of
  sale_price s = ap (λ (p : Order). p.price_points) s.ordered

  sale-IsBooked :
      find_user user_id db ≡ some u
      → IsSale user_id u package_id days key now db o db'
      → IsBooked db db'
  unfolding purchase_of
  sale-IsBooked found s =
      let terms = check_sale-MeetsTerms user_id u s.pkg db s.checked in
      charged-IsBooked user_id u (purchase_of u s.pkg key) now db db' found refl terms.funded
        s.stocked

  sale-pays :
      find_user user_id db ≡ some u
      → (s : IsSale user_id u package_id days key now db o db') → (j : ℕ)
      → balance j db' + (if j == user_id then o.price_points else 0) ≡ balance j db
  unfolding purchase_of
  sale-pays found s j =
      let terms = check_sale-MeetsTerms user_id u s.pkg db s.checked in
      rw (sale_price s)
        (charged-pays user_id u (purchase_of u s.pkg key) now db db' found terms.funded s.stocked j)

-- A purchase that answers with an order, a new one or an earlier one, has moved every balance by
-- exactly what the ledger booked in between.
pub purchase_duration-IsBooked :
    (user_id : ℕ) (given : Package) (days : ℕ) (key : String) (sync : User → Bool) (now : ℕ)
    (db : Db) (o : Order) (v : User) (db' : Db)
    → purchase_duration user_id given days key sync now db ≡ ok ((o, v), db')
    → IsBooked db db'
purchase_duration-IsBooked user_id given days key sync now db o v db' h =
    let (u, found, outcome) = purchase-cases user_id given days key sync now db o v db' h in
    elim outcome [
      | inl (earlier, same) ↦ subst (IsBooked db) (sym same) (λ j. refl)
      | inr (new, sale) ↦ sale-IsBooked user_id u given.id days key now db o db' found sale
    ]

-- A purchase for which no order exists yet resolves the package of the tables for the duration; that
-- package has traffic, is on sale, in stock, open to the buyer, of a known type and affordable; the
-- order carries its price; the buyer pays exactly this price and nobody else pays.
pub purchase_duration-charges :
    (user_id : ℕ) (given : Package) (days : ℕ) (key : String) (sync : User → Bool) (now : ℕ)
    (db : Db) (o : Order) (v : User) (db' : Db)
    → purchase_duration user_id given days key sync now db ≡ ok ((o, v), db')
    → find_order user_id key db ≡ none
    → (u : User) × (fresh pkg : Package) × (find_user user_id db ≡ some u)
      × (find_package given.id db ≡ some fresh)
      × (for_duration fresh days ≡ ok pkg)
      × MeetsTerms user_id u pkg db
      × (o.price_points ≡ pkg.price_points)
      × ((j : ℕ) → balance j db' + (if j == user_id then o.price_points else 0) ≡ balance j db)
purchase_duration-charges user_id given days key sync now db o v db' h none_yet =
    let (u, found, outcome) = purchase-cases user_id given days key sync now db o v db' h in
    elim outcome [
      | inl (earlier, same) ↦ cc
      | inr (new, s) ↦ (
        u,
        s.fresh,
        s.pkg,
        found,
        s.listed,
        s.chosen,
        check_sale-MeetsTerms user_id u s.pkg db s.checked,
        sale_price user_id u given.id days key now db o db' s,
        sale-pays user_id u given.id days key now db o db' found s,
      )
    ]
