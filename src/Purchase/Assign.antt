-- ===== src/Purchase/Assign.antt =====
-- internal/store/purchase.go: a package that an administrator assigns.
use qing_zhou.Common.{ℕ, ◌<◌, ◌≡◌, Bool, not, [], ◌∷◌, ◌++◌, ◌∙◌, ap, sym, subst, arith, ◌==◌}
use qing_zhou.Common.Int.{ℤ, pos}
use qing_zhou.Result.{
  ok, or_fail, >>=-eq-ok, guarded-eq-ok, ok-injective, user_not_found, package_no_traffic,
  unknown_pkg_type, sync_failed,
}
use qing_zhou.Package.{Package, for_admin_duration}
use qing_zhou.Store.{User, Order, PointTx, Db}
use qing_zhou.Points.{find_user}
use qing_zhou.Points.Ledger.{balance}
use qing_zhou.Purchase.{
  new_order, book, assign_package_duration, assignment_of, is_unknown, updated_user,
}
use qing_zhou.Purchase.Books.{book-IsLogged}

-- An assignment that went through has resolved the package for the duration, to one with traffic; it
-- changes no balance and no stock, writes one ledger row of 0 points for the user, and one order of
-- price 0 with the resolved package.
pub assign_package_duration-free :
    (user_id : ℕ) (given : Package) (days : ℤ) (operator_id : ℕ) (sync : User → Bool) (now : ℕ)
    (db : Db) (o : Order) (v : User) (db' : Db)
    → assign_package_duration user_id given days operator_id sync now db ≡ ok ((o, v), db')
    → (for_admin_duration given days ≡ ok o.package_snapshot)
      × (0 < o.package_snapshot.traffic_bytes)
      × (o.price_points ≡ 0)
      × (db'.orders ≡ db.orders ++ o ∷ [])
      × ((j : ℕ) → balance j db' ≡ balance j db)
      × (db'.packages ≡ db.packages)
      × ((row : PointTx) × (row.user_id ≡ user_id)
          × (row.amount ≡ pos 0)
          × (db'.point_transactions ≡ db.point_transactions ++ row ∷ []))
unfolding assign_package_duration assignment_of new_order
assign_package_duration-free user_id given days operator_id sync now db o v db' h =
    let (pkg, chosen, h1) = >>=-eq-ok _ _ h in
    let (traffic, h2) = guarded-eq-ok (pkg.traffic_bytes == 0) package_no_traffic _ h1 in
    let (u, kept, h3) = >>=-eq-ok (or_fail (find_user user_id db) user_not_found) _ h2 in
    let (known, h4) = guarded-eq-ok (is_unknown pkg.type) unknown_pkg_type _ h3 in
    let granted = book user_id u.username (assignment_of u pkg operator_id) now db in
    let updated = updated_user u u.points pkg (find_user user_id granted) in
    let (synced, h5) = guarded-eq-ok (not (sync updated)) sync_failed _ h4 in
    let same = ok-injective _ _ h5 in
    let order = ap (λ r. r.0.0) same in
    let tables = ap (λ r. r.1) same in
    let log = book-IsLogged user_id u.username (assignment_of u pkg operator_id) now db in
    let sold : pkg ≡ o.package_snapshot = ap (λ (p : Order). p.package_snapshot) order in
    let some_traffic : 0 < pkg.traffic_bytes = ground (arith, traffic) in
    (
      chosen ∙ ap ok sold,
      subst (λ (p : Package). 0 < p.traffic_bytes) sold some_traffic,
      sym (ap (λ (p : Order). p.price_points) order),
      ap (λ b. b.orders) (sym tables) ∙ log.orders ∙ ap (λ p. db.orders ++ p ∷ []) order,
      λ j. ap (balance j) (sym tables) ∙ log.balances j,
      ap (λ b. b.packages) (sym tables) ∙ log.packages,
      (log.row, log.owner, log.amount, ap (λ b. b.point_transactions) (sym tables) ∙ log.ledger),
    )
