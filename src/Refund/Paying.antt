-- ===== src/Refund/Paying.antt =====
-- internal/store/purchase.go: what `RefundOrder` moves on the balances, the ledger and the orders.
use qing_zhou.Common.{
  ℕ, ◌+◌, ◌≤◌, ◌≡◌, refl, Bool, true, false, Option, some, List, [], ◌∷◌, ◌∙◌, ap, sym, subst,
  arith, inl, inr, ◌==◌, ==_iff, first, update_where, Bool-cases, if◌then◌else◌,
}
use qing_zhou.Common.Int.{pos, int_laws}
use qing_zhou.Result.{
  ok, or_fail, order_not_found, already_refunded, user_not_found, sync_failed, >>=-eq-ok,
  or_fail-eq-ok, guarded-eq-ok, ok-injective,
}
use qing_zhou.Store.{User, Order, Db, TxType}
use qing_zhou.Points.{find_user, set_points, log_points, tx_row}
use qing_zhou.Points.Ledger.{
  points_of, balance, IsBooked, IsBooked-of_row, IsQuiet-trans, balance-set_points,
}
use qing_zhou.Purchase.Books.{recompute-IsQuiet}
use qing_zhou.Lines.{recompute_user_aggregate}
use qing_zhou.Refund.{pay_back, take_back, undo, mark_refunded, is_open_order, refund_order}
use qing_zhou.Refund.Policy.{Float, RefundMode, RefundPolicy}
use qing_zhou.Refund.Quote.{RefundQuote, order_quote, is_refunded}
use qing_zhou.Refund.Quote.Bounds.{order_quote_bounds}
use qing_zhou.Refund.TakeBack.{take_back-IsQuiet, balance-pay_back}

abbrev pub order_row : ℕ → Db → Option Order
order_row order_id db = first (λ (o : Order). o.id == order_id) db.orders

pay_back_rest :
    (user_id refund points : ℕ) (db : Db)
    → ((pay_back user_id refund points db).point_transactions ≡ db.point_transactions)
      × ((pay_back user_id refund points db).orders ≡ db.orders)
      × ((pay_back user_id refund points db).packages ≡ db.packages)
unfolding pay_back
pay_back_rest user_id refund points db = elim (Bool-cases (refund == 0)) [
  | inl nothing ↦ rw nothing (refl, refl, refl)
  | inr due ↦ rw due (refl, refl, refl)
]

module _ {ℓ} {F : Type ℓ} ⦃d : Float F⦄ where
  -- What `undo` writes: the row of the refund, after every other row, and the balance that it leads to.
  pub record IsUndone (o : Order) (u : User) (q : RefundQuote F) (db db' : Db) : Type 0 where
    pub balances :
        (j : ℕ)
        → balance j db' ≡ (if j == o.user_id then u.points + q.refund_points else balance j db)
    pub booked : IsBooked db db'
    pub orders : db'.orders ≡ db.orders
    pub packages : db'.packages ≡ db.packages

  pub undo-IsUndone :
      (o : Order) (operator_id : ℕ) (u : User) (q : RefundQuote F) (now : ℕ) (db : Db)
      → find_user o.user_id db ≡ some u
      → IsUndone o u q db (undo o operator_id u q now db)
  unfolding undo log_points
  undo-IsUndone o operator_id u q now db found =
      let points = u.points + q.refund_points in
      let paid = pay_back o.user_id q.refund_points points db in
      let rest = pay_back_rest o.user_id q.refund_points points db in
      let logged =
        log_points o.user_id (pos q.refund_points) TxType.refund points o.id operator_id now paid in
      let taken = take_back o.package_snapshot.type o now logged in
      let quiet =
        IsQuiet-trans logged taken _ (take_back-IsQuiet o.package_snapshot.type o now logged)
          (recompute-IsQuiet o.user_id now taken) in
      let row =
        tx_row o.user_id (pos q.refund_points) TxType.refund points o.id operator_id now
          paid.next_tx_id in
      let held = λ (j : ℕ). balance-pay_back o.user_id q.refund_points j u db found in
      record {
        balances = λ j. quiet.balances j ∙ held j;
        booked =
            IsBooked-of_row o.user_id points now u row db paid
              (recompute_user_aggregate o.user_id now taken) found refl (grind int_laws)
              (record {
                balances = λ j. held j ∙ sym (balance-set_points o.user_id points now j u db found);
                ledger = unfold set_points in rest.0;
                orders = unfold set_points in rest.1;
                packages = unfold set_points in rest.2;
              })
              quiet.balances quiet.ledger;
        orders = quiet.orders ∙ rest.1;
        packages = quiet.packages ∙ rest.2;
      }

  -- The steps of a refund that went through.
  pub record IsRefund (order_id operator_id : ℕ) (mode : Option RefundMode) (pol : RefundPolicy F)
      (now : ℕ) (db : Db) (q : RefundQuote F) (db' : Db) : Type ℓ where
    pub order : Order
    pub user : User
    pub found : order_row order_id db ≡ some order
    pub open_order : is_refunded order.status ≡ false
    pub owner : find_user order.user_id db ≡ some user
    pub quote : order_quote order mode pol now db ≡ q
    pub marked :
        mark_refunded order_id q.refund_points q.refund_traffic now
          (undo order operator_id user q now db)
        ≡ db'

  pub refund_order-IsRefund :
      (order_id operator_id : ℕ) (mode : Option RefundMode) (pol : RefundPolicy F)
      (sync : User → Bool) (now : ℕ) (db : Db) (v : User) (q : RefundQuote F) (db' : Db)
      → refund_order order_id operator_id mode pol sync now db ≡ ok ((v, q), db')
      → IsRefund order_id operator_id mode pol now db q db'
  unfolding refund_order
  refund_order-IsRefund order_id operator_id mode pol sync now db v q db' h =
      let (o, kept, h1) = >>=-eq-ok (or_fail (order_row order_id db) order_not_found) _ h in
      let (still, h2) = guarded-eq-ok (is_refunded o.status) already_refunded _ h1 in
      let (u, owner, h3) = >>=-eq-ok (or_fail (find_user o.user_id db) user_not_found) _ h2 in
      let (single, h4) = guarded-eq-ok _ already_refunded _ h3 in
      let (synced, h5) = guarded-eq-ok _ sync_failed _ h4 in
      let same = ok-injective _ _ h5 in
      let quoted : order_quote o mode pol now db ≡ q = ap (λ x. x.0.1) same in
      let tables = ap (λ x. x.1) same in
      record {
        order = o;
        user = u;
        found = or_fail-eq-ok _ order_not_found kept;
        open_order = still;
        owner = or_fail-eq-ok _ user_not_found owner;
        quote = quoted;
        marked =
            subst
              (λ r.
                mark_refunded order_id r.refund_points r.refund_traffic now
                  (undo o operator_id u r now db)
                ≡ db')
              quoted tables;
      }

-- the order that is marked is no other order
order-mark_ne :
    (i order_id : ℕ) (f : Order → Order)
    → ((o : Order) → (f o).id ≡ o.id)
    → (os : List Order) → (i == order_id) ≡ false
    → first (λ (o : Order). o.id == i) (update_where (is_open_order order_id) f os)
      ≡ first (λ (o : Order). o.id == i) os
order-mark_ne i order_id f keep [] ne = refl
order-mark_ne i order_id f keep (o ∷ os) ne =
    ground (arith, keep o, order-mark_ne i order_id f keep os ne)

-- what the user had, and what comes on top
paid_on_top :
    (p q b : ℕ) (same : Bool)
    → (same ≡ true → b ≡ p)
    → (if same then p + q else b) ≡ b + (if same then q else 0)
paid_on_top p q b true own = omega (arith, own refl)
paid_on_top p q b false own = omega arith

module _ {ℓ} {F : Type ℓ} ⦃d : Float F⦄ where
  -- A refund that goes through finds an order that was not refunded. It pays the order's user at most
  -- the order's price, whatever the floating-point ratio is, and nobody else; every balance moves by
  -- exactly what the ledger books, at most the order's quota is reported as taken back, and no other
  -- order and no package changes.
  pub refund_order-pays :
      (order_id operator_id : ℕ) (mode : Option RefundMode) (pol : RefundPolicy F)
      (sync : User → Bool) (now : ℕ) (db : Db) (v : User) (q : RefundQuote F) (db' : Db)
      → refund_order order_id operator_id mode pol sync now db ≡ ok ((v, q), db')
      → (o : Order) × (order_row order_id db ≡ some o)
        × (is_refunded o.status ≡ false)
        × (q.refund_points ≤ o.price_points)
        × (q.refund_traffic ≤ o.package_snapshot.traffic_bytes)
        × ((j : ℕ) → balance j db' ≡ balance j db + (if j == o.user_id then q.refund_points else 0))
        × IsBooked db db'
        × ((i : ℕ) → (i == order_id) ≡ false → order_row i db' ≡ order_row i db)
        × (db'.packages ≡ db.packages)
  unfolding mark_refunded
  refund_order-pays order_id operator_id mode pol sync now db v q db' h =
      let r = refund_order-IsRefund order_id operator_id mode pol sync now db v q db' h in
      let within = order_quote_bounds r.order mode pol now db in
      let undone = undo r.order operator_id r.user q now db in
      let u = undo-IsUndone r.order operator_id r.user q now db r.owner in
      (
        r.order,
        r.found,
        r.open_order,
        subst (λ (p : RefundQuote F). p.refund_points ≤ r.order.price_points) r.quote within.points,
        subst (λ (p : RefundQuote F). p.refund_traffic ≤ r.order.package_snapshot.traffic_bytes)
            r.quote within.quota,
        λ j.
            ap (balance j) (sym r.marked)
            ∙ u.balances j
            ∙ paid_on_top r.user.points q.refund_points (balance j db) (j == r.order.user_id) (λ e.
              ap (λ i. balance i db) ((==_iff j r.order.user_id).0 e) ∙ ap points_of r.owner),
        subst (IsBooked db) r.marked u.booked,
        λ i ne.
            ap (order_row i) (sym r.marked)
            ∙ order-mark_ne i order_id _ (λ o. refl) undone.orders ne
            ∙ ap (λ os. first (λ (o : Order). o.id == i) os) u.orders,
        ap (λ (t : Db). t.packages) (sym r.marked) ∙ u.packages,
      )
