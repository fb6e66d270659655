-- ===== src/Refund/Once.antt =====
-- internal/store/purchase.go: the refund of an order that was refunded.
use qing_zhou.Common.{
  ℕ, ◌≡◌, refl, Bool, true, false, Option, some, ◌∙◌, ap, sym, ◌==◌, first, first-update_where,
  first-Memᴰ,
}
use qing_zhou.Result.{ok, err, already_refunded}
use qing_zhou.Store.{User, Order, OrderStatus, Db}
use qing_zhou.Refund.{undo, mark_refunded, is_open_order, refund_order}
use qing_zhou.Refund.Policy.{Float, RefundMode, RefundPolicy}
use qing_zhou.Refund.Quote.{RefundQuote, is_refunded}
use qing_zhou.Refund.Paying.{order_row, refund_order-IsRefund, undo-IsUndone}

-- the order as a refund leaves it
order-mark_refunded :
    (order_id points traffic now : ℕ) (db : Db) (o : Order)
    → order_row order_id db ≡ some o
    → is_refunded o.status ≡ false
    → (p : Order) × (order_row order_id (mark_refunded order_id points traffic now db) ≡ some p)
      × (is_refunded p.status ≡ true)
unfolding mark_refunded
order-mark_refunded order_id points traffic now db o found still =
    let own = (first-Memᴰ (λ (o : Order). o.id == order_id) db.orders found).1 in
    (
      record o {
        status = OrderStatus.refunded;
        refunded_points = points;
        refunded_at = now;
        refunded_traffic = traffic;
      },
      first-update_where (λ (o : Order). o.id == order_id) (is_open_order order_id) _ db.orders o
          (λ o. refl) (rw (own, still) refl) found,
      refl,
    )

-- Once an order was refunded, every later refund of it is refused as a second one: in whatever mode,
-- under whatever policy, by whomever, at whatever time, and whatever the nodes answer.
pub refund_order-once {ℓ} :
    {F : Type ℓ} ⦃d : Float F⦄ (order_id operator_id : ℕ) (mode : Option RefundMode)
    (pol : RefundPolicy F) (sync : User → Bool) (now : ℕ) (db : Db) (v : User) (q : RefundQuote F)
    (db' : Db)
    → refund_order order_id operator_id mode pol sync now db ≡ ok ((v, q), db')
    → (operator_id' : ℕ) (mode' : Option RefundMode) (pol' : RefundPolicy F) (sync' : User → Bool)
      (now' : ℕ)
    → refund_order order_id operator_id' mode' pol' sync' now' db' ≡ err already_refunded
unfolding refund_order
refund_order-once order_id operator_id mode pol sync now db v q db' h operator_id' mode' pol' sync'
      now' =
    let r = refund_order-IsRefund order_id operator_id mode pol sync now db v q db' h in
    let u = undo-IsUndone r.order operator_id r.user q now db r.owner in
    let kept = ap (λ os. first (λ (o : Order). o.id == order_id) os) u.orders ∙ r.found in
    let (p, found, done) =
      order-mark_refunded order_id q.refund_points q.refund_traffic now
        (undo r.order operator_id r.user q now db) r.order kept r.open_order in
    rw (ap (order_row order_id) (sym r.marked) ∙ found, done) refl
