-- ===== src/Refund/Quote/Bounds.antt =====
-- internal/store/refund.go: the bounds of a quote.
use qing_zhou.Common.{ℕ, ◌≤◌, Option, none, some, inl, inr, arith, Bool-cases}
use qing_zhou.Package.{Package}
use qing_zhou.Store.{Order, Db}
use qing_zhou.Refund.Policy.{Float, RefundMode, RefundPolicy, is_full, round_refund-le}
use qing_zhou.Refund.Quote.{
  RefundQuote, LiveRow, order_quote, compute_refund_quote, whole_quote, share_quote, quote_of,
  unused_quota, with_mode,
}

unused_quota-le : (snap : Package) (r : LiveRow) → unused_quota snap r ≤ snap.traffic_bytes
unfolding unused_quota
unused_quota-le snap r = ground arith

module _ {ℓ} {F : Type ℓ} ⦃d : Float F⦄ where
  pub record IsWithin (snap : Package) (price : ℕ) (q : RefundQuote F) : Type 0 where
    pub points : q.refund_points ≤ price
    pub quota : q.refund_traffic ≤ snap.traffic_bytes

  whole_quote-IsWithin :
      (snap : Package) (price : ℕ) (pol : RefundPolicy F)
      → IsWithin snap price (whole_quote snap price pol)
  unfolding whole_quote
  whole_quote-IsWithin snap price pol = record {
    points = round_refund-le {F = F} price _;
    quota = omega arith;
  }

  quote_of-IsWithin :
      (snap : Package) (price : ℕ) (pol : RefundPolicy F) (now : ℕ) (r : Option LiveRow)
      → IsWithin snap price (quote_of snap price pol now r)
  unfolding quote_of share_quote
  quote_of-IsWithin snap price pol now none = whole_quote-IsWithin snap price pol
  quote_of-IsWithin snap price pol now (some r) = record {
    points = round_refund-le {F = F} price _;
    quota = unused_quota-le snap r;
  }

  compute_refund_quote-IsWithin :
      (order_id user_id package_id : ℕ) (snap : Package) (price : ℕ) (pol : RefundPolicy F)
      (now : ℕ) (db : Db)
      → IsWithin snap price (compute_refund_quote order_id user_id package_id snap price pol now db)
  unfolding compute_refund_quote
  compute_refund_quote-IsWithin order_id user_id package_id snap price pol now db =
      elim (Bool-cases (is_full pol.mode)) [
        | inl whole ↦ rw whole (whole_quote-IsWithin snap price pol)
        | inr share ↦ rw share (quote_of-IsWithin snap price pol now _)
      ]

  pub order_quote_bounds :
      (o : Order) (mode : Option RefundMode) (pol : RefundPolicy F) (now : ℕ) (db : Db)
      → IsWithin o.package_snapshot o.price_points (order_quote o mode pol now db)
  order_quote_bounds o mode pol now db =
      let within =
        compute_refund_quote-IsWithin o.id o.user_id o.package_id o.package_snapshot o.price_points
          (with_mode mode pol) now db in
      record { points = within.points; quota = within.quota }
