-- ===== src/Refund/Quote.antt =====
-- internal/store/refund.go: what refunding an order gives back, `computeRefundQuote` and
-- `RefundPreview`.
pub mod Bounds
use qing_zhou.Common.{
  ℕ, ◌+◌, ◌-◌, ◌*◌, String, Bool, true, false, not, ◌&&◌, ◌||◌, Option, none, some, ltb, ◌==◌,
  first, smaller, if◌then◌else◌,
}
use qing_zhou.Common.Int.{ℤ, pos, negsuc, ◌-ℤ◌, pos_part}
use qing_zhou.Result.{Result, ok, order_not_found, or_fail, ◌>>=◌}
use qing_zhou.Bucket.{Bucket, is_plan, is_queued, used, day}
use qing_zhou.Package.{Package, PackageType, is_plan_type}
use qing_zhou.Store.{Order, OrderStatus, Db}
use qing_zhou.Grants.{is_pool_of}
use qing_zhou.UserPlans.{is_merged}
use qing_zhou.Refund.Policy.{
  Float, RefundMode, RefundBasis, is_full, RefundPolicy, combine_ratios, apply_fee, round_refund,
  nought, one, not_applicable,
}

abbrev pub is_refunded : OrderStatus → Bool
is_refunded OrderStatus.refunded = true
is_refunded OrderStatus.success = false

module _ {ℓ} (F : Type ℓ) where
  -- `RefundQuote`
  pub record RefundQuote : Type ℓ where
    pub order_id : ℕ
    pub price_points : ℕ
    pub mode : RefundMode
    pub basis : RefundBasis
    pub type : PackageType
    pub name : String
    pub total_traffic : ℕ
    pub used_traffic : ℕ
    pub refund_traffic : ℕ
    pub traffic_ratio : F
    pub time_ratio : F
    pub ratio : F
    pub fee_percent : F
    pub refund_points : ℕ
    pub already_done : Bool

-- what the quote reads of the row that an order fed
pub record LiveRow : Type 0 where
  pub limit : ℕ
  pub used : ℕ
  pub expiry : ℤ
  pub period_days : ℕ
  pub found : Bool

abbrev pub no_row : LiveRow
no_row = record { limit = 0; used = 0; expiry = pos 0; period_days = 0; found = false }

-- the row of an order, and the oldest row of a package
abbrev pub is_order_row : ℕ → ℕ → Bucket → Bool
is_order_row user_id order_id b = is_plan b.kind && (b.user_id == user_id && b.order_id == order_id)

abbrev pub is_package_row : ℕ → ℕ → Bucket → Bool
is_package_row user_id package_id b =
    b.user_id == user_id && (is_plan b.kind && b.package_id == package_id)

abbrev pub row_values : Bucket → ℕ → LiveRow
row_values b period_days = record {
  limit = b.traffic_limit;
  used = used b;
  expiry = b.expiry_at;
  period_days = period_days;
  found = true;
}

-- the package's oldest row, where the order has no row of its own or a merged one
unfoldable pub package_values : ℕ → ℕ → LiveRow → Db → LiveRow
package_values user_id package_id scanned db =
    elim (first (is_package_row user_id package_id) db.user_plans) [
      | none ↦ record scanned { found = false }
      | some b ↦ row_values b scanned.period_days
    ]

-- the row of a plan's order; `none` for a row that still waits in the queue
unfoldable pub plan_values : ℕ → ℕ → ℕ → ℕ → Db → Option LiveRow
unfolding package_values
plan_values order_id user_id package_id traffic_bytes db =
    elim (first (is_order_row user_id order_id) db.user_plans) [
      | none ↦ some (package_values user_id package_id no_row db)
      | some b ↦
          if is_queued b.status
          then none
          else if ltb 0 b.period_days || not (is_merged traffic_bytes b)
          then some (row_values b b.period_days)
          else some (package_values user_id package_id (row_values b b.period_days) db)
    ]

-- the pool, which never expires
unfoldable pub pool_values : ℕ → Db → LiveRow
pool_values user_id db = elim (first (is_pool_of user_id) db.user_plans) [
  | none ↦ no_row
  | some b ↦ record {
    limit = b.traffic_limit;
    used = used b;
    expiry = pos 0;
    period_days = 0;
    found = true;
  }
]

unfoldable pub live_values : ℕ → ℕ → ℕ → Package → Db → Option LiveRow
unfolding plan_values pool_values
live_values order_id user_id package_id snap db =
    if is_plan_type snap.type
    then plan_values order_id user_id package_id snap.traffic_bytes db
    else some (pool_values user_id db)

-- the part of the order's quota that is still in the row; the quota of a row with periods refills, and
-- is no share of the order
unfoldable pub unused_quota : Package → LiveRow → ℕ
unused_quota snap r =
    if ltb 0 r.period_days
    then 0
    else if ltb 0 snap.traffic_bytes
    then smaller snap.traffic_bytes (if r.found then r.limit - r.used else 0)
    else 0

module _ {ℓ} {F : Type ℓ} ⦃d : Float F⦄ where
  abbrev pub empty_quote : Package → ℕ → RefundPolicy F → RefundQuote F
  empty_quote snap price pol = record {
    order_id = 0;
    price_points = price;
    mode = pol.mode;
    basis = pol.basis;
    type = snap.type;
    name = snap.name;
    total_traffic = snap.traffic_bytes;
    used_traffic = 0;
    refund_traffic = 0;
    traffic_ratio = not_applicable;
    time_ratio = not_applicable;
    ratio = nought;
    fee_percent = pol.fee_percent;
    refund_points = 0;
    already_done = false;
  }

  -- the quote for an order that is given back whole, less the fee
  unfoldable pub whole_quote : Package → ℕ → RefundPolicy F → RefundQuote F
  unfolding apply_fee round_refund
  whole_quote snap price pol =
      let ratio = apply_fee one pol.fee_percent in
      record (empty_quote snap price pol) {
        ratio = ratio;
        refund_traffic = snap.traffic_bytes;
        refund_points = round_refund price ratio;
      }

  unfoldable pub traffic_share : Package → LiveRow → F
  unfolding unused_quota
  traffic_share snap r =
      if ltb 0 r.period_days || not (ltb 0 snap.traffic_bytes)
      then not_applicable
      else d.over (d.of_int (pos (unused_quota snap r))) (d.of_int (pos snap.traffic_bytes))

  -- the part of the order's time that has not passed
  unfoldable pub time_share : Package → LiveRow → ℕ → F
  unfolding ◌-ℤ◌
  time_share snap r now =
      if is_plan_type snap.type && ltb 0 snap.duration_days
      then (let order_sec = snap.duration_days * day in
          let remain_sec = if r.found then pos_part (r.expiry -ℤ pos now) else 0 in
          d.over (d.of_int (pos (smaller order_sec remain_sec))) (d.of_int (pos order_sec)))
      else not_applicable

  -- the quote for what is left of an order in its row
  unfoldable pub share_quote : Package → ℕ → RefundPolicy F → ℕ → LiveRow → RefundQuote F
  unfolding unused_quota traffic_share time_share combine_ratios apply_fee round_refund
  share_quote snap price pol now r =
      let traffic = traffic_share snap r in
      let time = time_share snap r now in
      let ratio = apply_fee (combine_ratios pol.basis traffic time) pol.fee_percent in
      record (empty_quote snap price pol) {
        used_traffic = r.used;
        refund_traffic = unused_quota snap r;
        traffic_ratio = traffic;
        time_ratio = time;
        ratio = ratio;
        refund_points = round_refund price ratio;
      }

  quote_of : Package → ℕ → RefundPolicy F → ℕ → Option LiveRow → RefundQuote F
  unfolding whole_quote share_quote
  quote_of snap price pol now none = whole_quote snap price pol
  quote_of snap price pol now (some r) = share_quote snap price pol now r

  -- `computeRefundQuote`
  unfoldable pub compute_refund_quote :
      ℕ → ℕ → ℕ → Package → ℕ → RefundPolicy F → ℕ → Db → RefundQuote F
  unfolding whole_quote live_values quote_of
  compute_refund_quote order_id user_id package_id snap price pol now db =
      if is_full pol.mode
      then whole_quote snap price pol
      else quote_of snap price pol now (live_values order_id user_id package_id snap db)

  -- the mode that an administrator asks for, `none` for the policy's
  abbrev pub with_mode : Option RefundMode → RefundPolicy F → RefundPolicy F
  with_mode none pol = pol
  with_mode (some mode) pol = record pol { mode = mode }

  abbrev pub order_quote : Order → Option RefundMode → RefundPolicy F → ℕ → Db → RefundQuote F
  order_quote o mode pol now db =
      record (compute_refund_quote o.id o.user_id o.package_id o.package_snapshot o.price_points
        (with_mode mode pol) now db) { order_id = o.id; already_done = is_refunded o.status }

  -- `RefundPreview`
  unfoldable pub refund_preview :
      ℕ → Option RefundMode → RefundPolicy F → ℕ → Db → Result (RefundQuote F)
  unfolding compute_refund_quote
  refund_preview order_id mode pol now db = do
    o ← or_fail (first (λ (o : Order). o.id == order_id) db.orders) order_not_found
    ok (order_quote o mode pol now db)
