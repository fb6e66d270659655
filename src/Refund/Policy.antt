-- ===== src/Refund/Policy.antt =====
-- internal/store/refund.go: the refund policy and the arithmetic of a refund, `refundPolicy`,
-- `combineRatios`, `applyFee` and `roundRefund`. Go's float64 is a parameter with the operations that
-- the code uses.
use qing_zhou.Common.{ℕ, ◌≤◌, arith, String, Bool, true, false, ◌&&◌, ltb, str_eq, if◌then◌else◌}
use qing_zhou.Common.Int.{ℤ, pos, negsuc}

-- float64, `math.Min`, `int64(math.Round(x))`, and the value that `strconv.ParseFloat` returns
pub record Float {ℓ} (F : Type ℓ) : Type ℓ where
  pub of_int : ℤ → F
  pub times : F → F → F
  pub over : F → F → F
  pub minus : F → F → F
  pub lt : F → F → Bool
  pub ge : F → F → Bool
  pub min : F → F → F
  pub round : F → ℤ
  pub parse : String → F

pub data RefundMode : Type 0 where
  prorated full : RefundMode

pub data RefundBasis : Type 0 where
  by_min by_traffic by_time : RefundBasis

abbrev pub is_full : RefundMode → Bool
is_full RefundMode.full = true
is_full RefundMode.prorated = false

module _ {ℓ} (F : Type ℓ) where
  -- `RefundPolicy`
  pub record RefundPolicy : Type ℓ where
    pub mode : RefundMode
    pub basis : RefundBasis
    pub fee_percent : F

unfoldable pub clamp_points : ℕ → ℤ → ℕ
clamp_points price (negsuc _) = 0
clamp_points price (pos points) = if ltb price points then price else points

clamp_points-le : (price : ℕ) (z : ℤ) → clamp_points price z ≤ price
unfolding clamp_points
clamp_points-le price (negsuc n) = omega arith
clamp_points-le price (pos n) = ground arith

module _ {ℓ} {F : Type ℓ} ⦃d : Float F⦄ where
  abbrev pub nought : F
  nought = d.of_int (pos 0)

  abbrev pub one : F
  one = d.of_int (pos 1)

  -- -1, "does not apply"
  abbrev pub not_applicable : F
  not_applicable = d.of_int (negsuc 0)

  -- `refundPolicy`, whose settings are a function from keys to texts, "" for a missing key
  unfoldable pub refund_policy : (String → String) → RefundPolicy F
  refund_policy settings =
      let fee = d.parse (settings "refund_fee_percent") in
      let basis = settings "refund_basis" in
      record {
        mode =
            if str_eq (settings "refund_mode") "full" then RefundMode.full else RefundMode.prorated;
        basis =
            if str_eq basis "traffic"
            then RefundBasis.by_traffic
            else if str_eq basis "time"
            then RefundBasis.by_time
            else RefundBasis.by_min;
        fee_percent =
            if d.lt fee nought
            then nought
            else if d.lt (d.of_int (pos 100)) fee
            then d.of_int (pos 100)
            else fee;
      }

  -- `combineRatios`
  unfoldable pub combine_ratios : RefundBasis → F → F → F
  combine_ratios RefundBasis.by_traffic traffic time =
      if d.ge traffic nought then traffic else if d.ge time nought then time else one
  combine_ratios RefundBasis.by_time traffic time =
      if d.ge time nought then time else if d.ge traffic nought then traffic else one
  combine_ratios RefundBasis.by_min traffic time =
      if d.ge traffic nought && d.ge time nought
      then d.min traffic time
      else if d.ge traffic nought
      then traffic
      else if d.ge time nought
      then time
      else one

  -- `applyFee`
  unfoldable pub apply_fee : F → F → F
  apply_fee ratio fee_percent =
      let r = d.times ratio (d.minus one (d.over fee_percent (d.of_int (pos 100)))) in
      if d.lt r nought then nought else if d.lt one r then one else r

  -- `roundRefund`
  unfoldable pub round_refund : ℕ → F → ℕ
  unfolding clamp_points
  round_refund price ratio = clamp_points price (d.round (d.times (d.of_int (pos price)) ratio))

  -- Points that come back are never more than the price, whatever the ratio is.
  pub round_refund-le : (price : ℕ) (ratio : F) → round_refund price ratio ≤ price
  unfolding round_refund
  round_refund-le price ratio = clamp_points-le price _
