-- ===== src/Bucket/Service.antt =====
-- internal/store/userplans.go and periods.go: the Go methods and the SQL predicates which ask whether
-- a row is in service, or due for a reset.
use qing_zhou.Common.{ℕ, ◌<◌, ◌≤◌, true, ◌⊎◌, ◌≡◌, ◌≢◌, ◌↔◌, arith}
use qing_zhou.Common.Int.{pos, ◌≤ℤ◌}
use qing_zhou.Bucket.{
  Bucket, Kind, Status, next_reset_at, not_expired, can_carry, usable_head, usable_expr, period_due,
}

-- For a plan row whose status is active, the SQL of `usableExpr` and the Go method `Active` answer
-- alike, and the row owns its line's slot exactly when it has not expired and either can carry
-- traffic or is periodic.
pub usable_head-can_carry :
    (now : ℕ) (b : Bucket)
    → b.kind ≡ Kind.plan
    → b.status ≡ Status.active
    → (usable_expr now b ≡ can_carry now b)
      × ((usable_head now b ≡ true)
          ↔ ((not_expired now b ≡ true) × ((can_carry now b ≡ true) ⊎ (0 < b.period_days))))
unfolding usable_expr usable_head can_carry not_expired
usable_head-can_carry now b k s = (ground arith, (λ h. ground arith, λ h. ground arith))

-- Where the expiry is not negative, a row is due for a reset exactly when `NextResetAt` names an
-- instant that is not in the future.
pub period_due-next_reset_at :
    (now : ℕ) (b : Bucket)
    → pos 0 ≤ℤ b.expiry_at
    → (period_due now b ≡ true) ↔ ((next_reset_at b ≢ 0) × (next_reset_at b ≤ now))
unfolding period_due next_reset_at
period_due-next_reset_at now b h = (λ d. ground arith, λ d. ground arith)
