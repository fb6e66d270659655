-- ===== src/Periods/Reset.antt =====
-- internal/store/periods.go: what a reset makes of a row's period.
use qing_zhou.Common.{
  ℕ, ◌+◌, ◌-◌, ◌*◌, ◌/◌, ◌≤◌, ◌<◌, ◌≡◌, refl, true, false, ◌&&◌, List, [], ◌∷◌, ◌==◌, any, select,
  any-update_where, any-update_where_self, select_of_any, any_of_select, Pointwise, Pointwise-refl,
  Pointwise-trans, Pointwise-update_where, arith, ap, ◌∙◌,
}
use qing_zhou.Bucket.{Bucket, period_due}
use qing_zhou.Lines.{recompute_user_aggregate}
use qing_zhou.Package.{Package}
use qing_zhou.Queue.{refresh_period_limits, is_running, borrowable_limit}
use qing_zhou.Store.{Db}
use qing_zhou.Periods.{
  period_length, periods_passed, new_start, roll, is_due_of, rolled_rows, finish_reset,
  reset_user_periods,
}

-- whole periods from an anchor
start_bounds :
    (start p now : ℕ)
    → 0 < p
    → start + p ≤ now
    → (start + (now - start) / p * p ≤ now)
      × (now < start + (now - start) / p * p + p)
      × (1 ≤ (now - start) / p)
start_bounds start p now h k = (grind arith, grind arith, grind arith)

-- The new period of a row that is due began at or before now, ends after now, and lies a whole and
-- positive number of periods after the old one.
pub new_start_bounds :
    (now : ℕ) (d : Bucket)
    → period_due now d ≡ true
    → (new_start now d ≤ now)
      × (now < new_start now d + period_length d)
      × (new_start now d ≡ d.period_start + periods_passed now d * period_length d)
      × (1 ≤ periods_passed now d)
unfolding new_start periods_passed period_due
new_start_bounds now d due =
    let (low, high, one) =
      start_bounds d.period_start (period_length d) now (ground arith) (ground arith) in
    (low, high, refl, one)

-- What a reset keeps of a row: its owner and identity, its expiry, and all the usage that was ever
-- counted on it.
pub record IsRolled (b c : Bucket) : Type 0 where
  pub id : c.id ≡ b.id
  pub user_id : c.user_id ≡ b.user_id
  pub status : c.status ≡ b.status
  pub expiry_at : c.expiry_at ≡ b.expiry_at
  pub lifetime_up : c.life_used_up + c.used_up ≡ b.life_used_up + b.used_up
  pub lifetime_down : c.life_used_down + c.used_down ≡ b.life_used_down + b.used_down

roll_not_due :
    (user_id now : ℕ) (b : Bucket)
    → is_due_of user_id now b ≡ true
    → is_due_of user_id now (roll now b) ≡ false
unfolding roll
roll_not_due user_id now b t =
    let (_, high, _, _) = new_start_bounds now b (ground (arith, t)) in
    unfold period_due in ground arith

IsRolled-refl : (b : Bucket) → IsRolled b b
IsRolled-refl b = ground arith

roll-IsRolled : (now : ℕ) (b : Bucket) → IsRolled b (roll now b)
unfolding roll
roll-IsRolled now b = ground arith

IsRolled-trans : (a b c : Bucket) → IsRolled a b → IsRolled b c → IsRolled a c
IsRolled-trans a b c r s = record {
  id = s.id ∙ r.id;
  user_id = s.user_id ∙ r.user_id;
  status = s.status ∙ r.status;
  expiry_at = s.expiry_at ∙ r.expiry_at;
  lifetime_up = s.lifetime_up ∙ r.lifetime_up;
  lifetime_down = s.lifetime_down ∙ r.lifetime_down;
}

limit-IsRolled : (limit : ℕ) (b : Bucket) → IsRolled b (record b { traffic_limit = limit })
limit-IsRolled limit b = ground arith

finish_reset-IsRolled :
    (user_id now : ℕ) (db : Db) (due : List Bucket)
    → Pointwise IsRolled db.user_plans (finish_reset user_id now db due).0.user_plans
unfolding finish_reset recompute_user_aggregate rolled_rows refresh_period_limits
finish_reset-IsRolled user_id now db [] = Pointwise-refl IsRolled IsRolled-refl db.user_plans
finish_reset-IsRolled user_id now db (d ∷ due) =
    let rows = rolled_rows user_id now db.user_plans in
    Pointwise-trans IsRolled IsRolled-trans db.user_plans rows
      (refresh_period_limits db.packages user_id rows)
      (Pointwise-update_where IsRolled (is_due_of user_id now) (roll now) db.user_plans
        IsRolled-refl (λ b t. roll-IsRolled now b))
      (Pointwise-update_where IsRolled _ _ rows IsRolled-refl
        (λ b t. limit-IsRolled (borrowable_limit db.packages rows b) b))

-- A reset keeps every row with its id, owner, state and expiry, and loses no usage: on each row the
-- archived and the current counters add up to what they added up to before.
pub reset_user_periods-IsRolled :
    (user_id now : ℕ) (db : Db)
    → Pointwise IsRolled db.user_plans (reset_user_periods user_id now db).0.user_plans
unfolding reset_user_periods
reset_user_periods-IsRolled user_id now db =
    finish_reset-IsRolled user_id now db (select (is_due_of user_id now) db.user_plans)

module _ (user_id now : ℕ) where
  refresh-due :
      (packages : List Package) (rows : List Bucket)
      → any (is_due_of user_id now) (refresh_period_limits packages user_id rows)
        ≡ any (is_due_of user_id now) rows
  unfolding refresh_period_limits period_due
  refresh-due packages rows =
      any-update_where (is_due_of user_id now)
        (λ (b : Bucket). is_running b && b.user_id == user_id)
        (λ (b : Bucket). record b { traffic_limit = borrowable_limit packages rows b }) rows
        (λ b t. refl)

  rolled-due :
      (rows : List Bucket) → any (is_due_of user_id now) (rolled_rows user_id now rows) ≡ false
  unfolding rolled_rows
  rolled-due rows =
      any-update_where_self (is_due_of user_id now) (roll now) rows (roll_not_due user_id now)

  finish_reset-due :
      (db : Db) (due : List Bucket)
      → select (is_due_of user_id now) db.user_plans ≡ due
      → any (is_due_of user_id now) (finish_reset user_id now db due).0.user_plans ≡ false
  unfolding finish_reset recompute_user_aggregate
  finish_reset-due db [] e = any_of_select (is_due_of user_id now) db.user_plans e
  finish_reset-due db (d ∷ due) e =
      refresh-due db.packages (rolled_rows user_id now db.user_plans) ∙ rolled-due db.user_plans

-- After a reset of a user's periods none of the user's rows is due, and a second reset at the same
-- instant changes nothing in any table.
pub reset_user_periods_settles :
    (user_id now : ℕ) (db : Db)
    → let db' = (reset_user_periods user_id now db).0 in
      (any (is_due_of user_id now) db'.user_plans ≡ false)
      × (reset_user_periods user_id now db' ≡ (db', false))
unfolding reset_user_periods
reset_user_periods_settles user_id now db =
    let settled =
      finish_reset-due user_id now db (select (is_due_of user_id now) db.user_plans) refl in
    (
      settled,
      ap
          (finish_reset user_id now
            (finish_reset user_id now db (select (is_due_of user_id now) db.user_plans)).0)
          (select_of_any (is_due_of user_id now) _ settled),
    )
