-- ===== src/Scenarios/Queues.antt =====
-- Queues, periods, and an administrator's changes on the tables of `Scenarios`.
use mathlib.Core.List.{Memᴰ}
use qing_zhou.Common.{
  ℕ, ◌+◌, ◌≤◌, ◌<◌, ◌≡◌, ◌⊎◌, refl, true, false, ◌&&◌, some, any, first, arith, Pointwise, All,
  Distinct, larger, select, not, ◌==◌,
}
use qing_zhou.Common.Int.{pos, negsuc, ◌+ℤ◌}
use qing_zhou.Result.{Result, is_ok, ok_or, ok_of-is_ok}
use qing_zhou.Bucket.{
  Bucket, usable_head, period_due, periodic, used, is_active, is_free, is_queued, is_retired,
  is_plan, not_expired,
}
use qing_zhou.Queue.{advance_user_queues, advance_line, queue_due, in_line, borrowable_limit}
use qing_zhou.Queue.Line.{Keeps}
use qing_zhou.Queue.Kept.{ids, is_waiting, advance_user_queues-Keeps}
use qing_zhou.Queue.Progress.{IsReady}
use qing_zhou.Queue.Due.{advance_user_queues_settles, advance_user_queues_again}
use qing_zhou.Queue.Heads.{Ascending, IsServing, advance_line_oldest}
use qing_zhou.Periods.{reset_user_periods, periods_passed, next_quota, is_due_of}
use qing_zhou.Periods.Reset.{IsRolled, reset_user_periods-IsRolled, reset_user_periods_settles}
use qing_zhou.Periods.Borrowing.{next_quota-conserves}
use qing_zhou.UserPlans.{delete_bucket, adjust_bucket_traffic, is_own}
use qing_zhou.UserPlans.Adjusting.{
  IsAdjusted, IsAside, delete_bucket-settles, adjust_bucket_traffic-limit,
}
use qing_zhou.PlanLines.{convert_row}
use qing_zhou.PlanLines.Converting.{IsPeriods, IsShare, IsStart, convert_row-fresh}
use qing_zhou.Store.{Db}
use qing_zhou.Scenarios.{shop, head, periodical}

shop-Distinct : Distinct (ids shop.user_plans)
shop-Distinct = ((refl, (refl, (refl, tt))), ((refl, (refl, tt)), ((refl, tt), (tt, tt))))

shop-IsReady : All IsReady shop.user_plans
shop-IsReady = ground arith

advance_user_queues_settles_example :
    All
      (λ c. c.user_id ≡ 1 → queue_due 5000 (advance_user_queues 1 5000 shop).0.user_plans c ≡ false)
      (advance_user_queues 1 5000 shop).0.user_plans
advance_user_queues_settles_example =
    advance_user_queues_settles 1 5000 shop shop-Distinct shop-IsReady

advance_user_queues_again_example :
    (advance_user_queues 1 5000 (advance_user_queues 1 5000 shop).0).1 ≡ false
advance_user_queues_again_example = advance_user_queues_again 1 5000 shop shop-Distinct shop-IsReady

advance_user_queues-Keeps_example :
    Pointwise (Keeps 1) shop.user_plans (advance_user_queues 1 5000 shop).0.user_plans
advance_user_queues-Keeps_example = advance_user_queues-Keeps 1 5000 shop shop-Distinct

shop-Ascending : Ascending (ids shop.user_plans)
shop-Ascending = ground arith

-- the waiting row takes over from the head that has used up its quota
takes_over : (advance_line 1 5000 "gold" shop.user_plans).1 ≡ true
unfolding advance_line usable_head
takes_over = refl

advance_line_oldest_example :
    (q : Bucket) × Memᴰ q shop.user_plans
    × (is_waiting 1 "gold" q ≡ true)
    × All (λ b. is_waiting 1 "gold" b ≡ true → q.id ≤ b.id) shop.user_plans
    × All
        (λ c. (in_line 1 "gold" c && is_active c.status) ≡ true → c.id ≡ q.id)
        (advance_line 1 5000 "gold" shop.user_plans).0
    × ((c : Bucket) × Memᴰ c (advance_line 1 5000 "gold" shop.user_plans).0
        × IsServing 1 5000 "gold" q shop.user_plans c)
advance_line_oldest_example =
    advance_line_oldest 1 5000 "gold" shop.user_plans shop-Ascending takes_over

-- bob's period of 30 days has ended
abbrev later : ℕ
later = 2700000

periodical_due : period_due later periodical ≡ true
unfolding period_due
periodical_due = refl

reset_user_periods-IsRolled_example :
    Pointwise IsRolled shop.user_plans (reset_user_periods 2 later shop).0.user_plans
reset_user_periods-IsRolled_example = reset_user_periods-IsRolled 2 later shop

reset_user_periods_settles_example :
    (any (is_due_of 2 later) (reset_user_periods 2 later shop).0.user_plans ≡ false)
    × (reset_user_periods 2 later (reset_user_periods 2 later shop).0
        ≡ ((reset_user_periods 2 later shop).0, false))
reset_user_periods_settles_example = reset_user_periods_settles 2 later shop

-- a row that may borrow, and has
abbrev borrower : Bucket
borrower = record periodical { advance_override = some 1 }

one_passed : periods_passed later borrower ≡ 1
unfolding periods_passed
one_passed = refl

within_limit : used borrower ≤ borrowable_limit shop.packages shop.user_plans borrower
unfolding borrowable_limit
within_limit = omega arith

next_quota-conserves_example :
    larger borrower.period_base (used borrower) + next_quota later borrower
    ≡ borrower.period_base + borrower.period_quota
next_quota-conserves_example =
    next_quota-conserves shop.packages shop.user_plans later borrower one_passed within_limit

is_periodic : periodic borrower ≡ true
unfolding periodic
is_periodic = refl

abbrev deleted : Result (Bucket × Db)
deleted = delete_bucket 1 1 5000 shop

deleted_ok : is_ok deleted ≡ true
unfolding delete_bucket
deleted_ok = refl

abbrev left : Bucket × Db
left = ok_or (head, shop) deleted

delete_bucket-settles_example :
    (first (is_own 1 1) shop.user_plans ≡ some left.0)
    × (is_free left.0.kind ≡ false)
    × All (λ c. c.user_id ≡ 1 → queue_due 5000 left.1.user_plans c ≡ false) left.1.user_plans
    × Pointwise
        (Keeps 1)
        (select (λ (r : Bucket). not (r.id == 1)) shop.user_plans)
        left.1.user_plans
delete_bucket-settles_example =
    delete_bucket-settles 1 1 5000 shop left.0 left.1 (ok_of-is_ok (head, shop) deleted deleted_ok)
      shop-Distinct shop-IsReady

abbrev adjusted : Result (Bucket × Db)
adjusted = adjust_bucket_traffic 1 2 (negsuc 99) 5000 shop

adjusted_ok : is_ok adjusted ≡ true
unfolding adjust_bucket_traffic usable_head
adjusted_ok = refl

abbrev shrunk : Bucket × Db
shrunk = ok_or (head, shop) adjusted

adjust_bucket_traffic-limit_example :
    (b : Bucket) × (limit : ℕ) × (first (is_own 1 2) shop.user_plans ≡ some b)
    × (is_free b.kind ≡ false)
    × (is_retired b.status ≡ false)
    × (is_plan b.kind ≡ true → not_expired 5000 b ≡ true)
    × (pos b.traffic_limit +ℤ negsuc 99 ≡ pos limit)
    × (used b ≤ limit)
    × (first (is_own 1 2) shrunk.1.user_plans ≡ some shrunk.0)
    × IsAdjusted (negsuc 99) limit b shrunk.0
    × Pointwise (IsAside 1 2) shop.user_plans shrunk.1.user_plans
adjust_bucket_traffic-limit_example =
    adjust_bucket_traffic-limit 1 2 (negsuc 99) 5000 shop shrunk.0 shrunk.1
      (ok_of-is_ok (head, shop) adjusted adjusted_ok) shop-Distinct

-- alice's head, in its first days at that time
abbrev running : Bucket
running = record head { expiry_at = pos 3000000 }

convert_row-fresh_example :
    (used (convert_row later running)
        + (convert_row later running).life_used_up
        + (convert_row later running).life_used_down
      ≡ used running + running.life_used_up + running.life_used_down)
    × ((convert_row later running).period_quota ≤ running.traffic_limit)
    × ((convert_row later running).traffic_limit ≡ (convert_row later running).period_quota)
    × ((convert_row later running).period_base ≡ (convert_row later running).period_quota)
    × ((convert_row later running).period_days ≡ 30)
    × ((n : ℕ) × IsPeriods running.duration_days n
        × IsShare running.traffic_limit n (convert_row later running).period_quota)
    × (((is_queued running.status ≡ true)
          × (used (convert_row later running) ≡ used running)
          × ((convert_row later running).period_start ≡ running.period_start))
        ⊎ ((is_queued running.status ≡ false)
            × (used (convert_row later running) ≡ 0)
            × ((convert_row later running).period_start ≤ later)
            × (later < (convert_row later running).period_start + 2592000)
            × IsStart later running (convert_row later running).period_start))
convert_row-fresh_example = convert_row-fresh later running (omega arith)
