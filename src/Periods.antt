-- ===== src/Periods.antt =====
-- internal/store/periods.go: `resetUserPeriods`, the start of the next traffic period of every row
-- whose period has ended.
pub mod Reset
pub mod Borrowing
use qing_zhou.Common.{
  ℕ, ◌+◌, ◌-◌, ◌*◌, ◌/◌, Bool, true, false, ◌&&◌, ◌||◌, List, [], ◌∷◌, ◌++◌, map, ltb, leb, ◌==◌,
  any, select, update_where, if◌then◌else◌,
}
use qing_zhou.Bucket.{Bucket, day, used, period_due}
use qing_zhou.Lines.{recompute_user_aggregate}
use qing_zhou.Queue.{refresh_period_limits}
use qing_zhou.Store.{Db, PeriodReset}

-- the length of a period, `p` in the loop
abbrev pub period_length : Bucket → ℕ
period_length d = d.period_days * day

-- `n`: how many whole periods have passed since the current one began
unfoldable pub periods_passed : ℕ → Bucket → ℕ
periods_passed now d = (now - d.period_start) / period_length d

-- `newStart`
unfoldable pub new_start : ℕ → Bucket → ℕ
unfolding periods_passed
new_start now d = d.period_start + periods_passed now d * period_length d

-- `next`: the quota of the new period. What was borrowed is taken off only if the new period follows
-- right after the one that ended.
unfoldable pub next_quota : ℕ → Bucket → ℕ
unfolding periods_passed
next_quota now d =
    if periods_passed now d == 1
    then (if ltb d.period_base (used d)
        then d.period_quota - (used d - d.period_base)
        else d.period_quota)
    else d.period_quota

-- the UPDATE of one due row
unfoldable pub roll : ℕ → Bucket → Bucket
unfolding new_start next_quota
roll now d = record d {
  life_used_up = d.life_used_up + d.used_up;
  life_used_down = d.life_used_down + d.used_down;
  used_up = 0;
  used_down = 0;
  period_start = new_start now d;
  period_base = next_quota now d;
  traffic_limit = next_quota now d;
  updated_at = now;
}

-- the row of `plan_period_resets` that logs it
unfoldable pub reset_log : ℕ → ℕ → Bucket → PeriodReset
unfolding new_start next_quota
reset_log user_id now d = record {
  bucket_id = d.id;
  user_id = user_id;
  reset_at = now;
  period_start = new_start now d;
  used = used d;
  quota = d.period_base;
  next_quota = next_quota now d;
}

-- a row that had run out of quota is back in service
abbrev pub was_cut_off : Bucket → Bool
was_cut_off d = d.traffic_limit == 0 || leb d.traffic_limit (used d)

abbrev pub is_due_of : ℕ → ℕ → Bucket → Bool
is_due_of user_id now b = b.user_id == user_id && period_due now b

unfoldable pub rolled_rows : ℕ → ℕ → List Bucket → List Bucket
unfolding roll period_due
rolled_rows user_id now rows = update_where (is_due_of user_id now) (roll now) rows

finish_reset : ℕ → ℕ → Db → List Bucket → Db × Bool
unfolding rolled_rows reset_log refresh_period_limits recompute_user_aggregate
finish_reset user_id now db [] = (db, false)
finish_reset user_id now db (d ∷ due) =
    let logged = record db {
      user_plans =
          refresh_period_limits db.packages user_id (rolled_rows user_id now db.user_plans);
      plan_period_resets = db.plan_period_resets ++ map (reset_log user_id now) (d ∷ due);
    } in
    (recompute_user_aggregate user_id now logged, any was_cut_off (d ∷ due))

-- `resetUserPeriods`: the new tables, and whether some row is back in service
unfoldable pub reset_user_periods : ℕ → ℕ → Db → Db × Bool
unfolding finish_reset
reset_user_periods user_id now db =
    finish_reset user_id now db (select (is_due_of user_id now) db.user_plans)
