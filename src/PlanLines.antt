-- ===== src/PlanLines.antt =====
-- internal/store/periods.go: what an administrator sets for a whole line of a user: the choice to
-- borrow, the monthly quota, and the switch of old rows to monthly reset.
pub mod Converting
use qing_zhou.Common.{
  ℕ, ◌+◌, ◌-◌, ◌*◌, ◌/◌, String, Bool, true, false, not, ◌&&◌, ◌||◌, Option, none, some, List, [],
  ◌∷◌, any, ltb, leb, ◌==◌, str_eq, update_where, count_by, if◌then◌else◌, smaller,
}
use qing_zhou.Common.Int.{ℤ, pos, negsuc, ◌-ℤ◌, pos_part}
use qing_zhou.Result.{
  Result, ok, err, line_not_found, line_not_periodic, invalid_argument, fail_if, ◌>>=◌, ◌>>◌,
}
use qing_zhou.Bucket.{
  Bucket, is_plan, is_active, is_queued, is_retired, is_zero, is_after, not_expired, day,
}
use qing_zhou.Package.{period_days, period_count}
use qing_zhou.Queue.{in_line}
use qing_zhou.UserPlans.{settle_user}
use qing_zhou.Store.{Db, Tx}

-- `lineTx`: an update of the rows, and then the queues and the mirror
unfoldable pub line_tx : {A : Type 0} → ℕ → ℕ → (List Bucket → Result (A × List Bucket)) → Tx A
unfolding settle_user
line_tx user_id now fn db = do
  r ← fn db.user_plans
  ok (r.0, settle_user user_id now (record db { user_plans = r.1 }))

-- the rows of a line that have periods and are not retired
abbrev pub is_periodic_of : ℕ → String → Bucket → Bool
is_periodic_of user_id key b =
    in_line user_id key b && (not (is_retired b.status) && ltb 0 b.period_days)

-- an UPDATE that must hit a row
unfoldable pub update_periodic :
    ℕ → String → (Bucket → Bucket) → List Bucket → Result (Unit {0} × List Bucket)
update_periodic user_id key f rows = do
  fail_if (not (any (is_periodic_of user_id key) rows)) line_not_periodic
  ok (tt, update_where (is_periodic_of user_id key) f rows)

-- the mode -1 is `none`, 0 and 1 are off and on
abbrev pub mode_of : ℤ → Result (Option ℕ)
mode_of (negsuc n) = if n == 0 then ok none else err invalid_argument
mode_of (pos n) = if ltb 1 n then err invalid_argument else ok (some n)

-- `SetLineAdvance`
unfoldable pub set_line_advance : ℕ → String → ℤ → ℕ → Tx (Unit {0})
unfolding line_tx update_periodic
set_line_advance user_id key mode now db = do
  override ← mode_of mode
  line_tx user_id now
      (update_periodic user_id key
        (λ (b : Bucket). record b { advance_override = override; updated_at = now }))
      db

-- the UPDATE of `SetLineMonthlyQuota`; `MAX(…,0)` is what subtraction on ℕ does
unfoldable pub requota : ℕ → ℕ → Bucket → Bucket
requota bytes now b = record b {
  period_base = b.period_base + bytes - b.period_quota;
  traffic_limit = if is_queued b.status then bytes else b.period_base + bytes - b.period_quota;
  period_quota = bytes;
  updated_at = now;
}

-- `SetLineMonthlyQuota`
unfoldable pub set_line_monthly_quota : ℕ → String → ℕ → ℕ → Tx (Unit {0})
unfolding line_tx update_periodic requota
set_line_monthly_quota user_id key bytes now db = do
  fail_if (bytes == 0) invalid_argument
  line_tx user_id now (update_periodic user_id key (requota bytes now)) db

-- the rows that `ConvertLineToPeriodic` takes
abbrev pub is_lump : ℕ → String → ℕ → Bucket → Bool
is_lump user_id key now b =
    in_line user_id key b
    && (ltb 0 b.package_id
        && (b.period_days == 0
            && (is_queued b.status
                || is_active b.status && (is_zero b.expiry_at || is_after b.expiry_at now))))

-- `q`: an even share of the row's quota
unfoldable pub even_share : Bucket → ℕ
unfolding period_count
even_share b =
    let q = b.traffic_limit / period_count b.duration_days in if q == 0 then b.traffic_limit else q

-- `act`, before it is cut at now: when the row came into service, as its expiry implies
unfoldable pub came_active : ℕ → Bucket → ℤ
unfolding ◌-ℤ◌
came_active now b =
    if is_after b.expiry_at 0 && ltb 0 b.duration_days
    then b.expiry_at -ℤ pos (b.duration_days * day)
    else pos now

-- `start`: the boundary of the period that now is in. An activation before the epoch is counted from
-- there, and the boundary is taken to be after the epoch.
unfoldable pub converted_start : ℤ → ℕ → ℕ
converted_start (pos act) now =
    let p = period_days * day in let a = smaller act now in a + (now - a) / p * p
converted_start (negsuc n) now = let p = period_days * day in (now + n + 1) / p * p - (n + 1)

-- the UPDATE of one row
unfoldable pub convert_row : ℕ → Bucket → Bucket
unfolding even_share came_active converted_start
convert_row now b =
    let q = even_share b in
    let planned = record b {
      period_days = period_days;
      period_quota = q;
      period_base = q;
      traffic_limit = q;
      updated_at = now;
    } in
    if is_queued b.status then planned else record planned {
      period_start = converted_start (came_active now b) now;
      life_used_up = b.life_used_up + b.used_up;
      life_used_down = b.life_used_down + b.used_down;
      used_up = 0;
      used_down = 0;
    }

convert_rows : ℕ → String → ℕ → List Bucket → Result (ℕ × List Bucket)
unfolding convert_row
convert_rows user_id key now rows = do
  fail_if (not (any (is_lump user_id key now) rows)) line_not_found
  ok (
    count_by (is_lump user_id key now) rows,
    update_where (is_lump user_id key now) (convert_row now) rows,
  )

-- `ConvertLineToPeriodic`: how many rows it converted
unfoldable pub convert_line_to_periodic : ℕ → String → ℕ → Tx ℕ
unfolding line_tx convert_rows
convert_line_to_periodic user_id key now db = line_tx user_id now (convert_rows user_id key now) db
