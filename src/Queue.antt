-- ===== src/Queue.antt =====
-- internal/store/userplans.go and periods.go: the renewal queues. `advanceUserQueues` hands the slot
-- of each line whose head is used up to the oldest queued row, and re-derives the limits that a
-- user may borrow up to.
pub mod Line
pub mod Kept
pub mod Progress
pub mod Due
pub mod Carry
pub mod Heads
pub mod Limits
use qing_zhou.Common.{
  ℕ, ◌+◌, ◌-◌, ◌*◌, String, Bool, true, false, not, ◌&&◌, ◌||◌, Option, none, some, List, [], ◌∷◌,
  map, ltb, ◌==◌, str_eq, any, select, first, max_by, update_where, if◌then◌else◌,
}
use qing_zhou.Common.Int.{ℤ, pos, negsuc}
use qing_zhou.Bucket.{
  Bucket, Status, is_plan, is_active, is_queued, is_zero, is_after, day, used, usable_head,
}
use qing_zhou.Package.{Package}
use qing_zhou.Lines.{distinct, recompute_user_aggregate}
use qing_zhou.Store.{Db}

-- `user_id=? AND kind='plan' AND queue_key=?`
abbrev pub in_line : ℕ → String → Bucket → Bool
in_line user_id key b = b.user_id == user_id && (is_plan b.kind && str_eq b.queue_key key)

-- `status='active' AND period_days>0 AND expiry_at>0 AND expiry_at>?-period_days*86400`
abbrev pub ended_within : ℤ → ℕ → ℕ → Bool
ended_within (pos e) length now = ltb 0 e && ltb now (e + length)
ended_within (negsuc _) length now = false

abbrev pub recent_head : ℕ → String → ℕ → ℕ → Bucket → Bool
recent_head user_id key new_id now b =
    in_line user_id key b
    && (is_active b.status
        && (not (b.id == new_id)
            && (ltb 0 b.period_days && ended_within b.expiry_at (b.period_days * day) now)))

-- `borrowedFromLine`. A difference below 0 counts as 0 at once, since the code raises the largest one
-- to 0 afterwards.
unfoldable pub borrowed_from_line : ℕ → String → ℕ → ℕ → List Bucket → ℕ
borrowed_from_line user_id key new_id now rows =
    max_by (λ (b : Bucket). used b - b.period_base)
      (select (recent_head user_id key new_id now) rows)

-- `effectiveAdvanceSQL = 1`
unfoldable pub effective_advance : List Package → Bucket → Bool
effective_advance packages b = elim b.advance_override [
  | some v ↦ v == 1
  | none ↦ elim (first (λ (k : Package). k.id == b.package_id) packages) [
    | none ↦ false
    | some k ↦ k.allow_advance
  ]
]

-- `hasNextPeriodSQL`
unfoldable pub has_next_period : List Bucket → Bucket → Bool
has_next_period rows b =
    is_zero b.expiry_at
    || (is_after b.expiry_at (b.period_start + b.period_days * day)
        || any (λ q. in_line b.user_id b.queue_key q && is_queued q.status) rows)

-- the WHERE clause of `refreshLimitSQL`
abbrev pub is_running : Bucket → Bool
is_running b =
    is_plan b.kind && (is_active b.status && (ltb 0 b.period_days && ltb 0 b.period_start))

unfoldable pub borrowable_limit : List Package → List Bucket → Bucket → ℕ
unfolding effective_advance has_next_period
borrowable_limit packages rows b =
    b.period_base
    + (if effective_advance packages b && has_next_period rows b then b.period_quota else 0)

-- `refreshPeriodLimits`
unfoldable pub refresh_period_limits : List Package → ℕ → List Bucket → List Bucket
unfolding borrowable_limit
refresh_period_limits packages user_id rows =
    update_where (λ (b : Bucket). is_running b && b.user_id == user_id)
      (λ (b : Bucket). record b { traffic_limit = borrowable_limit packages rows b }) rows

-- `refreshPeriodLimitsForPackage`
unfoldable pub refresh_period_limits_for_package : List Package → ℕ → List Bucket → List Bucket
unfolding borrowable_limit
refresh_period_limits_for_package packages package_id rows =
    update_where (λ (b : Bucket). is_running b && b.package_id == package_id)
      (λ (b : Bucket). record b { traffic_limit = borrowable_limit packages rows b }) rows

-- the UPDATE that puts a queued row in service
unfoldable pub activate : ℕ → ℕ → Bucket → Bucket
activate now carry b = record b {
  status = Status.active;
  expiry_at = pos (if ltb 0 b.duration_days then now + b.duration_days * day else 0);
  updated_at = now;
  period_start = if ltb 0 b.period_days then now else b.period_start;
  period_base = if ltb 0 b.period_days then b.period_quota - carry else b.period_base;
  traffic_limit = if ltb 0 b.period_days then b.period_quota - carry else b.traffic_limit;
}

-- the UPDATE that retires whoever was holding the slot
unfoldable pub retire : ℕ → Bucket → Bucket
retire now b = record b { status = Status.retired; updated_at = now }

unfoldable pub hand_over : ℕ → String → ℕ → Bucket → List Bucket → List Bucket
unfolding activate retire borrowed_from_line
hand_over user_id key now q rows =
    let carry = borrowed_from_line user_id key q.id now rows in
    update_where
      (λ (b : Bucket). in_line user_id key b && (is_active b.status && not (b.id == q.id)))
      (retire now) (update_where (λ (b : Bucket). b.id == q.id) (activate now carry) rows)

promote : ℕ → String → ℕ → Option Bucket → List Bucket → List Bucket × Bool
unfolding hand_over
promote user_id key now none rows = (rows, false)
promote user_id key now (some q) rows = (hand_over user_id key now q rows, true)

-- one turn of the loop of `advanceUserQueues`
unfoldable pub advance_line : ℕ → ℕ → String → List Bucket → List Bucket × Bool
unfolding promote
advance_line user_id now key rows =
    if any (λ h. (h.user_id == user_id && str_eq h.queue_key key) && usable_head now h) rows
    then (rows, false)
    else promote user_id key now (first (λ b. in_line user_id key b && is_queued b.status) rows)
        rows

unfoldable pub advance_lines : ℕ → ℕ → List String → List Bucket → List Bucket × Bool
unfolding advance_line
advance_lines user_id now [] rows = (rows, false)
advance_lines user_id now (key ∷ keys) rows =
    let (rows', changed) = advance_line user_id now key rows in
    let (rows'', changed') = advance_lines user_id now keys rows' in (rows'', changed || changed')

-- the lines in which the user has a queued row
unfoldable pub queued_lines : ℕ → List Bucket → List String
unfolding distinct
queued_lines user_id rows = distinct (
    map (λ (b : Bucket). b.queue_key)
      (select
        (λ (b : Bucket).
          b.user_id == user_id && (is_plan b.kind && (is_queued b.status && ltb 0 b.package_id)))
        rows))

-- `advanceUserQueues`: the new tables, and whether a row was promoted
unfoldable pub advance_user_queues : ℕ → ℕ → Db → Db × Bool
unfolding advance_lines queued_lines refresh_period_limits recompute_user_aggregate
advance_user_queues user_id now db =
    let (rows, changed) =
      advance_lines user_id now (queued_lines user_id db.user_plans) db.user_plans in
    let db' = record db { user_plans = refresh_period_limits db.packages user_id rows } in
    (if changed then recompute_user_aggregate user_id now db' else db', changed)

-- `queueDuePredicate`: a queued row whose slot is free
unfoldable pub queue_due : ℕ → List Bucket → Bucket → Bool
queue_due now rows q =
    is_plan q.kind
    && (is_queued q.status
        && (ltb 0 q.package_id
            && not (
                any
                  (λ h.
                    (h.user_id == q.user_id && str_eq h.queue_key q.queue_key) && usable_head now h)
                  rows)))
