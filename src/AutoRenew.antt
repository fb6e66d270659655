-- ===== src/AutoRenew.antt =====
-- internal/store/autorenew.go: the renewal of a plan line that has reached its expiry, and the switch
-- that turns it on and off.
pub mod Switch
pub mod Renewal
use mathlib.Core.Bool.{cond}
use qing_zhou.Common.{
  ℕ, ◌+◌, ◌-◌, String, Bool, true, false, not, ◌&&◌, ◌||◌, Option, none, some, List, [], ◌∷◌, ◌++◌,
  ltb, leb, ◌==◌, str_eq, any, select, first, last, update_where, if◌then◌else◌, length, count_by,
}
use qing_zhou.Common.Int.{ℤ, pos, negsuc}
use qing_zhou.Result.{
  Result, ok, err, Error, bucket_not_found, auto_renew_not_plan, option_not_found, fail_if, or_fail,
  ◌>>=◌, ◌>>◌,
}
use qing_zhou.Bucket.{Bucket, is_active, is_queued, is_retired, is_plan, is_zero}
use qing_zhou.Package.{Package, PackageType, is_plan_type, for_duration}
use qing_zhou.Lines.{effective_queue_key}
use qing_zhou.Queue.{in_line}
use qing_zhou.Store.{User, TxType, Db, Tx}
use qing_zhou.Points.{find_user, set_points}
use qing_zhou.Purchase.{Sale, find_package, can_buy_package, charged, book, take_stock}

-- the line of a row, by the rule that fills in a missing key
abbrev pub row_line : Bucket → String
row_line b = if str_eq b.queue_key "" then effective_queue_key b.package_id "" else b.queue_key

-- UPDATE user_plans SET auto_renew=?, for the rows of a line that are not retired
unfoldable pub switch_line : ℕ → String → Bool → ℕ → List Bucket → List Bucket
switch_line user_id key enabled now rows =
    update_where (λ (b : Bucket). in_line user_id key b && not (is_retired b.status))
      (λ (b : Bucket). record b { auto_renew = enabled; updated_at = now }) rows

-- `SetPlanAutoRenew`
unfoldable pub set_plan_auto_renew : ℕ → ℕ → Bool → ℕ → Db → Result Db
unfolding switch_line effective_queue_key
set_plan_auto_renew user_id bucket_id enabled now db = do
  b ←
      or_fail (first (λ (b : Bucket). b.id == bucket_id && b.user_id == user_id) db.user_plans)
        bucket_not_found
  fail_if (not (is_plan b.kind && ltb 0 b.package_id)) auto_renew_not_plan
  ok (record db { user_plans = switch_line user_id (row_line b) enabled now db.user_plans })

-- `expiry_at>0 AND expiry_at<=?`
abbrev pub has_ended : ℕ → ℤ → Bool
has_ended now (pos e) = ltb 0 e && leb e now
has_ended now (negsuc _) = false

-- the WHERE clause of the SELECT on a line's head
abbrev pub wants_renewal : ℕ → String → ℕ → Bucket → Bool
wants_renewal user_id key now b =
    in_line user_id key b && (is_active b.status && (b.auto_renew && has_ended now b.expiry_at))

-- the WHERE clause of `AutoRenewDuePlans`
unfoldable pub renewal_due : ℕ → List Bucket → Bucket → Bool
renewal_due now rows b =
    wants_renewal b.user_id b.queue_key now b
    && not (any (λ q. in_line b.user_id b.queue_key q && is_queued q.status) rows)

-- the package as it is for sale now, for the duration of the head
abbrev pub renewable : Option Package → Option Package
renewable none = none
renewable (some p) =
    if not p.enabled || is_zero p.stock || not (is_plan_type p.type) then none else some p

abbrev resolved : Result Package → Result (Option Package)
resolved (ok p) = ok (some p)
resolved (err option_not_found) = ok none
resolved (err e) = err e

unfoldable pub renewal_of : User → Package → Sale
unfolding charged
renewal_of u pkg = record {
  pkg = pkg;
  price = pkg.price_points;
  amount = charged pkg.price_points;
  balance = u.points - pkg.price_points;
  type = TxType.auto_renew;
  operator_id = 0;
  idempotency_key = "";
}

-- the writes of `autoRenewLine`
unfoldable pub renew : ℕ → User → Package → ℕ → Db → Result (Bool × Db)
unfolding renewal_of book set_points take_stock
renew user_id u pkg now db = do
  let paid = set_points user_id (u.points - pkg.price_points) now db
  stocked ← take_stock pkg (book user_id u.username (renewal_of u pkg) now paid)
  ok (true, stocked)

-- what makes a renewal wait: no traffic, too few points, or a group that the user is not in
unfoldable pub must_wait : ℕ → User → Package → Db → Bool
unfolding can_buy_package
must_wait user_id u pkg db =
    pkg.traffic_bytes == 0
    || ltb u.points pkg.price_points
    || not (can_buy_package user_id pkg.id db)

-- an early `return false, nil` when what is needed is not there
abbrev or_skip {ℓ} : {A : Type ℓ} → Option A → Db → (A → Result (Bool × Db)) → Result (Bool × Db)
or_skip none db k = ok (false, db)
or_skip (some a) db k = k a

-- `autoRenewLine`: whether the line was renewed
unfoldable pub auto_renew_line : ℕ → String → ℕ → Db → Result (Bool × Db)
unfolding renew must_wait
auto_renew_line user_id key now db =
    or_skip (last (wants_renewal user_id key now) db.user_plans) db λ head.
      if any (λ b. in_line user_id key b && is_queued b.status) db.user_plans
      then ok (false, db)
      else or_skip (find_user user_id db) db λ u.
        or_skip (renewable (find_package head.package_id db)) db λ fresh.
          resolved (for_duration fresh head.duration_days) >>= λ choice.
          or_skip choice db
            λ pkg. if must_wait user_id u pkg db then ok (false, db) else renew user_id u pkg now db

-- a transaction of the loop: its tables, whether it renewed, and its error; on an error it is rolled back
abbrev settle_line : Db → Result (Bool × Db) → Db × Bool × Option Error
settle_line db (ok (renewed, db')) = (db', renewed, none)
settle_line db (err e) = (db, false, some e)

abbrev or_first : Option Error → Option Error → Option Error
or_first (some e) _ = some e
or_first none f = f

abbrev mark_changed : Bool → ℕ → List ℕ → List ℕ
mark_changed renewed user_id ids =
    if renewed && not (any (λ i. i == user_id) ids) then ids ++ user_id ∷ [] else ids

-- the loop of `AutoRenewDuePlans` over the lines that its SELECT returns: the tables, the users that
-- changed, in the order of the lines, and the first error
unfoldable pub auto_renew_due_plans :
    List (ℕ × String) → ℕ → List ℕ → Option Error → Db → Db × List ℕ × Option Error
unfolding auto_renew_line
auto_renew_due_plans [] now changed first_error db = (db, changed, first_error)
auto_renew_due_plans ((user_id, key) ∷ lines) now changed first_error db =
    let (db', renewed, e) = settle_line db (auto_renew_line user_id key now db) in
    auto_renew_due_plans lines now (mark_changed renewed user_id changed) (or_first first_error e)
      db'
