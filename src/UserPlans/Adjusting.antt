-- ===== src/UserPlans/Adjusting.antt =====
-- internal/store/userplans.go: what an adjustment and a removal of a row come down to.
use mathlib.Core.Path.{ap₂}
use qing_zhou.Common.{
  ◌+◌, ◌<◌, true, if◌then◌else◌, Pointwise-both, Pointwise-before_update, first-Pointwise, lt→ltb,
  ℕ, ◌≤◌, ◌≡◌, Bool, false, some, ◌∙◌, ap, sym, subst, arith, ◌==◌, first, delete_where,
  update_where, All, Distinct, Pointwise, select, not, refl, ◌&&◌,
}
use qing_zhou.Common.Int.{ℤ, pos, negsuc, ◌+ℤ◌}
use qing_zhou.Result.{
  ok, or_fail, bucket_not_found, bucket_protected, zero_delta, bucket_finished, >>=-eq-ok,
  or_fail-eq-ok, guarded-eq-ok, ok-injective,
}
use qing_zhou.Bucket.{Bucket, is_retired, is_plan, not_expired, is_free, is_queued, is_active, used}
use qing_zhou.Lines.{recompute_user_aggregate}
use qing_zhou.Queue.{advance_user_queues, queue_due}
use qing_zhou.Queue.Line.{Keeps}
use qing_zhou.Queue.Kept.{ids, advance_user_queues-Keeps}
use qing_zhou.Queue.Limits.{HoldsLimit, advance_user_queues-HoldsLimit}
use qing_zhou.Queue.Progress.{IsReady}
use qing_zhou.Queue.Due.{advance_user_queues_settles}
use qing_zhou.Store.{Db}
use qing_zhou.UserPlans.Rows.{
  ids-adjusted, first-adjusted, All-delete_where, Distinct-delete_where, delete_where-is_own,
}
use qing_zhou.UserPlans.{
  is_own, settle_user, delete_bucket, adjusted_bucket, is_finished, floor_limit, is_nil,
  adjust_bucket_traffic,
}

floor_limit-eq-ok :
    (b : Bucket) (z : ℤ) (n : ℕ) → floor_limit b z ≡ ok n → (z ≡ pos n) × (used b ≤ n)
unfolding floor_limit
floor_limit-eq-ok b (negsuc m) n h = cc
floor_limit-eq-ok b (pos m) n h = ground (arith, h)

alive-in_service :
    (now : ℕ) (b : Bucket)
    → is_finished now b ≡ false
    → (is_retired b.status ≡ false) × (is_plan b.kind ≡ true → not_expired now b ≡ true)
unfolding is_finished
alive-in_service now b h = (ground (arith, h), λ one. ground (arith, h, one))

-- What an adjustment by `delta` makes of a row whose limit it moves to `limit`, once the queues advanced.
pub record IsAdjusted (delta : ℤ) (limit : ℕ) (b b' : Bucket) : Type 0 where
  pub usage : used b' ≡ used b
  pub lump : b.period_days ≡ 0 → b'.traffic_limit ≡ limit
  pub waiting : 0 < b.period_days → is_queued b.status ≡ true → b'.period_quota ≡ limit
  pub running :
      0 < b.period_days
      → is_active b.status ≡ true
      → (n : ℕ) → pos b.period_base +ℤ delta ≡ pos n
      → b'.period_base ≡ n

-- What an adjustment of the row `bucket_id` leaves of every row.
abbrev pub IsAside : ℕ → ℕ → Bucket → Bucket → Type 0
IsAside user_id bucket_id b c =
    (c.id ≡ b.id)
    × (used c ≡ used b)
    × ((b.id == bucket_id) ≡ false → Keeps user_id b c × HoldsLimit b c)

settled_rows :
    (user_id now : ℕ) (db : Db)
    → (settle_user user_id now db).user_plans ≡ (advance_user_queues user_id now db).0.user_plans
unfolding settle_user recompute_user_aggregate
settled_rows user_id now db = refl

Keeps-used : (user_id : ℕ) (b c : Bucket) → Keeps user_id b c → used c ≡ used b
Keeps-used user_id b c (k, others) = ap₂ ◌+◌ k.used_up k.used_down

adjusted_bucket-IsAdjusted :
    (user_id : ℕ) (delta : ℤ) (limit now : ℕ) (b b' : Bucket)
    → Keeps user_id (adjusted_bucket delta limit now b) b'
    → HoldsLimit (adjusted_bucket delta limit now b) b'
    → IsAdjusted delta limit b b'
unfolding adjusted_bucket
adjusted_bucket-IsAdjusted user_id delta limit now b b' keeps holds = record {
  usage = Keeps-used user_id (adjusted_bucket delta limit now b) b' keeps;
  lump = holds.lump;
  waiting = λ periodic queued. keeps.0.period_quota ∙ ground (arith, periodic, queued);
  running =
      λ periodic active n sum. holds.base (ground (arith, active)) ∙ moved periodic active n sum;
}
  where
    moved :
        0 < b.period_days
        → is_active b.status ≡ true
        → (n : ℕ) → pos b.period_base +ℤ delta ≡ pos n
        → (adjusted_bucket delta limit now b).period_base ≡ n
    moved periodic active n sum = rw (lt→ltb 0 b.period_days periodic, active, sum) refl

settled-IsAside :
    (user_id bucket_id : ℕ) (delta : ℤ) (limit now : ℕ) (b c : Bucket)
    → (own : Bool) → is_own user_id bucket_id b ≡ own
    → (let mid = if own then adjusted_bucket delta limit now b else b in
        Keeps user_id mid c × HoldsLimit mid c)
    → IsAside user_id bucket_id b c
unfolding adjusted_bucket
settled-IsAside user_id bucket_id delta limit now b c true own (keeps, holds) = (
  holds.id,
  Keeps-used user_id (adjusted_bucket delta limit now b) c keeps,
  λ other. absurd (ground (arith, own, other)),
)
settled-IsAside user_id bucket_id delta limit now b c false own (keeps, holds) =
    (holds.id, Keeps-used user_id b c keeps, λ other. (keeps, holds))

-- Where ids are distinct, an adjustment that goes through finds the user's row, which is not the free
-- one, is not retired and, if it is a plan, has not expired; it answers with this row as it stands in
-- the new tables. The row's limit plus the amount is not below what is used: it is the new limit of a row without
-- periods, and the new monthly quota of a queued row with periods; the base of an active row with periods
-- moves by the amount, where that leaves it at 0 or more. No row is added or deleted and no usage
-- changes; every other row keeps what an advance of the user's queues keeps, its limit if it has no
-- periods, and its base if it was not queued.
pub adjust_bucket_traffic-limit :
    (user_id bucket_id : ℕ) (delta : ℤ) (now : ℕ) (db : Db) (b' : Bucket) (db' : Db)
    → adjust_bucket_traffic user_id bucket_id delta now db ≡ ok (b', db')
    → Distinct (ids db.user_plans)
    → (b : Bucket) × (limit : ℕ) × (first (is_own user_id bucket_id) db.user_plans ≡ some b)
      × (is_free b.kind ≡ false)
      × (is_retired b.status ≡ false)
      × (is_plan b.kind ≡ true → not_expired now b ≡ true)
      × (pos b.traffic_limit +ℤ delta ≡ pos limit)
      × (used b ≤ limit)
      × (first (is_own user_id bucket_id) db'.user_plans ≡ some b')
      × IsAdjusted delta limit b b'
      × Pointwise (IsAside user_id bucket_id) db.user_plans db'.user_plans
unfolding adjust_bucket_traffic
adjust_bucket_traffic-limit user_id bucket_id delta now db b' db' h d =
    let own = is_own user_id bucket_id in
    let (some_delta, h1) = guarded-eq-ok (is_nil delta) zero_delta _ h in
    let (b, kept, h2) = >>=-eq-ok (or_fail (first own db.user_plans) bucket_not_found) _ h1 in
    let (paid, h3) = guarded-eq-ok (is_free b.kind) bucket_protected _ h2 in
    let (alive, h4) = guarded-eq-ok (is_finished now b) bucket_finished _ h3 in
    let unfinished = alive-in_service now b alive in
    let (limit, above, h5) = >>=-eq-ok (floor_limit b (pos b.traffic_limit +ℤ delta)) _ h4 in
    let changed = record db {
      user_plans = update_where own (adjusted_bucket delta limit now) db.user_plans;
    } in
    let (updated, there, h6) =
      >>=-eq-ok (or_fail (first own (settle_user user_id now changed).user_plans) bucket_not_found)
        _ h5 in
    let (sum, floor) = floor_limit-eq-ok b (pos b.traffic_limit +ℤ delta) limit above in
    let found = or_fail-eq-ok _ bucket_not_found kept in
    let answer : updated ≡ b' = ap (λ x. x.0) (ok-injective _ _ h6) in
    let tables : settle_user user_id now changed ≡ db' = ap (λ x. x.1) (ok-injective _ _ h6) in
    let rows = sym (settled_rows user_id now changed) ∙ ap (λ (x : Db). x.user_plans) tables in
    let listed : first own db'.user_plans ≡ some b' =
      ap (λ (x : Db). first own x.user_plans) (sym tables)
      ∙ or_fail-eq-ok _ bucket_not_found there
      ∙ ap some answer in
    let apart : Distinct (ids changed.user_plans) =
      rw (ids-adjusted own delta limit now db.user_plans) d in
    let both : Pointwise (λ x y. Keeps user_id x y × HoldsLimit x y) changed.user_plans
        db'.user_plans =
      subst (Pointwise _ changed.user_plans) rows (
        Pointwise-both (Keeps user_id) HoldsLimit changed.user_plans _
          (advance_user_queues-Keeps user_id now changed apart)
          (advance_user_queues-HoldsLimit user_id now changed apart)) in
    let (keeps, holds) =
      first-Pointwise _ own changed.user_plans db'.user_plans
        (λ v w r. ap₂ (λ i u. i == bucket_id && u == user_id) r.1.id r.1.user_id) both
        (first-adjusted user_id bucket_id delta limit now db.user_plans b found) listed in
    (
      b,
      limit,
      found,
      paid,
      unfinished.0,
      unfinished.1,
      sum,
      floor,
      listed,
      adjusted_bucket-IsAdjusted user_id delta limit now b b' keeps holds,
      Pointwise-before_update _ (IsAside user_id bucket_id) own (adjusted_bucket delta limit now)
          db.user_plans db'.user_plans
          (λ x y r. settled-IsAside user_id bucket_id delta limit now x y (own x) refl r) both,
    )

-- Where ids are distinct and every queued row brings a quota, taking a row from a user deletes the row
-- with this id and no other: every other row stays, with what an advance of the user's queues keeps.
-- None of the user's queued rows is left waiting for a slot that is free. The row that is answered is
-- the user's, and is not the free one.
pub delete_bucket-settles :
    (user_id bucket_id now : ℕ) (db : Db) (b : Bucket) (db' : Db)
    → delete_bucket user_id bucket_id now db ≡ ok (b, db')
    → Distinct (ids db.user_plans)
    → All IsReady db.user_plans
    → (first (is_own user_id bucket_id) db.user_plans ≡ some b)
      × (is_free b.kind ≡ false)
      × All (λ c. c.user_id ≡ user_id → queue_due now db'.user_plans c ≡ false) db'.user_plans
      × Pointwise
          (Keeps user_id)
          (select (λ (r : Bucket). not (r.id == bucket_id)) db.user_plans)
          db'.user_plans
unfolding delete_bucket settle_user recompute_user_aggregate
delete_bucket-settles user_id bucket_id now db b db' h d ready =
    let (row, kept, h1) =
      >>=-eq-ok (or_fail (first (is_own user_id bucket_id) db.user_plans) bucket_not_found) _ h in
    let (paid, h2) = guarded-eq-ok (is_free row.kind) bucket_protected _ h1 in
    let same = ok-injective _ _ h2 in
    let answer : row ≡ b = ap (λ x. x.0) same in
    let left = record db { user_plans = delete_where (is_own user_id bucket_id) db.user_plans } in
    let rows : (advance_user_queues user_id now left).0.user_plans ≡ db'.user_plans =
      ap (λ x. x.1.user_plans) same in
    let found = or_fail-eq-ok _ bucket_not_found kept in
    let apart = Distinct-delete_where (is_own user_id bucket_id) db.user_plans d in
    let settled =
      advance_user_queues_settles user_id now left apart
        (All-delete_where (is_own user_id bucket_id) IsReady db.user_plans ready) in
    (
      found ∙ ap some answer,
      ap (λ (x : Bucket). is_free x.kind) (sym answer) ∙ paid,
      subst (λ rows. All (λ (c : Bucket). c.user_id ≡ user_id → queue_due now rows c ≡ false) rows)
          rows settled,
      subst (λ rest. Pointwise (Keeps user_id) rest db'.user_plans)
          (delete_where-is_own user_id bucket_id db.user_plans row d found)
          (subst (Pointwise (Keeps user_id) left.user_plans) rows
            (advance_user_queues-Keeps user_id now left apart)),
    )
