-- ===== src/Passes.antt =====
-- internal/store/userplans.go and periods.go: the passes that the background loops run over all users,
-- and the one that answers a read. A database error of a single transaction is not modelled, so each
-- transaction of a pass commits.
use qing_zhou.Common.{ℕ, Bool, false, not, ◌&&◌, ◌||◌, List, [], ◌∷◌, any, ltb, ◌==◌, if◌then◌else◌}
use qing_zhou.Bucket.{Bucket, period_due}
use qing_zhou.Queue.{queue_due, advance_user_queues}
use qing_zhou.Periods.{reset_user_periods}
use qing_zhou.Store.{Db}

-- SELECT DISTINCT user_id … ORDER BY user_id
abbrev put_user : ℕ → List ℕ → List ℕ
put_user n [] = n ∷ []
put_user n (m ∷ ms) =
    let rest = put_user n ms in if n == m then m ∷ ms else if ltb n m then n ∷ m ∷ ms else m ∷ rest

unfoldable pub users_with : (Bucket → Bool) → List Bucket → List ℕ
users_with p [] = []
users_with p (b ∷ rows) =
    let rest = users_with p rows in if p b then put_user b.user_id rest else rest

-- the loop of both passes: one transaction for each user, and the users that it reports
unfoldable pub each_user : (ℕ → Db → Db × Bool) → List ℕ → Db → Db × List ℕ
each_user f [] db = (db, [])
each_user f (u ∷ us) db =
    let (db', changed) = f u db in
    let (db'', rest) = each_user f us db' in (db'', if changed then u ∷ rest else rest)

-- `AdvanceAllQueues`, with `advanceOne`
unfoldable pub advance_all_queues : ℕ → Db → Db × List ℕ
unfolding each_user users_with queue_due advance_user_queues
advance_all_queues now db =
    each_user (λ u. advance_user_queues u now)
      (users_with (queue_due now db.user_plans) db.user_plans) db

-- `ResetDuePeriods`, with `resetUserPeriodsTx`
unfoldable pub reset_due_periods : ℕ → Db → Db × List ℕ
unfolding each_user users_with period_due reset_user_periods
reset_due_periods now db =
    each_user (λ u. reset_user_periods u now) (users_with (period_due now) db.user_plans) db

-- `AdvanceQueueFor`: both counts are taken before either transaction
unfoldable pub advance_queue_for : ℕ → ℕ → Db → Db × Bool
unfolding queue_due period_due reset_user_periods advance_user_queues
advance_queue_for user_id now db =
    let due =
      any (λ (q : Bucket). q.user_id == user_id && queue_due now db.user_plans q) db.user_plans in
    let period_is_due =
      any (λ (b : Bucket). b.user_id == user_id && period_due now b) db.user_plans in
    let (db', changed) = if period_is_due then reset_user_periods user_id now db else (db, false) in
    if not due
    then (db', changed)
    else (let (db'', ch) = advance_user_queues user_id now db' in (db'', ch || changed))
