-- ===== src/Periods/Borrowing.antt =====
-- internal/store/periods.go: the quota of a period after borrowing.
use qing_zhou.Common.{ℕ, ◌+◌, ◌≤◌, ◌<◌, ◌≡◌, true, List, larger, arith}
use qing_zhou.Bucket.{Bucket, used, advanced, periodic, Status}
use qing_zhou.Package.{Package}
use qing_zhou.Queue.{borrowable_limit}
use qing_zhou.Periods.{periods_passed, next_quota, roll}

-- When one period ends and the next one follows, a row that stayed within the limit that
-- `refreshPeriodLimits` had set gets, over the two periods, exactly the base of the old one and one
-- quota: what it used or could have used of its own, and the new base, add up to that.
pub next_quota-conserves :
    (packages : List Package) (rows : List Bucket) (now : ℕ) (d : Bucket)
    → periods_passed now d ≡ 1
    → used d ≤ borrowable_limit packages rows d
    → larger d.period_base (used d) + next_quota now d ≡ d.period_base + d.period_quota
unfolding borrowable_limit next_quota
next_quota-conserves packages rows now d one within = ground arith

-- After a longer outage, when more than one period has passed, nothing is taken off the new quota.
-- In every case the new period starts with at most the quota, an empty counter, and the whole of its
-- base as the limit.
pub roll-fresh :
    (now : ℕ) (d : Bucket)
    → ((roll now d).period_base ≤ d.period_quota)
      × ((roll now d).traffic_limit ≡ (roll now d).period_base)
      × (used (roll now d) ≡ 0)
      × (1 < periods_passed now d → (roll now d).period_base ≡ d.period_quota)
unfolding roll next_quota
roll-fresh now d = (ground arith, ground arith, ground arith, λ h. ground arith)

-- What `Advanced` shows of a running periodic row is what the next period loses, if that period
-- follows right after and the row stayed within the limit that was set.
pub advanced-next_quota :
    (packages : List Package) (rows : List Bucket) (now : ℕ) (d : Bucket)
    → periodic d ≡ true
    → d.status ≡ Status.active
    → periods_passed now d ≡ 1
    → used d ≤ borrowable_limit packages rows d
    → advanced d + next_quota now d ≡ d.period_quota
unfolding advanced next_quota borrowable_limit
advanced-next_quota packages rows now d p s one within = ground arith
