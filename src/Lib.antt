-- ===== src/Lib.antt =====
-- QingZhou is a panel that sells network plans: users pay points for packages, a package becomes rows
-- of the table `user_plans` (the code calls them buckets), rows of one line are used one after the
-- other, and background loops renew, advance and reset them. This library models the part of the Go
-- server that decides who gets what and what it costs, the metering of traffic, and some machinery of
-- the running server.
--
-- The parts, and the files that model them (paths from the repository's root):
--   * Bucket: internal/store/userplans.go, the record `Bucket` and its methods, and the SQL predicates
--     `usableHeadPredicate`, `usableExpr` and `periodDuePredicate` (periods.go).
--   * Package: internal/store/packages.go, durations and monthly quotas (`PeriodCount`, `PeriodQuota`,
--     `NormalizeMonthly`, `applyDefaultOption`, `forDuration`, `forAdminDuration`).
--   * Store: the tables, as lists of rows in the order of their ids. A transaction is a function from
--     the tables to a result that holds the new tables; an error has none, which is the rollback.
--   * Lines: the line of a row (`lineKey`, `effectiveQueueKey`), where it ends (`LineEnds`,
--     `FinalExpiry`) and the mirror of a user's rows in `users` (`recomputeUserAggregate`).
--   * Queue: `advanceUserQueues` of userplans.go, the step that retires the head of a line and puts the
--     next row in service, with the borrowing of periods.go.
--   * Periods: `resetUserPeriods` of periods.go.
--   * Points: `AdjustPoints` of points.go and the ledger that every change of a balance writes.
--   * Grants: how an order becomes a row (`enqueuePlanBucket`, `addToPool`, `subFromPool`).
--   * Purchase: `PurchaseDuration` and `AssignPackageDuration` of purchase.go. They call Package for
--     the terms, Points for the balance, Grants and Queue for the row, and Lines for the mirror.
--   * Refund: `RefundOrder` of purchase.go and refund.go: the policy, the quote over the rows that an
--     order fed, the payment back and the reversal of what the order brought. A float64 is a value of the
--     record `Float`, whose operations are parameters; the full refund names the laws that it needs.
--   * AutoRenew: autorenew.go, which sells the same way without a buyer's request.
--   * PointCodes: point_codes.go, the redemption of codes for points.
--   * Passes: the passes over all users (`AdvanceAllQueues`, `ResetDuePeriods`, `AdvanceQueueFor`).
--   * UserPlans: an administrator's `DeleteBucket` and `AdjustBucketTraffic`, and the reversal of the
--     row of an order.
--   * PlanLines: an administrator's settings for a line (periods.go, from `lineTx` on).
--   * Ownership: internal/store/singbox.go (`orderBuckets`, `pickOwner`, `userBucketOrder`) and
--     `accountMeterBucket` of proxyaccount.go: which row of a user pays for which node.
--   * Names: noderoute.go and credentials.go, the suffixes that the names of the statistics carry.
--   * Traffic: traffic_ledger.go, traffic_ledger_binding.go and traffic_ledger_batch.go, with
--     `applyBucketUsage` and `resolveStatsIdentity` of userplans.go: a poll of a node is checked, stored
--     with the owners of its names (Recording, Binding, Relays), and processed name by name (Polls,
--     Identity), which debits the rows; Ownership chooses the row of an account, Names reads the names.
--     Collecting and Leases are what a collector does around a poll.
--   * TrafficStatus: internal/store/traffic_status.go, the counters of a machine over a window.
--   * SyncQueue: internal/sbctl/schedule.go, the queue of configuration rebuilds, as the steps that run
--     under its lock (`schedule`, and `drain` with what it calls) in any order.
--   * Intervals: internal/intervalcfg/intervalcfg.go, how often the background loops run.
--   * Circuit: internal/sbctl/restartcircuit.go. RateLimit: internal/api/ratelimit.go.
--   * Common, Result: shared names, the SQL forms as functions on lists, results with errors.
--   * Scenarios: concrete tables, tests on them, and the theorems at concrete inputs.
--
-- How the code is read: a time is a number of seconds (of nanoseconds in Circuit and Intervals), and
-- each operation takes the time that the code reads from the clock. A column that the code keeps at 0
-- or more is a natural number; an expiry, a stock and an amount of points are integers. The 64-bit range
-- matters in the overflow tests of `RedeemPointCode` and of the debits, in the rounding of an interval,
-- in the checks that a poll must pass and in the numbers of names, and is written out there; elsewhere
-- amounts are not bounded. An error of the database itself is not modelled. The push to the nodes that a
-- purchase makes inside its transaction is a parameter that says whether it went through; SHA-256, the
-- size of the JSON text of a poll, the text of a day in a time zone, and the settings are parameters. A
-- map of the code (the counters of a poll) is the list of its entries in the order of their names, which
-- is the order in which the code goes through it. Every loop of the code is structural recursion over
-- the rows, keys, users, names or codes that it ranges over. The one that prints a number has the number
-- itself as fuel, which is more than its digits; the goroutine of SyncQueue is a step function, one
-- call for each stretch of its code under the lock.
--
-- Not modelled: the column `refund_ratio`, which only reports read, the older path of the metering
-- (`AddUsageBatch`) and its reports, the topology of relays, the making of credentials and identities
-- (random texts), the HTTP handlers, the generation of node configurations, subscriptions, mail, backups, updates, certificates and the front end.
pub mod Common
pub mod Result
pub mod Bucket
pub mod Package
pub mod Store
pub mod Lines
pub mod Queue
pub mod Periods
pub mod Points
pub mod Grants
pub mod Purchase
pub mod Refund
pub mod AutoRenew
pub mod PointCodes
pub mod Passes
pub mod UserPlans
pub mod PlanLines
pub mod Ownership
pub mod Names
pub mod Traffic
pub mod TrafficStatus
pub mod Intervals
pub mod SyncQueue
pub mod Circuit
pub mod RateLimit
pub mod Scenarios
