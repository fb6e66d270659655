-- ===== src/Traffic.antt =====
-- internal/store/traffic_ledger.go: what one reading adds to a row and its user, `applyBucketUsage` of
-- userplans.go and `safeApplyBucketUsage`. A day is a text that a parameter makes of an instant, in the
-- local zone or in UTC.
pub mod Tables
pub mod Identity
pub mod Polls
pub mod Relays
pub mod Binding
pub mod Recording
pub mod Debits
pub mod Steps
pub mod Marks
pub mod Counting
pub mod Kept
pub mod Replay
pub mod Leases
pub mod Collecting
use qing_zhou.Common.{
  ℕ, ◌+◌, ◌-◌, String, Bool, true, false, not, ◌&&◌, ◌||◌, Option, none, some, List, [], ◌∷◌, ◌++◌,
  ltb, ◌==◌, str_eq, any, first, update_where, if◌then◌else◌,
}
use qing_zhou.Result.{
  Result, ok, err, bucket_not_found, user_not_found, counter_overflow, fail_if, or_fail, ◌>>=◌,
  ◌>>◌,
}
use qing_zhou.Bucket.{Bucket, Kind}
use qing_zhou.Store.{User, Db}
use qing_zhou.Points.{find_user, update_user}
use qing_zhou.Grants.{update_plan}
use qing_zhou.Traffic.Tables.{
  UsageDelta, no_usage, Sample, DailyUsage, Meter, max_int64, is_free_kind,
}

-- INSERT … ON CONFLICT(day, user_id, bucket_id) DO UPDATE
unfoldable pub add_daily : DailyUsage → List DailyUsage → List DailyUsage
add_daily d rows =
    let same = λ (r : DailyUsage).
      str_eq r.day d.day && (r.user_id == d.user_id && r.bucket_id == d.bucket_id) in
    if any same rows
    then update_where same
        (λ (r : DailyUsage). record r {
          package_id = d.package_id;
          up = r.up + d.up;
          down = r.down + d.down;
        })
        rows
    else rows ++ d ∷ []

-- `applyBucketUsage`
unfoldable pub apply_bucket_usage :
    (ℕ → String) → ℕ → ℕ → ℕ → Option Kind → UsageDelta → ℕ → Meter → Meter
unfolding add_daily
apply_bucket_usage local_day bucket_id user_id package_id kind d at m =
    let mirrored = if is_free_kind kind then no_usage else d in
    let row : Sample = record {
      server_id = 0;
      user_id = user_id;
      ts = at;
      up = d.up;
      down = d.down;
    } in
    record m {
      db =
          update_user user_id
            (λ (u : User). record u {
              used_up = u.used_up + mirrored.up;
              used_down = u.used_down + mirrored.down;
              last_online_at = at;
              updated_at = at;
            })
            (update_plan bucket_id
              (λ (b : Bucket). record b {
                used_up = b.used_up + d.up;
                used_down = b.used_down + d.down;
                last_online_at = at;
                updated_at = at;
              })
              m.db);
      traffic_samples = m.traffic_samples ++ row ∷ [];
      traffic_daily =
          add_daily
            (record {
              day = local_day at;
              user_id = user_id;
              bucket_id = bucket_id;
              package_id = package_id;
              up = d.up;
              down = d.down;
            })
            m.traffic_daily;
    }

-- the sums that must stay within 63 bits
unfoldable pub overflows : ℕ → ℕ → UsageDelta → Bool
overflows up down d =
    ltb (max_int64 - up) d.up
    || (ltb (max_int64 - down) d.down || ltb (max_int64 - (down + d.down)) (up + d.up))

-- the second check of `safeApplyBucketUsage`, which the free row is spared
unfoldable pub check_user : Bool → ℕ → UsageDelta → Db → Result (Unit {0})
unfolding overflows
check_user true user_id d db = ok tt
check_user false user_id d db = do
  u ← or_fail (find_user user_id db) user_not_found
  fail_if (overflows u.used_up u.used_down d) counter_overflow

-- `safeApplyBucketUsage`
unfoldable pub safe_apply_bucket_usage :
    (ℕ → String) → ℕ → ℕ → ℕ → Option Kind → UsageDelta → ℕ → Meter → Result Meter
unfolding overflows check_user apply_bucket_usage
safe_apply_bucket_usage local_day bucket_id user_id package_id kind d at m = do
  b ← or_fail (first (λ (b : Bucket). b.id == bucket_id) m.db.user_plans) bucket_not_found
  fail_if (overflows b.used_up b.used_down d) counter_overflow
  check_user (is_free_kind kind) user_id d m.db
  ok (apply_bucket_usage local_day bucket_id user_id package_id kind d at m)
