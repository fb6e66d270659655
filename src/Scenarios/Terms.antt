-- ===== src/Scenarios/Terms.antt =====
-- Packages and their durations.
use qing_zhou.Common.{ℕ, ◌*◌, ◌≡◌, refl, arith}
use qing_zhou.Result.{ok, err, option_not_found}
use qing_zhou.Package.{
  Package, with_option, for_duration, period_count, period_quota, apply_default_option,
}
use qing_zhou.Package.Periods.{apply_default_option-total}
use qing_zhou.Scenarios.{monthly, quarter}

abbrev asked : ℕ
asked = 90

chosen_quarter : for_duration monthly asked ≡ ok (with_option monthly quarter)
unfolding for_duration
chosen_quarter = refl

not_published : for_duration monthly 100 ≡ err option_not_found
unfolding for_duration
not_published = refl

default_quarter : for_duration monthly 0 ≡ ok (with_option monthly quarter)
unfolding for_duration
default_quarter = refl

abbrev stored : Package
stored = apply_default_option monthly

stored-quarter : for_duration stored 90 ≡ ok (with_option stored quarter)
unfolding apply_default_option for_duration period_count
stored-quarter = refl

apply_default_option-total_example :
    (with_option stored quarter).traffic_bytes
    ≡ period_quota (with_option stored quarter)
      * period_count (with_option stored quarter).duration_days
unfolding with_option
apply_default_option-total_example =
    apply_default_option-total monthly 90 refl refl stored-quarter (omega arith)
