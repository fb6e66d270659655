-- ===== src/Intervals.antt =====
-- internal/intervalcfg/intervalcfg.go: how often the background loops run. A duration is an int64 of
-- nanoseconds. What a variable of the environment holds is an argument, `none` where it is unset, blank
-- or no duration; so is the text of a setting without the space around it, `none` where it has none.
pub mod Bounds
use qing_zhou.Common.{
  ℕ, ◌+◌, ◌-◌, ◌*◌, ◌%◌, String, Bool, true, false, Option, none, some, ltb, leb, ◌==◌, larger,
  smaller, if◌then◌else◌,
}
use qing_zhou.Common.Int.{ℤ, pos, negsuc, ltb_ℤ}
use qing_zhou.Common.Decimal.{parse_int, max_int64}

abbrev pub second : ℕ
second = 1000000000

abbrev pub minute : ℕ
minute = 60000000000

-- the int64 that a sum of two of them, neither below 0, leaves
unfoldable pub wrapped : ℕ → ℤ
wrapped n = if leb n max_int64 then pos n else negsuc (18446744073709551616 - n - 1)

-- `clamp`
unfoldable pub clamp : ℤ → ℕ → ℕ → ℕ
clamp (negsuc _) min max = min
clamp (pos n) min max = if ltb n min then min else if ltb max n then max else n

-- `settingInt`
unfoldable pub setting_int : Option String → ℕ → ℕ → ℕ → ℕ
unfolding parse_int clamp
setting_int none def min max = def
setting_int (some raw) def min max = elim (parse_int raw) [ none ↦ def | some n ↦ clamp n min max ]

-- the rounding and the bounds of `envDuration`
unfoldable pub bounded : ℕ → ℕ → ℕ → ℕ → ℤ
unfolding wrapped
bounded n min max step =
    let d = larger n min in
    let up = if d % step == 0 then pos d else wrapped (d + (step - d % step)) in
    if ltb_ℤ (pos max) up then pos max else up

-- `envDuration`
unfoldable pub env_duration : Option ℤ → ℕ → ℕ → ℕ → Option ℤ
unfolding bounded
env_duration none min max step = none
env_duration (some (negsuc _)) min max step = none
env_duration (some (pos n)) min max step = if n == 0 then none else some (bounded n min max step)

abbrev pub or_setting : Option ℤ → ℕ → ℤ
or_setting none n = pos n
or_setting (some d) n = d

-- `Probe`
unfoldable pub probe : Option ℤ → Option String → ℤ
unfolding env_duration setting_int
probe env setting =
    or_setting (env_duration env (30 * second) (3600 * second) second)
      (setting_int setting 60 30 3600 * second)

-- `Stats`
unfoldable pub stats : Option ℤ → Option String → ℤ
unfolding env_duration setting_int
stats env setting =
    or_setting (env_duration env (1 * minute) (60 * minute) minute)
      (setting_int setting 10 1 60 * minute)

-- `Reconcile`
unfoldable pub reconcile : Option ℤ → Option String → ℤ
unfolding env_duration setting_int
reconcile env setting =
    or_setting (env_duration env (10 * minute) (1440 * minute) minute)
      (setting_int setting 60 10 1440 * minute)

-- `Controller`
unfoldable pub controller : Option ℤ → Option String → Option ℤ → Option String → ℤ × ℤ
unfolding stats reconcile
controller stats_env stats_setting reconcile_env reconcile_setting =
    let s = stats stats_env stats_setting in
    let r = reconcile reconcile_env reconcile_setting in (s, if ltb_ℤ r s then s else r)
