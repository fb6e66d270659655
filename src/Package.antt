-- ===== src/Package.antt =====
-- internal/store/packages.go: what the shop sells, and how a buyer's or an administrator's choice
-- of a duration is resolved. A duration of 0 or less is 0 here; the price list stores no other.
pub mod Options
pub mod Periods
use mathlib.Core.Bool.{cond}
use qing_zhou.Common.{
  ℕ, ◌+◌, ◌-◌, ◌*◌, ◌/◌, String, Bool, true, false, not, ◌&&◌, ◌||◌, Option, none, some, List, [],
  ◌∷◌, map, ltb, ◌==◌, select, first, if◌then◌else◌,
}
use qing_zhou.Common.Int.{ℤ, pos, negsuc}
use qing_zhou.Result.{Result, ok, err, is_ok, option_not_found, invalid_assign_days, ◌>>=◌}

pub record PlanOption : Type 0 where
  pub days : ℕ
  pub price_points : ℕ
  pub traffic_bytes : ℕ
  pub monthly_bytes : ℕ

-- the column `type`; `other` is any text but the two that the code knows
pub data PackageType : Type 0 where
  traffic plan other : PackageType

pub record Package : Type 0 where
  pub id : ℕ
  pub type : PackageType
  pub name : String
  pub queue_key : String
  pub price_points : ℕ
  pub traffic_bytes : ℕ
  pub duration_days : ℕ
  pub options : List PlanOption
  pub stock : ℤ  -- -1 is unlimited
  pub enabled : Bool
  pub monthly_reset : Bool
  pub monthly_bytes : ℕ
  pub allow_advance : Bool

abbrev pub is_plan_type : PackageType → Bool
is_plan_type PackageType.plan = true
is_plan_type _ = false

-- `PeriodDays`
abbrev pub period_days : ℕ
period_days = 30

-- `PeriodCount`
unfoldable pub period_count : ℕ → ℕ
period_count days = if days == 0 then 1 else (days + period_days - 1) / period_days

-- `Package.PeriodQuota`
unfoldable pub period_quota : Package → ℕ
period_quota p =
    if ltb 0 p.monthly_bytes
    then p.monthly_bytes
    else (let q = p.traffic_bytes / period_count p.duration_days in
        if q == 0 then p.traffic_bytes else q)

-- one option of the loop in `NormalizeMonthly`
unfoldable pub normalize_option : PlanOption → PlanOption
normalize_option o =
    if ltb 0 o.monthly_bytes
    then record o { traffic_bytes = o.monthly_bytes * period_count o.days }
    else o

abbrev pub is_empty {ℓ} : {A : Type ℓ} → List A → Bool
is_empty [] = true
is_empty (_ ∷ _) = false

-- `Package.NormalizeMonthly`
unfoldable pub normalize_monthly : Package → Package
unfolding normalize_option
normalize_monthly p = if not (is_plan_type p.type) || not p.monthly_reset then p else record p {
  options = map normalize_option p.options;
  traffic_bytes =
      if is_empty p.options && ltb 0 p.monthly_bytes
      then p.monthly_bytes * period_count p.duration_days
      else p.traffic_bytes;
}

-- the filter of `encodeOptions`; what is stored is read back as it was written
unfoldable pub stored_options : List PlanOption → List PlanOption
stored_options opts = select (λ o. ltb 0 o.days) opts

-- the package that carries the duration, price and traffic of an option
unfoldable pub with_option : Package → PlanOption → Package
with_option p o = record p {
  duration_days = o.days;
  price_points = o.price_points;
  traffic_bytes = o.traffic_bytes;
  monthly_bytes = o.monthly_bytes;
}

with_first : Package → List PlanOption → Package
unfolding with_option
with_first p [] = p
with_first p (o ∷ _) = with_option p o

-- `Package.applyDefaultOption`
unfoldable pub apply_default_option : Package → Package
unfolding stored_options normalize_monthly with_first
apply_default_option p =
    let q = normalize_monthly (record p { options = stored_options p.options }) in
    with_first q q.options

pick_option : Package → Option PlanOption → Result Package
unfolding with_option
pick_option p none = err option_not_found
pick_option p (some o) = ok (with_option p o)

resolve_duration : Package → List PlanOption → ℕ → Result Package
unfolding pick_option
resolve_duration p [] days =
    if days == 0 || days == p.duration_days then ok p else err option_not_found
resolve_duration p (o ∷ opts) days =
    let wanted = if days == 0 then o.days else days in
    pick_option p (first (λ x. x.days == wanted) (o ∷ opts))

-- `Package.forDuration`
unfoldable pub for_duration : Package → ℕ → Result Package
unfolding resolve_duration
for_duration p days = resolve_duration p p.options days

-- `MaxAdminAssignDays`
abbrev pub max_admin_assign_days : ℕ
max_admin_assign_days = 3650

-- the tail of `forAdminDuration`: a length that is not published
unfoldable pub custom_duration : ℕ → Package → Package
unfolding period_quota period_count
custom_duration days base =
    let q = period_quota base in
    let eff =
      if base.monthly_reset
      then record base { monthly_bytes = q; traffic_bytes = q * period_count days }
      else base in
    record eff { duration_days = days }

admin_plan : Package → ℕ → Result Package → Result Package
unfolding custom_duration
admin_plan p days (ok eff) = ok eff
admin_plan p days (err _) =
    if ltb max_admin_assign_days days
    then err invalid_assign_days
    else (do base ← for_duration p 0; ok (custom_duration days base))

-- `Package.forAdminDuration`
unfoldable pub for_admin_duration : Package → ℤ → Result Package
unfolding admin_plan
for_admin_duration p (negsuc _) = err invalid_assign_days
for_admin_duration p (pos days) =
    if not (is_plan_type p.type) then for_duration p 0 else admin_plan p days (for_duration p days)
