-- ===== src/Package/Periods.antt =====
-- internal/store/packages.go: the arithmetic of monthly quotas, and the total that a package publishes.
use qing_zhou.Common.{
  ℕ, ◌+◌, ◌-◌, ◌*◌, ◌≤◌, ◌<◌, ◌≡◌, refl, subst, true, List, [], ◌∷◌, map, ◌==◌, first, All, some,
  none, Option, arith, ◌||◌, if◌then◌else◌, first-All, Bool-cases, inl, inr,
}
use qing_zhou.Result.{ok}
use qing_zhou.Package.{
  Package, PlanOption, PackageType, period_count, period_quota, normalize_option, normalize_monthly,
  stored_options, with_option, with_first, apply_default_option, for_duration, resolve_duration,
  pick_option,
}

-- A duration has at least one period, and a positive duration ends in its last period.
pub period_count_bounds :
    (days : ℕ)
    → (1 ≤ period_count days)
      × (days ≤ 30 * period_count days)
      × (0 < days → 30 * (period_count days - 1) < days)
unfolding period_count
period_count_bounds days = (ground arith, ground arith, λ h. ground arith)

-- Without a monthly figure, a quota that is split over the periods gives back at most the total
-- that was sold, and loses less than one byte for each period.
pub period_quota-split :
    (p : Package)
    → p.monthly_bytes ≡ 0
    → period_count p.duration_days ≤ p.traffic_bytes
    → (period_quota p * period_count p.duration_days ≤ p.traffic_bytes)
      × (p.traffic_bytes
          < period_quota p * period_count p.duration_days + period_count p.duration_days)
unfolding period_quota
period_quota-split p m h = grind (arith, period_count_bounds)

-- the total of an option with a monthly figure
abbrev IsTotalled : PlanOption → Type 0
IsTotalled o = 0 < o.monthly_bytes → o.traffic_bytes ≡ o.monthly_bytes * period_count o.days

normalize_option-IsTotalled : (o : PlanOption) → IsTotalled (normalize_option o)
unfolding normalize_option
normalize_option-IsTotalled o = ground arith

normalized-IsTotalled : (opts : List PlanOption) → All IsTotalled (map normalize_option opts)
normalized-IsTotalled [] = tt
normalized-IsTotalled (o ∷ opts) = (normalize_option-IsTotalled o, normalized-IsTotalled opts)

-- the same of a package with no options
abbrev IsTotal : Package → Type 0
IsTotal p = 0 < p.monthly_bytes → p.traffic_bytes ≡ period_quota p * period_count p.duration_days

with_option-IsTotal : (p : Package) (o : PlanOption) → IsTotalled o → IsTotal (with_option p o)
unfolding with_option period_quota
with_option-IsTotal p o h m = ground (arith, h m)

pick_option-IsTotal :
    (p : Package) (f : Option PlanOption) {eff : Package}
    → ((o : PlanOption) → f ≡ some o → IsTotalled o)
    → pick_option p f ≡ ok eff
    → IsTotal eff
unfolding pick_option
pick_option-IsTotal p none h e = cc
pick_option-IsTotal p (some o) h e = subst IsTotal (cc) (with_option-IsTotal p o (h o refl))

resolve_duration-IsTotal :
    (p : Package) (opts : List PlanOption) (days : ℕ) {eff : Package}
    → (opts ≡ [] → IsTotal p)
    → All IsTotalled opts
    → resolve_duration p opts days ≡ ok eff
    → IsTotal eff
unfolding resolve_duration
resolve_duration-IsTotal p [] days h a e =
    elim (Bool-cases (days == 0 || days == p.duration_days)) [
      | inl t ↦ subst IsTotal (cc (rw t at e)) (h refl)
      | inr f ↦ cc (rw f at e)
    ]
resolve_duration-IsTotal p (o ∷ opts) days h a e =
    let wanted = if days == 0 then o.days else days in
    pick_option-IsTotal p (first (λ x. x.days == wanted) (o ∷ opts))
      (λ x f. first-All IsTotalled (λ x. x.days == wanted) (o ∷ opts) a f) e

normalize_monthly-IsTotal :
    (p : Package)
    → p.type ≡ PackageType.plan
    → p.monthly_reset ≡ true
    → (normalize_monthly p).options ≡ []
    → IsTotal (normalize_monthly p)
unfolding normalize_monthly period_quota
normalize_monthly-IsTotal p t r e m = ground arith

options-with_first :
    (p : Package) (opts : List PlanOption) → (with_first p opts).options ≡ p.options
unfolding with_first with_option
options-with_first p [] = refl
options-with_first p (o ∷ opts) = refl

with_first-IsTotal :
    (p : Package) (opts : List PlanOption) → opts ≡ [] → IsTotal p → IsTotal (with_first p opts)
unfolding with_first
with_first-IsTotal p [] e h = h
with_first-IsTotal p (o ∷ opts) e h = cc

options-normalize_monthly :
    (p : Package)
    → p.type ≡ PackageType.plan
    → p.monthly_reset ≡ true
    → (normalize_monthly p).options ≡ map normalize_option p.options
unfolding normalize_monthly
options-normalize_monthly p t r = ground arith

-- A plan that resets monthly and is stored by `applyDefaultOption` sells, at every duration that
-- `forDuration` accepts, a total of exactly its monthly quota times the periods of the duration,
-- if that duration has a monthly figure.
pub apply_default_option-total :
    (p : Package) (days : ℕ) {eff : Package}
    → p.type ≡ PackageType.plan
    → p.monthly_reset ≡ true
    → for_duration (apply_default_option p) days ≡ ok eff
    → 0 < eff.monthly_bytes
    → eff.traffic_bytes ≡ period_quota eff * period_count eff.duration_days
unfolding apply_default_option for_duration
apply_default_option-total p days {eff} t r e =
    let stored = record p { options = stored_options p.options } in
    let q = normalize_monthly stored in
    let kept = options-with_first q q.options in
    let totalled : All IsTotalled q.options =
      rw (options-normalize_monthly stored t r) (normalized-IsTotalled stored.options) in
    resolve_duration-IsTotal (with_first q q.options) q.options days
      (λ none_left.
        with_first-IsTotal q q.options none_left (normalize_monthly-IsTotal stored t r none_left))
      totalled (rw kept at e)
