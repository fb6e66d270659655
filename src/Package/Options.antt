-- ===== src/Package/Options.antt =====
-- internal/store/packages.go: which option of a package a duration stands for.
use mathlib.Core.List.{Memᴰ}
use qing_zhou.Common.{
  ℕ, ◌*◌, ◌≤◌, ◌<◌, ◌≡◌, refl, true, List, [], ◌∷◌, ◌==◌, ◌⊎◌, inl, inr, first, first-Memᴰ,
  first_of_Memᴰ, arith, if◌then◌else◌, Option-cases,
}
use qing_zhou.Common.Int.{pos}
use qing_zhou.Result.{ok, err, option_not_found}
use qing_zhou.Package.{
  Package, PlanOption, PackageType, period_count, period_quota, with_option, pick_option,
  resolve_duration, for_duration, custom_duration, for_admin_duration, max_admin_assign_days,
}

module _ (p : Package) where
  -- how a resolved package comes from the options
  abbrev IsPublished : List PlanOption → ℕ → Package → Type 0
  IsPublished opts days eff =
      ((opts ≡ []) × (eff ≡ p) × ((days ≡ 0) ⊎ (days ≡ p.duration_days)))
      ⊎ ((o : PlanOption) × Memᴰ o opts × (eff ≡ with_option p o) × ((days ≡ 0) ⊎ (o.days ≡ days)))

  resolve_duration-IsPublished :
      (opts : List PlanOption) (days : ℕ) {eff : Package}
      → resolve_duration p opts days ≡ ok eff
      → IsPublished opts days eff
  unfolding resolve_duration pick_option
  resolve_duration-IsPublished [] days e = inl (refl, ground arith, ground arith)
  resolve_duration-IsPublished (o ∷ opts) days e =
      let test = λ (x : PlanOption). x.days == (if days == 0 then o.days else days) in
      elim (Option-cases (first test (o ∷ opts))) [
        | inl missing ↦ cc (rw (missing, pick_option) at e)
        | inr (x, found) ↦
            (let (m, t) = first-Memᴰ test (o ∷ opts) found in
              inr (x, m, cc (rw (found, pick_option) at e), ground (arith, t)))
      ]

-- The package that `forDuration` returns is either the package itself, which then has no options and
-- the asked duration (or 0 was asked), or it carries duration, price, traffic and monthly figure of
-- one published option, whose length is the asked one unless 0 was asked.
pub for_duration_published :
    (p : Package) (days : ℕ) {eff : Package}
    → for_duration p days ≡ ok eff
    → ((p.options ≡ []) × (eff ≡ p) × ((days ≡ 0) ⊎ (days ≡ p.duration_days)))
      ⊎ ((o : PlanOption) × Memᴰ o p.options
          × (eff ≡ with_option p o)
          × ((days ≡ 0) ⊎ (o.days ≡ days)))
unfolding for_duration
for_duration_published p days e = resolve_duration-IsPublished p p.options days e

resolve_duration_sells :
    (p : Package) (opts : List PlanOption) (o : PlanOption)
    → Memᴰ o opts
    → 0 < o.days
    → (eff : Package) × (resolve_duration p opts o.days ≡ ok eff) × (eff.duration_days ≡ o.days)
unfolding resolve_duration pick_option
resolve_duration_sells p [] o m h = elim m [ ]
resolve_duration_sells p (d ∷ opts) o m h =
    let test = λ (x : PlanOption). x.days == (if o.days == 0 then d.days else o.days) in
    let (x, found, t) = first_of_Memᴰ test (d ∷ opts) m (ground arith) in
    (with_option p x, rw (found, pick_option) refl, ground (arith, t))

-- The lengths on sale are exactly those that some option publishes: if an option has the asked
-- positive length, `forDuration` succeeds with that length.
pub for_duration_sells :
    (p : Package) (o : PlanOption)
    → Memᴰ o p.options
    → 0 < o.days
    → (eff : Package) × (for_duration p o.days ≡ ok eff) × (eff.duration_days ≡ o.days)
unfolding for_duration
for_duration_sells p o m h = resolve_duration_sells p p.options o m h

-- An administrator's length that is not published, on a plan that resets monthly and has traffic, is
-- granted up to 3650 days at the default option's price and monthly quota, for every period of the
-- asked length.
pub for_admin_duration_custom :
    (p : Package) (days : ℕ) {base : Package}
    → p.type ≡ PackageType.plan
    → for_duration p days ≡ err option_not_found
    → for_duration p 0 ≡ ok base
    → base.monthly_reset ≡ true
    → 0 < base.traffic_bytes
    → days ≤ max_admin_assign_days
    → (eff : Package) × (for_admin_duration p (pos days) ≡ ok eff)
      × (eff.duration_days ≡ days)
      × (eff.price_points ≡ base.price_points)
      × (period_quota eff ≡ period_quota base)
      × (eff.traffic_bytes ≡ period_quota base * period_count days)
unfolding for_admin_duration
for_admin_duration_custom p days {base} t no_option default monthly sold bound = (
  custom_duration days base,
  ground arith,
  ground arith,
  ground arith,
  ground arith,
  ground arith,
)
