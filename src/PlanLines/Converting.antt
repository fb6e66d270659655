-- ===== src/PlanLines/Converting.antt =====
-- internal/store/periods.go: the switch of a row to monthly reset.
use qing_zhou.Common.{
  ℕ, ◌+◌, ◌-◌, ◌*◌, ◌/◌, ◌≤◌, ◌<◌, ◌≡◌, refl, true, false, ◌⊎◌, inl, inr, arith, Bool-cases,
  smaller, if◌then◌else◌, ◌==◌, ap, ◌∙◌, lt→ltb,
}
use native.Mathlib.Nat.{div-eq_of_lt}
use qing_zhou.Common.Int.{ℤ, pos, negsuc, ◌-ℤ◌}
use qing_zhou.Bucket.{Bucket, used, is_queued}
use qing_zhou.Package.{period_count}
use qing_zhou.Package.Periods.{period_count_bounds}
use qing_zhou.PlanLines.{convert_row, converted_start, even_share, came_active}

-- the last multiple of `p` from `a` on that is not after now
boundary :
    (a now : ℕ)
    → a ≤ now
    → (a + (now - a) / 2592000 * 2592000 ≤ now)
      × (now < a + (now - a) / 2592000 * 2592000 + 2592000)
boundary a now h = (omega (arith, h), omega (arith, h))

converted_start-bounds :
    (act : ℤ) (now : ℕ)
    → 2592000 ≤ now
    → (converted_start act now ≤ now) × (now < converted_start act now + 2592000)
unfolding converted_start
converted_start-bounds (pos act) now late = boundary (smaller act now) now (ground arith)
converted_start-bounds (negsuc n) now late = (omega (arith, late), omega (arith, late))

-- Where the period that now is in starts: full periods after the row came into service, which its
-- expiry and its duration say, or now.
abbrev pub IsStart : ℕ → Bucket → ℕ → Type 0
IsStart now b start =
    ((e : ℕ)
      → b.expiry_at ≡ pos e
      → 0 < e
      → 0 < b.duration_days
      → b.duration_days * 86400 ≤ e
      → (k : ℕ) × (start ≡ smaller (e - b.duration_days * 86400) now + k * 2592000))
    × ((b.expiry_at ≡ pos 0) ⊎ (b.duration_days ≡ 0) → start ≡ now)

converted_start-at :
    (act now : ℕ)
    → converted_start (pos act) now ≡ smaller act now + (now - smaller act now) / 2592000 * 2592000
unfolding converted_start
converted_start-at act now = refl

came_active-dated :
    (now e : ℕ) (b : Bucket)
    → b.expiry_at ≡ pos e
    → 0 < e
    → 0 < b.duration_days
    → b.duration_days * 86400 ≤ e
    → came_active now b ≡ pos (e - b.duration_days * 86400)
unfolding came_active ◌-ℤ◌
came_active-dated now e b dated positive lasts fits =
    rw (dated, lt→ltb 0 e positive, lt→ltb 0 b.duration_days lasts) (ground (arith, fits))

came_active-undated :
    (now : ℕ) (b : Bucket)
    → (b.expiry_at ≡ pos 0) ⊎ (b.duration_days ≡ 0)
    → came_active now b ≡ pos now
unfolding came_active
came_active-undated now b (inl never) = rw never refl
came_active-undated now b (inr open_ended) = ground (arith, open_ended)

converted_start-now : (now : ℕ) → converted_start (pos now) now ≡ now
unfolding converted_start
converted_start-now now = ground arith

converted_start-IsStart :
    (now : ℕ) (b : Bucket) → IsStart now b (converted_start (came_active now b) now)
converted_start-IsStart now b = (
  λ e dated positive lasts fits.
      let a = smaller (e - b.duration_days * 86400) now in
      (
        (now - a) / 2592000,
        ap (λ act. converted_start act now) (came_active-dated now e b dated positive lasts fits)
            ∙ converted_start-at (e - b.duration_days * 86400) now,
      ),
  λ open_ended.
      ap (λ act. converted_start act now) (came_active-undated now b open_ended)
      ∙ converted_start-now now,
)

share-bounds : (limit k : ℕ) → 0 < k → (if limit / k == 0 then limit else limit / k) ≤ limit
share-bounds limit k h = grind arith

-- The periods of a duration: 30 days each, the last one begun, and one without a duration.
abbrev pub IsPeriods : ℕ → ℕ → Type 0
IsPeriods days n = (days ≤ 30 * n) × (0 < days → 30 * (n - 1) < days) × (days ≡ 0 → n ≡ 1)

period_count-zero : (days : ℕ) → days ≡ 0 → period_count days ≡ 1
unfolding period_count
period_count-zero days none = rw none refl

period_count-IsPeriods : (days : ℕ) → IsPeriods days (period_count days)
period_count-IsPeriods days = (
  (period_count_bounds days).1,
  (period_count_bounds days).2,
  λ none. period_count-zero days none,
)

-- What the quota of a period is: an even share, or the whole where a share would be nothing.
abbrev pub IsShare : ℕ → ℕ → ℕ → Type 0
IsShare limit periods quota =
    (periods ≤ limit → (quota * periods ≤ limit) × (limit < quota * periods + periods))
    × (limit < periods → quota ≡ limit)

division-IsShare :
    (limit k : ℕ) → 0 < k → IsShare limit k (if limit / k == 0 then limit else limit / k)
division-IsShare limit k h = (λ le. grind (arith, le, h), λ lt. rw (div-eq_of_lt lt) refl)

-- Switching a row in service to monthly reset, where now is at least 30 days after the epoch, starts its
-- period not after now and less than 30 days back: where the row expires and has a duration that fits
-- before its expiry, a number of full periods after it came into service, which is its duration before
-- its expiry, or now if that is later; and where it never expires or has no duration, now. The usage so
-- far moves to the lifetime counters as a whole, and nothing of the new period is used. A queued row
-- keeps its usage, and starts nothing. For both, the limit, the base and the quota of a period are an
-- even share of the old total over the periods of the duration, rounded down, or the old total where
-- that is less than a byte for each period.
pub convert_row-fresh :
    (now : ℕ) (b : Bucket)
    → 2592000 ≤ now
    → let c = convert_row now b in
      (used c + c.life_used_up + c.life_used_down ≡ used b + b.life_used_up + b.life_used_down)
      × (c.period_quota ≤ b.traffic_limit)
      × (c.traffic_limit ≡ c.period_quota)
      × (c.period_base ≡ c.period_quota)
      × (c.period_days ≡ 30)
      × ((n : ℕ) × IsPeriods b.duration_days n × IsShare b.traffic_limit n c.period_quota)
      × (((is_queued b.status ≡ true) × (used c ≡ used b) × (c.period_start ≡ b.period_start))
          ⊎ ((is_queued b.status ≡ false)
              × (used c ≡ 0)
              × (c.period_start ≤ now)
              × (now < c.period_start + 2592000)
              × IsStart now b c.period_start))
unfolding convert_row even_share
convert_row-fresh now b late =
    let share =
      share-bounds b.traffic_limit (period_count b.duration_days)
        (period_count_bounds b.duration_days).0 in
    let even =
      division-IsShare b.traffic_limit (period_count b.duration_days)
        (period_count_bounds b.duration_days).0 in
    let periods = period_count-IsPeriods b.duration_days in
    let (early, soon) = converted_start-bounds (came_active now b) now late in
    elim (Bool-cases (is_queued b.status)) [
      | inl queued ↦
          rw (convert_row, queued)
            (
              refl,
              share,
              refl,
              refl,
              refl,
              (period_count b.duration_days, periods, even),
              inl (refl, refl, refl),
            )
      | inr serving ↦
          rw (convert_row, serving)
            (
              omega arith,
              share,
              refl,
              refl,
              refl,
              (period_count b.duration_days, periods, even),
              inr (refl, refl, early, soon, converted_start-IsStart now b),
            )
    ]
