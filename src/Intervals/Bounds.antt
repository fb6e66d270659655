-- ===== src/Intervals/Bounds.antt =====
-- internal/intervalcfg/intervalcfg.go: the range and the unit of the intervals.
use qing_zhou.Common.{
  ℕ, ◌+◌, ◌-◌, ◌*◌, ◌/◌, ◌%◌, ◌≤◌, ◌≡◌, refl, ap, sym, ◌∙◌, arith, inl, inr, String, true, false,
  Option, none, some, leb, ◌==◌, larger, Bool-cases, if◌then◌else◌,
}
use qing_zhou.Common.Int.{ℤ, pos, negsuc, ltb_ℤ}
use qing_zhou.Common.Decimal.{parse_int, max_int64}
use qing_zhou.Intervals.{
  minute, wrapped, clamp, setting_int, bounded, env_duration, or_setting, stats, reconcile,
  controller,
}

-- A whole number of minutes within bounds.
abbrev pub IsMinutes : ℕ → ℕ → ℤ → Type 0
IsMinutes low high d = (k : ℕ) × (d ≡ pos (k * minute)) × (low ≤ k) × (k ≤ high)

-- What the environment holds, if anything, is not within a minute of the largest int64.
abbrev pub IsMild : Option ℤ → Type 0
IsMild none = Unit
IsMild (some (negsuc _)) = Unit
IsMild (some (pos n)) = n + minute ≤ max_int64

clamp_bounds :
    (z : ℤ) (low high : ℕ) → low ≤ high → (low ≤ clamp z low high) × (clamp z low high ≤ high)
unfolding clamp
clamp_bounds (negsuc _) low high le = (omega arith, le)
clamp_bounds (pos n) low high le = ground (arith, le)

setting_int_bounds :
    (s : Option String) (def low high : ℕ)
    → low ≤ def
    → def ≤ high
    → (low ≤ setting_int s def low high) × (setting_int s def low high ≤ high)
unfolding setting_int
setting_int_bounds none def low high le ge = (le, ge)
setting_int_bounds (some raw) def low high le ge = read (parse_int raw)
  where
    read :
        (o : Option ℤ)
        → let n = elim o as (λ _. ℕ) [ none ↦ def | some z ↦ clamp z low high ] in
          (low ≤ n) × (n ≤ high)
    read none = (le, ge)
    read (some z) = clamp_bounds z low high (omega (arith, le, ge))

wrapped-small : (n : ℕ) → n ≤ max_int64 → wrapped n ≡ pos n
unfolding wrapped
wrapped-small n le = elim (Bool-cases (leb n max_int64)) [
  | inl fits ↦ rw fits refl
  | inr large ↦ let clash : true ≡ false = ground (arith, large, le) in cc
]

whole_minutes : (d : ℕ) → d ≡ d / 60000000000 * 60000000000 + d % 60000000000
whole_minutes d = omega arith

-- Rounding up to minutes.
rounded_up :
    (d : ℕ)
    → d + minute ≤ max_int64
    → (k : ℕ) × ((if d % minute == 0 then pos d else wrapped (d + (minute - d % minute)))
        ≡ pos (k * minute))
      × (d ≤ k * minute)
rounded_up d mild = elim (Bool-cases (d % minute == 0)) [
  | inl even ↦ rw even (
    d / minute,
    ap pos (ground (arith, even, whole_minutes d)),
    ground (arith, even, whole_minutes d),
  )
  | inr odd ↦
      let up : d + (minute - d % minute) ≡ (d / minute + 1) * minute =
        omega (arith, whole_minutes d) in
      rw odd (
        d / minute + 1,
        wrapped-small (d + (minute - d % minute)) (omega (arith, mild)) ∙ ap pos up,
        omega (arith, whole_minutes d),
      )
]

capped-IsMinutes :
    (k low high : ℕ)
    → low ≤ k
    → low ≤ high
    → IsMinutes low high (
        if ltb_ℤ (pos (high * minute)) (pos (k * minute))
        then pos (high * minute)
        else pos (k * minute))
capped-IsMinutes k low high le ge =
    elim (Bool-cases (ltb_ℤ (pos (high * minute)) (pos (k * minute)))) [
      | inl above ↦ rw above (high, refl, ge, omega arith)
      | inr within ↦ rw within (k, refl, le, ground (arith, within))
    ]

bounded-IsMinutes :
    (n low high : ℕ)
    → low ≤ high
    → n + minute ≤ max_int64
    → low * minute + minute ≤ max_int64
    → IsMinutes low high (bounded n (low * minute) (high * minute) minute)
unfolding bounded
bounded-IsMinutes n low high le mild small =
    let d = larger n (low * minute) in
    let at_least : low * minute ≤ d = ground arith in
    let below : d + minute ≤ max_int64 = ground (arith, mild, small) in
    let (k, up, above) = rounded_up d below in
    rw up (capped-IsMinutes k low high (omega (arith, at_least, above)) le)

interval-IsMinutes :
    (env : Option ℤ) (setting : Option String) (def low high : ℕ)
    → low ≤ def
    → def ≤ high
    → low * minute + minute ≤ max_int64
    → IsMild env
    → IsMinutes low high (
        or_setting
          (env_duration env (low * minute) (high * minute) minute)
          (setting_int setting def low high * minute))
unfolding env_duration
interval-IsMinutes none setting def low high le ge small mild =
    let (a, b) = setting_int_bounds setting def low high le ge in
    (setting_int setting def low high, refl, a, b)
interval-IsMinutes (some (negsuc _)) setting def low high le ge small mild =
    let (a, b) = setting_int_bounds setting def low high le ge in
    (setting_int setting def low high, refl, a, b)
interval-IsMinutes (some (pos n)) setting def low high le ge small mild =
    elim (Bool-cases (n == 0)) [
      | inl zero ↦
          let (a, b) = setting_int_bounds setting def low high le ge in
          rw zero (setting_int setting def low high, refl, a, b)
      | inr set ↦ rw set (bounded-IsMinutes n low high (omega (arith, le, ge)) mild small)
    ]

-- The reconciliation is not more frequent than the statistics.
paired :
    (x y : ℤ)
    → IsMinutes 1 60 x
    → IsMinutes 10 1440 y
    → IsMinutes 10 1440 (if ltb_ℤ y x then x else y)
      × (ltb_ℤ (if ltb_ℤ y x then x else y) x ≡ false)
paired x y (k, a, low, high) (m, b, least, most) = elim (Bool-cases (ltb_ℤ y x)) [
  | inl sooner ↦
      let less : ltb_ℤ (pos (m * minute)) (pos (k * minute)) ≡ true =
        ap (λ v. ltb_ℤ v (pos (k * minute))) (sym b) ∙ ap (ltb_ℤ y) (sym a) ∙ sooner in
      rw sooner ((k, a, ground (arith, less, least), omega (arith, high)), ltb_ℤ-irrefl x)
  | inr later ↦ rw later ((m, b, least, most), later)
]
  where
    ltb_ℤ-irrefl : (z : ℤ) → ltb_ℤ z z ≡ false
    ltb_ℤ-irrefl (pos n) = ground arith
    ltb_ℤ-irrefl (negsuc n) = ground arith

-- The pair of intervals that the controller runs on, whatever the settings hold and whatever the
-- environment holds short of a minute below the largest int64: both are whole minutes, the one of the
-- statistics within 1 and 60, that of the reconciliation within 10 and 1440, and not the shorter one.
pub controller_bounds :
    (stats_env : Option ℤ) (stats_setting : Option String) (reconcile_env : Option ℤ)
    (reconcile_setting : Option String)
    → IsMild stats_env
    → IsMild reconcile_env
    → IsMinutes 1 60 (controller stats_env stats_setting reconcile_env reconcile_setting).0
      × IsMinutes 10 1440 (controller stats_env stats_setting reconcile_env reconcile_setting).1
      × (ltb_ℤ
            (controller stats_env stats_setting reconcile_env reconcile_setting).1
            (controller stats_env stats_setting reconcile_env reconcile_setting).0
          ≡ false)
unfolding controller stats reconcile
controller_bounds stats_env stats_setting reconcile_env reconcile_setting a b =
    let s =
      interval-IsMinutes stats_env stats_setting 10 1 60 (omega arith) (omega arith) (omega arith)
        a in
    let r =
      interval-IsMinutes reconcile_env reconcile_setting 60 10 1440 (omega arith) (omega arith)
        (omega arith) b in
    let (longer, kept) = paired _ _ s r in (s, longer, kept)
