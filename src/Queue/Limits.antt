-- ===== src/Queue/Limits.antt =====
-- internal/store/userplans.go: what `advanceUserQueues` leaves of the limits.
use qing_zhou.Common.{
  ℕ, ◌≡◌, refl, ap, ◌∙◌, String, true, false, Option, none, some, List, [], ◌∷◌, ◌==◌, Distinct,
  Pointwise, Pointwise-map, Pointwise-refl, Pointwise-trans, Pointwise-update_where, All-of_Memᴰ,
  first, first-Memᴰ, any, arith, Bool-cases, inl, inr,
}
use qing_zhou.Bucket.{Bucket, is_queued}
use qing_zhou.Package.{Package}
use qing_zhou.Store.{Db}
use qing_zhou.Queue.{
  borrowed_from_line, activate, retire, advance_line, advance_lines, promote, is_running,
  refresh_period_limits, borrowable_limit, queued_lines, advance_user_queues,
}
use qing_zhou.Queue.Line.{hand_over_row, hand_over-map}
use qing_zhou.Queue.Kept.{
  ids, same_id, is_waiting, ids-Keeps, advance_line-Keeps, user_plans-advance,
}
use qing_zhou.Queue.Progress.{owns_slot}

pub record HoldsLimit (b c : Bucket) : Type 0 where
  pub id : c.id ≡ b.id
  pub user_id : c.user_id ≡ b.user_id
  pub period_days : c.period_days ≡ b.period_days
  pub lump : b.period_days ≡ 0 → c.traffic_limit ≡ b.traffic_limit
  pub in_service : is_queued b.status ≡ false → is_queued c.status ≡ false
  pub base : is_queued b.status ≡ false → c.period_base ≡ b.period_base

HoldsLimit-refl : (b : Bucket) → HoldsLimit b b
HoldsLimit-refl b = record {
  id = refl;
  user_id = refl;
  period_days = refl;
  lump = λ h. refl;
  in_service = λ h. h;
  base = λ h. refl;
}

HoldsLimit-trans : (a b c : Bucket) → HoldsLimit a b → HoldsLimit b c → HoldsLimit a c
HoldsLimit-trans a b c r s = record {
  id = s.id ∙ r.id;
  user_id = s.user_id ∙ r.user_id;
  period_days = s.period_days ∙ r.period_days;
  lump = λ h. s.lump (r.period_days ∙ h) ∙ r.lump h;
  in_service = λ h. s.in_service (r.in_service h);
  base = λ h. s.base (r.in_service h) ∙ r.base h;
}

row-HoldsLimit :
    (user_id : ℕ) (key : String) (now carry q_id : ℕ) (b : Bucket)
    → ((b.id == q_id) ≡ true → is_queued b.status ≡ true)
    → HoldsLimit b (hand_over_row user_id key now carry q_id b)
unfolding activate retire
row-HoldsLimit user_id key now carry q_id b same = ground arith

promote-HoldsLimit :
    (user_id : ℕ) (key : String) (now : ℕ) (q : Option Bucket) (rows : List Bucket)
    → Distinct (ids rows)
    → first (is_waiting user_id key) rows ≡ q
    → Pointwise HoldsLimit rows (promote user_id key now q rows).0
unfolding promote
promote-HoldsLimit user_id key now none rows d e = Pointwise-refl _ HoldsLimit-refl rows
promote-HoldsLimit user_id key now (some q) rows d e =
    let (m, t) = first-Memᴰ (is_waiting user_id key) rows e in
    rw hand_over-map (
      Pointwise-map HoldsLimit _ rows (
        All-of_Memᴰ _ rows λ b n.
          row-HoldsLimit user_id key now (borrowed_from_line user_id key q.id now rows) q.id b
            λ own.
              ap (λ (c : Bucket). is_queued c.status) (same_id rows d n m own) ∙ ground (arith, t)))

advance_line-HoldsLimit :
    (user_id now : ℕ) (key : String) (rows : List Bucket)
    → Distinct (ids rows)
    → Pointwise HoldsLimit rows (advance_line user_id now key rows).0
unfolding advance_line
advance_line-HoldsLimit user_id now key rows d =
    elim (Bool-cases (any (owns_slot user_id now key) rows)) [
      | inl usable ↦ rw usable (Pointwise-refl _ HoldsLimit-refl rows)
      | inr free ↦
          rw free
            (promote-HoldsLimit user_id key now (first (is_waiting user_id key) rows) rows d refl)
    ]

advance_lines-HoldsLimit :
    (user_id now : ℕ) (keys : List String) (rows : List Bucket)
    → Distinct (ids rows)
    → Pointwise HoldsLimit rows (advance_lines user_id now keys rows).0
unfolding advance_lines
advance_lines-HoldsLimit user_id now [] rows d = Pointwise-refl _ HoldsLimit-refl rows
advance_lines-HoldsLimit user_id now (key ∷ keys) rows d =
    let rows' = (advance_line user_id now key rows).0 in
    let same = ids-Keeps user_id rows rows' (advance_line-Keeps user_id now key rows d) in
    Pointwise-trans _ HoldsLimit-trans rows rows' (advance_lines user_id now keys rows').0
      (advance_line-HoldsLimit user_id now key rows d)
      (advance_lines-HoldsLimit user_id now keys rows' (rw same d))

limit-HoldsLimit :
    (limit : ℕ) (b : Bucket)
    → is_running b ≡ true
    → HoldsLimit b (record b { traffic_limit = limit })
limit-HoldsLimit limit b t = record {
  id = refl;
  user_id = refl;
  period_days = refl;
  lump = λ h. ground (arith, t, h);
  in_service = λ h. h;
  base = λ h. refl;
}

refresh-HoldsLimit :
    (packages : List Package) (user_id : ℕ) (rows : List Bucket)
    → Pointwise HoldsLimit rows (refresh_period_limits packages user_id rows)
unfolding refresh_period_limits
refresh-HoldsLimit packages user_id rows =
    Pointwise-update_where HoldsLimit _ _ rows HoldsLimit-refl
      λ b t. limit-HoldsLimit (borrowable_limit packages rows b) b (ground (arith, t))

-- Where ids are distinct, an advance leaves the limit of every row without periods, and the base of
-- every row that is not queued.
pub advance_user_queues-HoldsLimit :
    (user_id now : ℕ) (db : Db)
    → Distinct (ids db.user_plans)
    → Pointwise HoldsLimit db.user_plans (advance_user_queues user_id now db).0.user_plans
advance_user_queues-HoldsLimit user_id now db d =
    let rows' = (advance_lines user_id now (queued_lines user_id db.user_plans) db.user_plans).0 in
    rw user_plans-advance (
      Pointwise-trans _ HoldsLimit-trans db.user_plans rows'
        (refresh_period_limits db.packages user_id rows')
        (advance_lines-HoldsLimit user_id now (queued_lines user_id db.user_plans) db.user_plans d)
        (refresh-HoldsLimit db.packages user_id rows'))
