-- ===== src/Queue/Kept.antt =====
-- internal/store/userplans.go: what `advanceUserQueues` leaves alone.
use mathlib.Core.List.{Memᴰ}
use mathlib.Core.Path.{ap₂}
use qing_zhou.Common.{
  ℕ, ◌≡◌, refl, sym, ap, ◌∙◌, String, Bool, true, false, Option, none, some, List, [], ◌∷◌, map,
  ◌==◌, Distinct, Pointwise, Pointwise-map, Pointwise-refl, Pointwise-trans, Pointwise-update_where,
  All-map, All-Memᴰ, All-of_Memᴰ, first, first-Memᴰ, any, ◌&&◌, arith, Bool-cases, inl, inr, str_eq,
}
use qing_zhou.Bucket.{Bucket, is_queued, usable_head}
use qing_zhou.Package.{Package}
use qing_zhou.Lines.{recompute_user_aggregate}
use qing_zhou.Store.{Db}
use qing_zhou.Queue.{
  in_line, hand_over, borrowed_from_line, advance_line, advance_lines, promote,
  refresh_period_limits, borrowable_limit, queued_lines, advance_user_queues,
}
use qing_zhou.Queue.Line.{Keeps, row-Keeps, hand_over-map}

abbrev pub ids : List Bucket → List ℕ
ids rows = map (λ (b : Bucket). b.id) rows

-- Where ids are distinct, two rows with one id are one row.
pub same_id :
    (rows : List Bucket) {b q : Bucket}
    → Distinct (ids rows)
    → Memᴰ b rows
    → Memᴰ q rows
    → (b.id == q.id) ≡ true
    → b ≡ q
same_id [] d m n e = elim m [ ]
same_id (x ∷ rows) d (Memᴰ.head p) (Memᴰ.head q) e = p ∙ sym q
same_id (x ∷ rows) {b} {q} d (Memᴰ.head p) (Memᴰ.tail n) e =
    let other = All-Memᴰ (λ (c : Bucket). (c.id == x.id) ≡ false) rows (All-map _ _ rows d.0) n in
    absurd (ground (arith, ap (λ (c : Bucket). c.id) p))
same_id (x ∷ rows) {b} {q} d (Memᴰ.tail m) (Memᴰ.head p) e =
    let other = All-Memᴰ (λ (c : Bucket). (c.id == x.id) ≡ false) rows (All-map _ _ rows d.0) m in
    absurd (ground (arith, ap (λ (c : Bucket). c.id) p))
same_id (x ∷ rows) d (Memᴰ.tail m) (Memᴰ.tail n) e = same_id rows d.1 m n e

abbrev pub is_waiting : ℕ → String → Bucket → Bool
is_waiting user_id key b = in_line user_id key b && is_queued b.status

hand_over-Keeps :
    (user_id : ℕ) (key : String) (now : ℕ) (q : Bucket) (rows : List Bucket)
    → Distinct (ids rows)
    → Memᴰ q rows
    → is_waiting user_id key q ≡ true
    → Pointwise (Keeps user_id) rows (hand_over user_id key now q rows)
hand_over-Keeps user_id key now q rows d m t = rw hand_over-map (
    Pointwise-map (Keeps user_id) _ rows (
      All-of_Memᴰ _ rows λ b n.
        row-Keeps user_id key now (borrowed_from_line user_id key q.id now rows) q.id b λ e.
          let same = same_id rows d n m e in
          (
            ap (λ (c : Bucket). c.status) same ∙ ground (arith, t),
            ap (λ (c : Bucket). c.user_id) same ∙ ground (arith, t),
          )))

Keeps-refl : (user_id : ℕ) (b : Bucket) → Keeps user_id b b
Keeps-refl user_id b = (ground arith, λ ne. refl)

Keeps-trans :
    (user_id : ℕ) (a b c : Bucket) → Keeps user_id a b → Keeps user_id b c → Keeps user_id a c
Keeps-trans user_id a b c (r, f) (s, g) = (
  record {
    id = s.id ∙ r.id;
    user_id = s.user_id ∙ r.user_id;
    kind = s.kind ∙ r.kind;
    package_id = s.package_id ∙ r.package_id;
    queue_key = s.queue_key ∙ r.queue_key;
    order_id = s.order_id ∙ r.order_id;
    duration_days = s.duration_days ∙ r.duration_days;
    period_days = s.period_days ∙ r.period_days;
    period_quota = s.period_quota ∙ r.period_quota;
    used_up = s.used_up ∙ r.used_up;
    used_down = s.used_down ∙ r.used_down;
    forward = omega (arith, r.forward, s.forward);
  },
  λ ne. g (λ e. ne (sym r.user_id ∙ e)) ∙ f ne,
)

pub ids-Keeps :
    (user_id : ℕ) (rows rows' : List Bucket)
    → Pointwise (Keeps user_id) rows rows'
    → ids rows' ≡ ids rows
ids-Keeps user_id [] [] p = refl
ids-Keeps user_id (b ∷ rows) (c ∷ rows') p = ap₂ ◌∷◌ p.0.0.id (ids-Keeps user_id rows rows' p.1)
ids-Keeps user_id [] (c ∷ rows') p = elim p [ ]
ids-Keeps user_id (b ∷ rows) [] p = elim p [ ]

promote-Keeps :
    (user_id : ℕ) (key : String) (now : ℕ) (q : Option Bucket) (rows : List Bucket)
    → Distinct (ids rows)
    → first (is_waiting user_id key) rows ≡ q
    → Pointwise (Keeps user_id) rows (promote user_id key now q rows).0
unfolding promote
promote-Keeps user_id key now none rows d e = Pointwise-refl _ (Keeps-refl user_id) rows
promote-Keeps user_id key now (some q) rows d e =
    let (m, t) = first-Memᴰ (is_waiting user_id key) rows e in
    hand_over-Keeps user_id key now q rows d m t

pub advance_line-Keeps :
    (user_id now : ℕ) (key : String) (rows : List Bucket)
    → Distinct (ids rows)
    → Pointwise (Keeps user_id) rows (advance_line user_id now key rows).0
unfolding advance_line
advance_line-Keeps user_id now key rows d =
    elim (Bool-cases
      (any (λ h. (h.user_id == user_id && str_eq h.queue_key key) && usable_head now h) rows)) [
        | inl usable ↦ rw usable (Pointwise-refl _ (Keeps-refl user_id) rows)
        | inr free ↦
            rw free
              (promote-Keeps user_id key now (first (is_waiting user_id key) rows) rows d refl)
      ]

pub advance_lines-Keeps :
    (user_id now : ℕ) (keys : List String) (rows : List Bucket)
    → Distinct (ids rows)
    → Pointwise (Keeps user_id) rows (advance_lines user_id now keys rows).0
unfolding advance_lines
advance_lines-Keeps user_id now [] rows d = Pointwise-refl _ (Keeps-refl user_id) rows
advance_lines-Keeps user_id now (key ∷ keys) rows d =
    let rows' = (advance_line user_id now key rows).0 in
    let p = advance_line-Keeps user_id now key rows d in
    Pointwise-trans _ (Keeps-trans user_id) rows rows' (advance_lines user_id now keys rows').0 p
      (advance_lines-Keeps user_id now keys rows' (rw (ids-Keeps user_id rows rows' p) d))

limit-Keeps :
    (user_id limit : ℕ) (b : Bucket)
    → (b.user_id == user_id) ≡ true
    → Keeps user_id b (record b { traffic_limit = limit })
limit-Keeps user_id limit b t = (ground arith, λ ne. ground arith)

pub refresh-Keeps :
    (packages : List Package) (user_id : ℕ) (rows : List Bucket)
    → Pointwise (Keeps user_id) rows (refresh_period_limits packages user_id rows)
unfolding refresh_period_limits
refresh-Keeps packages user_id rows =
    Pointwise-update_where (Keeps user_id) _ _ rows (Keeps-refl user_id)
      λ b t. limit-Keeps user_id (borrowable_limit packages rows b) b (ground (arith, t))

-- the rows that `advanceUserQueues` leaves
abbrev pub advanced_rows : List Package → ℕ → ℕ → List Bucket → List Bucket
advanced_rows packages user_id now rows =
    refresh_period_limits packages user_id
      (advance_lines user_id now (queued_lines user_id rows) rows).0

pub advanced_rows-Keeps :
    (packages : List Package) (user_id now : ℕ) (rows : List Bucket)
    → Distinct (ids rows)
    → Pointwise (Keeps user_id) rows (advanced_rows packages user_id now rows)
advanced_rows-Keeps packages user_id now rows d =
    let rows' = (advance_lines user_id now (queued_lines user_id rows) rows).0 in
    Pointwise-trans _ (Keeps-trans user_id) rows rows'
      (refresh_period_limits packages user_id rows')
      (advance_lines-Keeps user_id now (queued_lines user_id rows) rows d)
      (refresh-Keeps packages user_id rows')

pub user_plans-advance :
    (user_id now : ℕ) (db : Db)
    → (advance_user_queues user_id now db).0.user_plans
      ≡ advanced_rows db.packages user_id now db.user_plans
unfolding advance_user_queues recompute_user_aggregate
user_plans-advance user_id now db = ground arith

-- Where ids are distinct, an advance of one user's queues keeps every row with its id, owner, kind,
-- package, line, order, duration, period length, monthly quota and usage, moves no state backwards
-- (queued, active, retired), and leaves the rows of the other users as they are.
pub advance_user_queues-Keeps :
    (user_id now : ℕ) (db : Db)
    → Distinct (ids db.user_plans)
    → Pointwise (Keeps user_id) db.user_plans (advance_user_queues user_id now db).0.user_plans
advance_user_queues-Keeps user_id now db d =
    rw user_plans-advance (advanced_rows-Keeps db.packages user_id now db.user_plans d)
