-- ===== src/Queue/Line.antt =====
-- internal/store/userplans.go: one turn of the loop of `advanceUserQueues`, row by row.
use mathlib.Core.Path.{ap₂}
use qing_zhou.Common.{
  ℕ, ◌≤◌, ◌≡◌, ◌≢◌, refl, String, true, not, ◌&&◌, List, [], ◌∷◌, map, ◌==◌, update_where,
  if◌then◌else◌, arith,
}
use qing_zhou.Bucket.{Bucket, Status, is_active}
use qing_zhou.Queue.{in_line, borrowed_from_line, activate, retire, hand_over}

-- what a hand-over makes of one row
abbrev pub hand_over_row : ℕ → String → ℕ → ℕ → ℕ → Bucket → Bucket
hand_over_row user_id key now carry q_id b =
    if b.id == q_id
    then activate now carry b
    else if in_line user_id key b && is_active b.status
    then retire now b
    else b

twice :
    (user_id : ℕ) (key : String) (now carry q_id : ℕ) (b : Bucket)
    → let c = if b.id == q_id then activate now carry b else b in
      (if in_line user_id key c && (is_active c.status && not (c.id == q_id))
        then retire now c
        else c)
      ≡ hand_over_row user_id key now carry q_id b
unfolding activate
twice user_id key now carry q_id b = ground arith

hand_over_rows :
    (user_id : ℕ) (key : String) (now carry q_id : ℕ) (rows : List Bucket)
    → update_where
        (λ (b : Bucket). in_line user_id key b && (is_active b.status && not (b.id == q_id)))
        (retire now)
        (update_where (λ (b : Bucket). b.id == q_id) (activate now carry) rows)
      ≡ map (hand_over_row user_id key now carry q_id) rows
hand_over_rows user_id key now carry q_id [] = refl
hand_over_rows user_id key now carry q_id (b ∷ rows) =
    ap₂ ◌∷◌ (twice user_id key now carry q_id b) (hand_over_rows user_id key now carry q_id rows)

-- A hand-over is made row by row.
pub hand_over-map :
    (user_id : ℕ) (key : String) (now : ℕ) (q : Bucket) (rows : List Bucket)
    → hand_over user_id key now q rows
      ≡ map (hand_over_row user_id key now (borrowed_from_line user_id key q.id now rows) q.id) rows
unfolding hand_over
hand_over-map user_id key now q rows =
    hand_over_rows user_id key now (borrowed_from_line user_id key q.id now rows) q.id rows

-- the order in which a row goes through its states
abbrev pub stage : Status → ℕ
stage Status.queued = 0
stage Status.active = 1
stage Status.retired = 2

-- What an advance of one user's queues leaves alone in a row.
pub record IsKept (b c : Bucket) : Type 0 where
  pub id : c.id ≡ b.id
  pub user_id : c.user_id ≡ b.user_id
  pub kind : c.kind ≡ b.kind
  pub package_id : c.package_id ≡ b.package_id
  pub queue_key : c.queue_key ≡ b.queue_key
  pub order_id : c.order_id ≡ b.order_id
  pub duration_days : c.duration_days ≡ b.duration_days
  pub period_days : c.period_days ≡ b.period_days
  pub period_quota : c.period_quota ≡ b.period_quota
  pub used_up : c.used_up ≡ b.used_up
  pub used_down : c.used_down ≡ b.used_down
  pub forward : stage b.status ≤ stage c.status

abbrev pub Keeps : ℕ → Bucket → Bucket → Type 0
Keeps user_id b c = IsKept b c × (b.user_id ≢ user_id → c ≡ b)

pub row-Keeps :
    (user_id : ℕ) (key : String) (now carry q_id : ℕ) (b : Bucket)
    → ((b.id == q_id) ≡ true → (b.status ≡ Status.queued) × (b.user_id ≡ user_id))
    → Keeps user_id b (hand_over_row user_id key now carry q_id b)
unfolding activate retire
row-Keeps user_id key now carry q_id b same = (ground arith, λ ne. ground arith)
