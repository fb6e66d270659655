-- ===== src/Queue/Progress.antt =====
-- internal/store/userplans.go: the slots of the lines while `advanceUserQueues` goes through them.
use mathlib.Core.List.{Memᴰ}
use text.Mathlib.TextEquality.{eq_iff}
use qing_zhou.Common.{
  ℕ, ◌<◌, ◌≡◌, refl, subst, ap, ◌∙◌, String, Bool, true, false, ◌&&◌, Option, none, some, List,
  ◌==◌, Distinct, All, map-All, All-Memᴰ, All-of_Memᴰ, first, first-Memᴰ, first-any, any, any-map,
  any_congr, any_of_Memᴰ, arith, ◌⊎◌, inl, inr, Bool-cases, str_eq,
}
use qing_zhou.Bucket.{Bucket, Status, used, usable_head}
use qing_zhou.Queue.{hand_over, borrowed_from_line, activate, retire, advance_line, promote}
use qing_zhou.Queue.Line.{hand_over_row, hand_over-map}
use qing_zhou.Queue.Kept.{ids, same_id, is_waiting}

abbrev pub owns_slot : ℕ → ℕ → String → Bucket → Bool
owns_slot user_id now key h = (h.user_id == user_id && str_eq h.queue_key key) && usable_head now h

-- A line is settled: some row owns its slot, or no row waits for it.
abbrev pub IsSettled : ℕ → ℕ → String → List Bucket → Type 0
IsSettled user_id now key rows =
    (any (owns_slot user_id now key) rows ≡ true) ⊎ (any (is_waiting user_id key) rows ≡ false)

-- A queued row brings a quota: it is periodic, or has traffic left.
abbrev pub IsReady : Bucket → Type 0
IsReady b = b.status ≡ Status.queued → (0 < b.period_days) ⊎ (used b < b.traffic_limit)

module _ (user_id now : ℕ) where
  promoted_owns :
      (key : String) (carry : ℕ) (q : Bucket)
      → is_waiting user_id key q ≡ true
      → IsReady q
      → owns_slot user_id now key (hand_over_row user_id key now carry q.id q) ≡ true
  unfolding usable_head activate
  promoted_owns key carry q t ready = ground arith

  row-IsReady :
      (key : String) (carry q_id : ℕ) (b : Bucket)
      → IsReady b
      → IsReady (hand_over_row user_id key now carry q_id b)
  unfolding activate retire
  row-IsReady key carry q_id b ready = ground arith

  -- Handing over one line changes nothing that another line is asked about.
  row_other :
      (key other : String) (carry q_id : ℕ) (b : Bucket)
      → str_eq key other ≡ false
      → ((b.id == q_id) ≡ true → str_eq b.queue_key key ≡ true)
      → let c = hand_over_row user_id key now carry q_id b in
        (owns_slot user_id now other c ≡ owns_slot user_id now other b)
        × (is_waiting user_id other c ≡ is_waiting user_id other b)
  unfolding usable_head activate retire
  row_other key other carry q_id b ne same = (
    ground (arith, eq_iff b.queue_key key, eq_iff b.queue_key other, eq_iff key other),
    ground (arith, eq_iff b.queue_key key, eq_iff b.queue_key other, eq_iff key other),
  )

  hand_over-owned :
      (key : String) (q : Bucket) (rows : List Bucket)
      → Memᴰ q rows
      → is_waiting user_id key q ≡ true
      → IsReady q
      → any (owns_slot user_id now key) (hand_over user_id key now q rows) ≡ true
  hand_over-owned key q rows m t ready =
      rw (hand_over-map, any-map)
        (any_of_Memᴰ _ rows m
          (promoted_owns key (borrowed_from_line user_id key q.id now rows) q t ready))

  promote-IsSettled :
      (key : String) (q : Option Bucket) (rows : List Bucket)
      → All IsReady rows
      → first (is_waiting user_id key) rows ≡ q
      → IsSettled user_id now key (promote user_id key now q rows).0
  unfolding promote
  promote-IsSettled key none rows ready e = inr (first-any (is_waiting user_id key) rows e)
  promote-IsSettled key (some q) rows ready e =
      let (m, t) = first-Memᴰ (is_waiting user_id key) rows e in
      inl (hand_over-owned key q rows m t (All-Memᴰ IsReady rows ready m))

  pub advance_line-IsSettled :
      (key : String) (rows : List Bucket)
      → All IsReady rows
      → IsSettled user_id now key (advance_line user_id now key rows).0
  unfolding advance_line
  advance_line-IsSettled key rows ready = elim (Bool-cases (any (owns_slot user_id now key) rows)) [
    | inl usable ↦ rw usable (inl usable)
    | inr free ↦
        rw free (promote-IsSettled key (first (is_waiting user_id key) rows) rows ready refl)
  ]

  hand_over-other :
      (key other : String) (q : Bucket) (rows : List Bucket)
      → Distinct (ids rows)
      → Memᴰ q rows
      → is_waiting user_id key q ≡ true
      → str_eq key other ≡ false
      → IsSettled user_id now other rows
      → IsSettled user_id now other (hand_over user_id key now q rows)
  hand_over-other key other q rows d m t ne s =
      rw (hand_over-map, any-map, any-map)
        (let same_row = λ (b : Bucket) (n : Memᴰ b rows).
            row_other key other (borrowed_from_line user_id key q.id now rows) q.id b ne λ e.
              ap (λ (c : Bucket). str_eq c.queue_key key) (same_id rows d n m e)
              ∙ ground (arith, t) in
          rw
            (
              any_congr _ (owns_slot user_id now other) rows
                  (All-of_Memᴰ _ rows (λ b n. (same_row b n).0)),
              any_congr _ (is_waiting user_id other) rows
                  (All-of_Memᴰ _ rows (λ b n. (same_row b n).1)),
            )
            s)

  promote-other :
      (key other : String) (q : Option Bucket) (rows : List Bucket)
      → Distinct (ids rows)
      → str_eq key other ≡ false
      → first (is_waiting user_id key) rows ≡ q
      → IsSettled user_id now other rows
      → IsSettled user_id now other (promote user_id key now q rows).0
  unfolding promote
  promote-other key other none rows d ne e s = s
  promote-other key other (some q) rows d ne e s =
      let (m, t) = first-Memᴰ (is_waiting user_id key) rows e in
      hand_over-other key other q rows d m t ne s

  advance_line-other :
      (key other : String) (rows : List Bucket)
      → Distinct (ids rows)
      → str_eq key other ≡ false
      → IsSettled user_id now other rows
      → IsSettled user_id now other (advance_line user_id now key rows).0
  unfolding advance_line
  advance_line-other key other rows d ne s =
      elim (Bool-cases (any (owns_slot user_id now key) rows)) [
        | inl usable ↦ rw usable s
        | inr free ↦
            rw free (promote-other key other (first (is_waiting user_id key) rows) rows d ne refl s)
      ]

  -- A turn of the loop keeps every settled line settled.
  pub advance_line-keeps_IsSettled :
      (key other : String) (rows : List Bucket)
      → Distinct (ids rows)
      → All IsReady rows
      → IsSettled user_id now other rows
      → IsSettled user_id now other (advance_line user_id now key rows).0
  advance_line-keeps_IsSettled key other rows d ready s = elim (Bool-cases (str_eq key other)) [
    | inl e ↦
        subst (λ k. IsSettled user_id now k (advance_line user_id now key rows).0)
          ((eq_iff key other).0 e) (advance_line-IsSettled key rows ready)
    | inr ne ↦ advance_line-other key other rows d ne s
  ]

  promote-IsReady :
      (key : String) (q : Option Bucket) (rows : List Bucket)
      → All IsReady rows
      → All IsReady (promote user_id key now q rows).0
  unfolding promote
  promote-IsReady key none rows ready = ready
  promote-IsReady key (some q) rows ready = rw hand_over-map (
      map-All IsReady _ rows
        (λ b. row-IsReady key (borrowed_from_line user_id key q.id now rows) q.id b) ready)

  pub advance_line-IsReady :
      (key : String) (rows : List Bucket)
      → All IsReady rows
      → All IsReady (advance_line user_id now key rows).0
  unfolding advance_line
  advance_line-IsReady key rows ready = elim (Bool-cases (any (owns_slot user_id now key) rows)) [
    | inl usable ↦ rw usable ready
    | inr free ↦ rw free (promote-IsReady key (first (is_waiting user_id key) rows) rows ready)
  ]
