-- ===== src/Queue/Heads.antt =====
-- internal/store/userplans.go: which waiting row takes a slot, and what it starts with.
use mathlib.Core.List.{Memᴰ}
use qing_zhou.Common.{
  ℕ, ◌≤◌, ◌<◌, ◌≡◌, refl, String, true, ◌&&◌, Option, none, some, List, [], ◌∷◌, All, All-map,
  All-map_of, All-Memᴰ, All-of_Memᴰ, ap, first, first-Memᴰ, any, arith, inl, inr, Bool-cases, ◌+◌,
  ◌-◌, ◌*◌, map, ==_refl,
}
use mathlib.Core.Option.{some-injective}
use qing_zhou.Common.Int.{pos}
use qing_zhou.Bucket.{Bucket, is_active}
use qing_zhou.Queue.{in_line, borrowed_from_line, activate, retire, advance_line, promote}
use qing_zhou.Queue.Line.{hand_over_row, hand_over-map}
use qing_zhou.Queue.Carry.{IsCarry, borrowed_from_line-IsCarry}
use qing_zhou.Queue.Kept.{ids, is_waiting}
use qing_zhou.Queue.Progress.{owns_slot}

map-Memᴰ {ℓ} : {A : Type ℓ} (f : A → A) (xs : List A) {x : A} → Memᴰ x xs → Memᴰ (f x) (map f xs)
map-Memᴰ f [] m = elim m [ ]
map-Memᴰ f (y ∷ xs) (Memᴰ.head e) = Memᴰ.head (ap f e)
map-Memᴰ f (y ∷ xs) (Memᴰ.tail m) = Memᴰ.tail (map-Memᴰ f xs m)

-- Each id is larger than the ones before it, as AUTOINCREMENT makes them.
abbrev pub Ascending : List ℕ → Type 0
Ascending [] = Unit
Ascending (n ∷ ns) = All (λ (m : ℕ). n < m) ns × Ascending ns

module _ (user_id now : ℕ) (key : String) where
  first_is_least :
      (rows : List Bucket) {q : Bucket}
      → Ascending (ids rows)
      → first (is_waiting user_id key) rows ≡ some q
      → All (λ b. is_waiting user_id key b ≡ true → q.id ≤ b.id) rows
  first_is_least [] a e = tt
  first_is_least (b ∷ rows) {q} a e = elim (Bool-cases (is_waiting user_id key b)) [
    | inl t ↦
        (let same = ap (λ (c : Bucket). c.id) (some-injective _ _ (rw t at e)) in
          (
            (λ _. omega arith),
            All-of_Memᴰ _ rows λ c m _.
                let later = All-Memᴰ (λ (x : Bucket). b.id < x.id) rows (All-map _ _ rows a.0) m in
                omega arith,
          ))
    | inr f ↦ ((λ t. cc), first_is_least rows a.1 (rw f at e))
  ]

  row_active :
      (carry q_id : ℕ) (b : Bucket)
      → let c = hand_over_row user_id key now carry q_id b in
        (in_line user_id key c && is_active c.status) ≡ true → c.id ≡ q_id
  unfolding activate retire
  row_active carry q_id b = ground arith

  -- what the waiting row is once it has the slot
  abbrev pub IsServing : Bucket → List Bucket → Bucket → Type 0
  IsServing q rows c =
      (c.id ≡ q.id)
      × (in_line user_id key c ≡ true)
      × (is_active c.status ≡ true)
      × (0 < q.duration_days → c.expiry_at ≡ pos (now + q.duration_days * 86400))
      × (q.period_days ≡ 0 → c.traffic_limit ≡ q.traffic_limit)
      × (0 < q.period_days
          → (c.period_start ≡ now)
            × (c.traffic_limit ≡ c.period_base)
            × ((carry : ℕ) × IsCarry user_id now key q.id rows carry
                × (c.period_base ≡ q.period_quota - carry)))

  serving :
      (q : Bucket) (rows : List Bucket)
      → is_waiting user_id key q ≡ true
      → IsServing q rows
          (hand_over_row user_id key now (borrowed_from_line user_id key q.id now rows) q.id q)
  unfolding activate
  serving q rows w =
      let carry = borrowed_from_line user_id key q.id now rows in
      rw (==_refl q.id) (
        refl,
        ground (arith, w),
        refl,
        λ h. ground (arith, h),
        λ h. ground (arith, h),
        λ h. (
          ground (arith, h),
          ground (arith, h),
          (carry, borrowed_from_line-IsCarry user_id now key q.id rows, ground (arith, h)),
        ),
      )

  -- what a promotion in one line comes to
  abbrev HandsOver : List Bucket → List Bucket → Type 0
  HandsOver rows rows' =
      (q : Bucket) × Memᴰ q rows
      × (is_waiting user_id key q ≡ true)
      × All (λ b. is_waiting user_id key b ≡ true → q.id ≤ b.id) rows
      × All (λ c. (in_line user_id key c && is_active c.status) ≡ true → c.id ≡ q.id) rows'
      × ((c : Bucket) × Memᴰ c rows' × IsServing q rows c)

  promote_oldest :
      (found : Option Bucket) (rows : List Bucket)
      → Ascending (ids rows)
      → first (is_waiting user_id key) rows ≡ found
      → (promote user_id key now found rows).1 ≡ true
      → HandsOver rows (promote user_id key now found rows).0
  unfolding promote
  promote_oldest none rows a e t = cc
  promote_oldest (some q) rows a e t =
      let (m, w) = first-Memᴰ (is_waiting user_id key) rows e in
      (
        q,
        m,
        w,
        first_is_least rows a e,
        rw hand_over-map
            (All-map_of _ _ rows (row_active (borrowed_from_line user_id key q.id now rows) q.id)),
        (
          hand_over_row user_id key now (borrowed_from_line user_id key q.id now rows) q.id q,
          rw hand_over-map (map-Memᴰ _ rows m),
          serving q rows w,
        ),
      )

-- Where ids ascend, an advance of a line that promotes a row promotes the oldest row that waits in the
-- line: this row is active afterwards, in the same line, and no other row of the line is. If it has a
-- duration, it expires that much from now. If it has no periods it keeps its limit; if it has, its first
-- period starts now, and its base and its limit are its quota less the most that an active periodic row
-- of the line, whose expiry is less than one of its periods ago, has used beyond its own base, which is
-- nothing without such a row; where this is more than the quota they are 0.
pub advance_line_oldest :
    (user_id now : ℕ) (key : String) (rows : List Bucket)
    → Ascending (ids rows)
    → (advance_line user_id now key rows).1 ≡ true
    → (q : Bucket) × Memᴰ q rows
      × (is_waiting user_id key q ≡ true)
      × All (λ b. is_waiting user_id key b ≡ true → q.id ≤ b.id) rows
      × All
          (λ c. (in_line user_id key c && is_active c.status) ≡ true → c.id ≡ q.id)
          (advance_line user_id now key rows).0
      × ((c : Bucket) × Memᴰ c (advance_line user_id now key rows).0
          × IsServing user_id now key q rows c)
unfolding advance_line
advance_line_oldest user_id now key rows a t =
    elim (Bool-cases (any (owns_slot user_id now key) rows)) [
      | inl usable ↦ cc (rw usable at t)
      | inr free ↦ rw free (
          promote_oldest user_id now key (first (is_waiting user_id key) rows) rows a refl
            (rw free at t))
    ]
