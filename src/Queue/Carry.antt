-- ===== src/Queue/Carry.antt =====
-- internal/store/userplans.go: what `borrowedFromLine` finds.
use mathlib.Core.List.{Memᴰ}
use qing_zhou.Common.{
  ◌+◌, ◌*◌, ◌<◌, ◌==◌, refl, ℕ, ◌≤◌, ◌≡◌, refl, String, true, List, [], ◌∷◌, All, arith, inl, inr,
  Bool-cases, ◌-◌, ◌⊎◌, larger, ltb, map_All, sym, subst, false, ◌∙◌,
}
use qing_zhou.Common.Int.{ℤ, pos, negsuc}
use qing_zhou.Bucket.{is_active, Bucket, used}
use qing_zhou.Queue.{ended_within, in_line, recent_head, borrowed_from_line}

larger-cases : (m n : ℕ) → (larger m n ≡ m) ⊎ (larger m n ≡ n)
larger-cases m n = elim (Bool-cases (ltb m n)) [
  | inl t ↦ inr (ground (arith, t))
  | inr f ↦ inl (ground (arith, f))
]

module _ (user_id now : ℕ) (key : String) where
  -- what a row of the line that has just ended has used beyond its base
  abbrev pub overuse : Bucket → ℕ
  overuse h = used h - h.period_base

  -- An active periodic row of the line, another than the promoted one, whose expiry is less than one of
  -- its periods ago.
  abbrev pub IsRecent : ℕ → Bucket → Type 0
  IsRecent q_id h =
      (in_line user_id key h ≡ true)
      × (is_active h.status ≡ true)
      × ((h.id == q_id) ≡ false)
      × (0 < h.period_days)
      × ((e : ℕ) × (h.expiry_at ≡ pos e) × (0 < e) × (now < e + h.period_days * 86400))

  query_found :
      (q_id : ℕ) (h : Bucket) → recent_head user_id key q_id now h ≡ true → IsRecent q_id h
  query_found q_id h t =
      let (e, dated, positive, soon) = ended h.expiry_at (ground (arith, t)) in
      (
        ground (arith, t),
        ground (arith, t),
        ground (arith, t),
        ground (arith, t),
        (e, dated, positive, soon),
      )
    where
      ended :
          (z : ℤ)
          → ended_within z (h.period_days * 86400) now ≡ true
          → (e : ℕ) × (z ≡ pos e) × (0 < e) × (now < e + h.period_days * 86400)
      ended (pos e) w = (e, refl, ground (arith, w), ground (arith, w))
      ended (negsuc n) w = cc

  query_finds :
      (q_id : ℕ) (h : Bucket) → IsRecent q_id h → recent_head user_id key q_id now h ≡ true
  query_finds q_id h (line, active, other, periodic, (e, dated, positive, soon)) =
      rw (line, active, other, dated) (ground (arith, periodic, positive, soon))

  -- the most that such a row has used beyond its base, 0 without one
  abbrev pub IsCarry : ℕ → List Bucket → ℕ → Type 0
  IsCarry q_id rows carry =
      All (λ h. IsRecent q_id h → overuse h ≤ carry) rows
      × ((carry ≡ 0) ⊎ ((h : Bucket) × Memᴰ h rows × IsRecent q_id h × (overuse h ≡ carry)))

  -- the same, with the test of the query
  abbrev IsFound : ℕ → List Bucket → ℕ → Type 0
  IsFound q_id rows carry =
      All (λ h. recent_head user_id key q_id now h ≡ true → overuse h ≤ carry) rows
      × ((carry ≡ 0)
          ⊎ ((h : Bucket) × Memᴰ h rows
              × (recent_head user_id key q_id now h ≡ true)
              × (overuse h ≡ carry)))

  borrowed-ended :
      (q_id : ℕ) (b : Bucket) (rows : List Bucket)
      → recent_head user_id key q_id now b ≡ true
      → borrowed_from_line user_id key q_id now (b ∷ rows)
        ≡ larger (overuse b) (borrowed_from_line user_id key q_id now rows)
  unfolding borrowed_from_line
  borrowed-ended q_id b rows e = rw e refl

  borrowed-other :
      (q_id : ℕ) (b : Bucket) (rows : List Bucket)
      → recent_head user_id key q_id now b ≡ false
      → borrowed_from_line user_id key q_id now (b ∷ rows)
        ≡ borrowed_from_line user_id key q_id now rows
  unfolding borrowed_from_line
  borrowed-other q_id b rows e = rw e refl

  borrowed_from_line-IsFound :
      (q_id : ℕ) (rows : List Bucket)
      → IsFound q_id rows (borrowed_from_line user_id key q_id now rows)
  unfolding borrowed_from_line
  borrowed_from_line-IsFound q_id [] = (tt, inl refl)
  borrowed_from_line-IsFound q_id (b ∷ rows) =
      elim (Bool-cases (recent_head user_id key q_id now b)) [
        | inl ended ↦
            (let (above, which) = borrowed_from_line-IsFound q_id rows in
              let rest = borrowed_from_line user_id key q_id now rows in
              subst (IsFound q_id (b ∷ rows)) (sym (borrowed-ended q_id b rows ended)) (
                (
                  (λ e. larger_left (overuse b) rest),
                  map_All _ _ rows (λ h most e. larger_right (overuse b) rest (overuse h) (most e))
                      above,
                ),
                one_of b rows (overuse b) rest ended refl which,
              ))
        | inr other ↦
            (let (above, which) = borrowed_from_line-IsFound q_id rows in
              subst (IsFound q_id (b ∷ rows)) (sym (borrowed-other q_id b rows other)) (
                ((λ e. absurd (cc)), above),
                deeper b rows (borrowed_from_line user_id key q_id now rows) which,
              ))
      ]
    where
      larger_left : (m n : ℕ) → m ≤ larger m n
      larger_left m n = ground arith

      larger_right : (m n k : ℕ) → k ≤ n → k ≤ larger m n
      larger_right m n k h = ground (arith, h)

      deeper :
          (b : Bucket) (rows : List Bucket) (carry : ℕ)
          → (carry ≡ 0)
            ⊎ ((h : Bucket) × Memᴰ h rows
                × (recent_head user_id key q_id now h ≡ true)
                × (overuse h ≡ carry))
          → (carry ≡ 0)
            ⊎ ((h : Bucket) × Memᴰ h (b ∷ rows)
                × (recent_head user_id key q_id now h ≡ true)
                × (overuse h ≡ carry))
      deeper b rows carry (inl e) = inl e
      deeper b rows carry (inr (h, m, ended, e)) = inr (h, Memᴰ.tail m, ended, e)

      one_of :
          (b : Bucket) (rows : List Bucket) (m n : ℕ)
          → recent_head user_id key q_id now b ≡ true
          → overuse b ≡ m
          → (n ≡ 0)
            ⊎ ((h : Bucket) × Memᴰ h rows
                × (recent_head user_id key q_id now h ≡ true)
                × (overuse h ≡ n))
          → (larger m n ≡ 0)
            ⊎ ((h : Bucket) × Memᴰ h (b ∷ rows)
                × (recent_head user_id key q_id now h ≡ true)
                × (overuse h ≡ larger m n))
      one_of b rows m n ended own which = elim (larger-cases m n) [
        | inl left ↦ inr (b, Memᴰ.head refl, ended, own ∙ sym left)
        | inr right ↦ rw right (deeper b rows n which)
      ]

  pub borrowed_from_line-IsCarry :
      (q_id : ℕ) (rows : List Bucket)
      → IsCarry q_id rows (borrowed_from_line user_id key q_id now rows)
  borrowed_from_line-IsCarry q_id rows =
      let (above, which) = borrowed_from_line-IsFound q_id rows in
      (
        map_All _ _ rows (λ h most recent. most (query_finds q_id h recent)) above,
        elim which [
          | inl nothing ↦ inl nothing
          | inr found ↦ (let (h, m, ended, e) = found in inr (h, m, query_found q_id h ended, e))
        ],
      )
