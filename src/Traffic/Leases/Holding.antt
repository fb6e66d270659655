-- ===== src/Traffic/Leases/Holding.antt =====
-- internal/store/traffic_ledger.go: what other processes leave of a lease that one of them holds.
use text.Mathlib.TextEquality.{eq_iff}
use qing_zhou.Common.{
  ℕ, ◌+◌, ◌<◌, ◌≡◌, ◌≢◌, refl, ap, sym, ◌∙◌, subst, arith, inl, inr, String, Bool, true, false,
  ◌&&◌, ◌||◌, List, [], ◌∷◌, ◌++◌, ◌==◌, ==_iff, str_eq, any, update_where, delete_where, All,
  Bool-cases,
}
use qing_zhou.Traffic.Leases.{
  Lease, is_takeable, acquire_traffic_lease, release_traffic_lease, Request, request, requests,
  IsForeign,
}

-- A row of the node is the owner's, until an instant.
abbrev pub IsHeld : ℕ → String → ℕ → Lease → Type 0
IsHeld server_id owner end l =
    (l.server_id == server_id) ≡ true → (l.owner ≡ owner) × (l.expires_at ≡ end)

pub record IsKept (server_id : ℕ) (owner : String) (end : ℕ) (rows : List Lease) : Type 0 where
  pub there : any (λ (l : Lease). l.server_id == server_id) rows ≡ true
  pub held : All (IsHeld server_id owner end) rows

-- A row that a test picks is no row of the node, and a change keeps its node.
module _ (server_id : ℕ) (owner : String) (end : ℕ) where
  pub IsHeld-update :
      (q : Lease → Bool) (f : Lease → Lease) (rows : List Lease)
      → ((l : Lease) → (f l).server_id ≡ l.server_id)
      → ((l : Lease)
          → IsHeld server_id owner end l
          → q l ≡ true
          → (l.server_id == server_id) ≡ false)
      → All (IsHeld server_id owner end) rows
      → All (IsHeld server_id owner end) (update_where q f rows)
  IsHeld-update q f [] keep apart h = tt
  IsHeld-update q f (l ∷ rows) keep apart h = elim (Bool-cases (q l)) [
    | inl t ↦ rw t (
      (λ own. let away = apart l h.0 t in cc (rw (keep l, away) at own)),
      IsHeld-update q f rows keep apart h.1,
    )
    | inr n ↦ rw n (h.0, IsHeld-update q f rows keep apart h.1)
  ]

  pub there-update :
      (q : Lease → Bool) (f : Lease → Lease) (rows : List Lease)
      → ((l : Lease) → (f l).server_id ≡ l.server_id)
      → any (λ (l : Lease). l.server_id == server_id) (update_where q f rows)
        ≡ any (λ (l : Lease). l.server_id == server_id) rows
  there-update q f [] keep = refl
  there-update q f (l ∷ rows) keep = ground (arith, keep l, there-update q f rows keep)

  IsHeld-delete :
      (q : Lease → Bool) (rows : List Lease)
      → All (IsHeld server_id owner end) rows
      → All (IsHeld server_id owner end) (delete_where q rows)
  IsHeld-delete q [] h = tt
  IsHeld-delete q (l ∷ rows) h = elim (Bool-cases (q l)) [
    | inl t ↦ rw t (IsHeld-delete q rows h.1)
    | inr n ↦ rw n (h.0, IsHeld-delete q rows h.1)
  ]

  there-delete :
      (q : Lease → Bool) (rows : List Lease)
      → ((l : Lease)
          → IsHeld server_id owner end l
          → q l ≡ true
          → (l.server_id == server_id) ≡ false)
      → All (IsHeld server_id owner end) rows
      → any (λ (l : Lease). l.server_id == server_id) (delete_where q rows)
        ≡ any (λ (l : Lease). l.server_id == server_id) rows
  there-delete q [] apart h = refl
  there-delete q (l ∷ rows) apart h = elim (Bool-cases (q l)) [
    | inl t ↦ rw (t, apart l h.0 t) (there-delete q rows apart h.1)
    | inr n ↦ rw n (ap (λ b. l.server_id == server_id || b) (there-delete q rows apart h.1))
  ]

  -- What a foreign request picks is no row of the node.
  takeable-apart :
      (k : ℕ) (other : String) (now : ℕ) (l : Lease)
      → other ≢ owner
      → now < end
      → IsHeld server_id owner end l
      → is_takeable k other now l ≡ true
      → (l.server_id == server_id) ≡ false
  takeable-apart k other now l foreign early h t = elim (Bool-cases (l.server_id == server_id)) [
    | inr away ↦ away
    | inl own ↦
        let (same, until) = h own in
        elim (Bool-cases (str_eq l.owner other)) [
          | inl named ↦ elim (foreign (sym ((eq_iff l.owner other).0 named) ∙ same)) [ ]
          | inr unlike ↦ ground (arith, t, unlike, until, early)
        ]
  ]

  pub none-takeable :
      (other : String) (now : ℕ) (rows : List Lease)
      → other ≢ owner
      → now < end
      → All (IsHeld server_id owner end) rows
      → any (is_takeable server_id other now) rows ≡ false
  none-takeable other now [] foreign early h = refl
  none-takeable other now (l ∷ rows) foreign early h =
      elim (Bool-cases (is_takeable server_id other now l)) [
        | inr n ↦ rw n (none-takeable other now rows foreign early h.1)
        | inl t ↦
            let away = takeable-apart server_id other now l foreign early h.0 t in
            ground (arith, t, away)
      ]

  pub IsHeld-snoc :
      (rows : List Lease) (l : Lease)
      → All (IsHeld server_id owner end) rows
      → IsHeld server_id owner end l
      → All (IsHeld server_id owner end) (rows ++ l ∷ [])
  IsHeld-snoc [] l h k = (k, tt)
  IsHeld-snoc (m ∷ rows) l h k = (h.0, IsHeld-snoc rows l h.1 k)

  there-snoc :
      (rows : List Lease) (l : Lease)
      → any (λ (l : Lease). l.server_id == server_id) rows ≡ true
      → any (λ (l : Lease). l.server_id == server_id) (rows ++ l ∷ []) ≡ true
  there-snoc [] l t = cc
  there-snoc (m ∷ rows) l t = ground (arith, t, there-snoc rows l)

  acquire-IsKept :
      (k : ℕ) (other : String) (now : ℕ) (rows : List Lease)
      → other ≢ owner
      → now < end
      → IsKept server_id owner end rows
      → IsKept server_id owner end (acquire_traffic_lease k other now rows).1
  unfolding acquire_traffic_lease
  acquire-IsKept k other now rows foreign early kept =
      elim (Bool-cases (any (λ (l : Lease). l.server_id == k) rows)) [
        | inl some_row ↦
            let f = λ (l : Lease). record l { owner = other; expires_at = now + 60 } in
            rw some_row (record {
              there = there-update (is_takeable k other now) f rows (λ l. refl) ∙ kept.there;
              held =
                  IsHeld-update (is_takeable k other now) f rows (λ l. refl)
                    (λ l h t. takeable-apart k other now l foreign early h t) kept.held;
            })
        | inr no_row ↦ rw no_row (record {
          there = there-snoc rows _ kept.there;
          held = IsHeld-snoc rows _ kept.held (λ own.
              let same = (==_iff k server_id).0 own in
              cc (
                subst (λ s. any (λ (l : Lease). l.server_id == s) rows ≡ false) same no_row,
                kept.there,
              ));
        })
      ]

  request-IsKept :
      (r : Request) (rows : List Lease)
      → IsForeign owner end r
      → IsKept server_id owner end rows
      → IsKept server_id owner end (request r rows)
  unfolding release_traffic_lease
  request-IsKept (Request.acquire k other now) rows (foreign, early) kept =
      acquire-IsKept k other now rows foreign early kept
  request-IsKept (Request.release k other) rows foreign kept =
      let q = λ (l : Lease). l.server_id == k && str_eq l.owner other in
      record {
        there =
            there-delete q rows (λ l h t. released-apart k other l foreign h t) kept.held
            ∙ kept.there;
        held = IsHeld-delete q rows kept.held;
      }
    where
      released-apart :
          (k : ℕ) (other : String) (l : Lease)
          → other ≢ owner
          → IsHeld server_id owner end l
          → (l.server_id == k && str_eq l.owner other) ≡ true
          → (l.server_id == server_id) ≡ false
      released-apart k other l foreign h t = elim (Bool-cases (l.server_id == server_id)) [
        | inr away ↦ away
        | inl own ↦ elim (Bool-cases (str_eq l.owner other)) [
          | inl named ↦ elim (foreign (sym ((eq_iff l.owner other).0 named) ∙ (h own).0)) [ ]
          | inr unlike ↦ ground (arith, t, unlike)
        ]
      ]

  pub requests-IsKept :
      (rs : List Request) (rows : List Lease)
      → All (IsForeign owner end) rs
      → IsKept server_id owner end rows
      → IsKept server_id owner end (requests rs rows)
  requests-IsKept [] rows f kept = kept
  requests-IsKept (r ∷ rs) rows f kept =
      requests-IsKept rs (request r rows) f.1 (request-IsKept r rows f.0 kept)
