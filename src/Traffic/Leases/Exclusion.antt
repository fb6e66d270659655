-- ===== src/Traffic/Leases/Exclusion.antt =====
-- internal/store/traffic_ledger.go: who holds a lease.
use qing_zhou.Common.{
  ℕ, ◌+◌, ◌<◌, ◌≡◌, ◌≢◌, refl, ◌∙◌, subst, arith, inl, inr, String, true, false, List, [], ◌∷◌,
  ◌++◌, ◌==◌, ==_iff, ==_refl, All-map, any, update_where, All, All-Memᴰ, Distinct, Memᴰ_of_any,
  Bool-cases,
}
use qing_zhou.Traffic.Leases.{
  Lease, leases_of, is_takeable, acquire_traffic_lease, Request, requests, IsForeign,
}
use qing_zhou.Traffic.Leases.Holding.{
  IsHeld, IsKept, there-update, none-takeable, IsHeld-snoc, requests-IsKept,
}

-- A row of another node.
abbrev IsAway : ℕ → Lease → Type 0
IsAway server_id l = (l.server_id == server_id) ≡ false

any-IsAway :
    (server_id : ℕ) (rows : List Lease)
    → any (λ (l : Lease). l.server_id == server_id) rows ≡ false
    → All (IsAway server_id) rows
any-IsAway server_id [] n = tt
any-IsAway server_id (l ∷ rows) n =
    (ground (arith, n), any-IsAway server_id rows (ground (arith, n)))

module _ (server_id : ℕ) (owner : String) (end : ℕ) where
  away-IsHeld : (l : Lease) → IsAway server_id l → IsHeld server_id owner end l
  away-IsHeld l away own = cc (away, own)

  All-away-IsHeld :
      (rows : List Lease) → All (IsAway server_id) rows → All (IsHeld server_id owner end) rows
  All-away-IsHeld [] a = tt
  All-away-IsHeld (l ∷ rows) a = (away-IsHeld l a.0, All-away-IsHeld rows a.1)

  away-update :
      (now : ℕ) (f : Lease → Lease) (rows : List Lease)
      → All (IsAway server_id) rows
      → All (IsHeld server_id owner end) (update_where (is_takeable server_id owner now) f rows)
  away-update now f [] a = tt
  away-update now f (l ∷ rows) a = elim (Bool-cases (is_takeable server_id owner now l)) [
    | inl t ↦ let away = a.0 in cc (rw away at t)
    | inr n ↦ rw n (away-IsHeld l a.0, away-update now f rows a.1)
  ]

-- Where the nodes of the rows are distinct, the rows of a lease that was granted are the owner's.
takeable-IsHeld :
    (server_id : ℕ) (owner : String) (now : ℕ) (rows : List Lease)
    → Distinct (leases_of rows)
    → any (is_takeable server_id owner now) rows ≡ true
    → All (IsHeld server_id owner (now + 60)) (
        update_where
          (is_takeable server_id owner now)
          (λ (l : Lease). record l { owner = owner; expires_at = now + 60 })
          rows)
takeable-IsHeld server_id owner now [] d t = cc
takeable-IsHeld server_id owner now (l ∷ rows) d t =
    let apart = All-map (λ m. (m == l.server_id) ≡ false) (λ (m : Lease). m.server_id) rows d.0 in
    elim (Bool-cases (is_takeable server_id owner now l)) [
      | inl own ↦ rw own (
        (λ h. (refl, refl)),
        away-update server_id owner (now + 60) now _ rows (
            subst (λ k. All (λ (m : Lease). (m.server_id == k) ≡ false) rows)
              ((==_iff l.server_id server_id).0 (node_of l own)) apart),
      )
      | inr other ↦
          let (x, m, u) = Memᴰ_of_any (is_takeable server_id owner now) rows (rw other at t) in
          let away = All-Memᴰ (λ (x : Lease). (x.server_id == l.server_id) ≡ false) rows apart m in
          rw other (
            (λ own.
                let here = (==_iff l.server_id server_id).0 own in
                let there = (==_iff x.server_id server_id).0 (node_of x u) in
                let same : (x.server_id == l.server_id) ≡ true = ground (arith, here, there) in cc),
            takeable-IsHeld server_id owner now rows d.1 (rw other at t),
          )
    ]
  where
    node_of :
        (m : Lease) → is_takeable server_id owner now m ≡ true → (m.server_id == server_id) ≡ true
    node_of m u = elim (Bool-cases (m.server_id == server_id)) [
      | inl own ↦ own
      | inr away ↦ cc (rw away at u)
    ]

there-own :
    (server_id : ℕ) (rows : List Lease) (l : Lease)
    → (l.server_id == server_id) ≡ true
    → any (λ (l : Lease). l.server_id == server_id) (rows ++ l ∷ []) ≡ true
there-own server_id [] l own = rw own refl
there-own server_id (m ∷ rows) l own = ground (arith, there-own server_id rows l own)

acquire-holds :
    (server_id : ℕ) (owner : String) (now : ℕ) (rows : List Lease)
    → Distinct (leases_of rows)
    → (acquire_traffic_lease server_id owner now rows).0 ≡ true
    → IsKept server_id owner (now + 60) (acquire_traffic_lease server_id owner now rows).1
unfolding acquire_traffic_lease
acquire-holds server_id owner now rows d granted =
    elim (Bool-cases (any (λ (l : Lease). l.server_id == server_id) rows)) [
      | inl some_row ↦ rw some_row (record {
        there =
            there-update server_id owner (now + 60) (is_takeable server_id owner now)
              (λ (l : Lease). record l { owner = owner; expires_at = now + 60 }) rows (λ l. refl)
            ∙ some_row;
        held = takeable-IsHeld server_id owner now rows d (rw some_row at granted);
      })
      | inr no_row ↦ rw no_row (record {
        there = there-own server_id rows _ (==_refl server_id);
        held =
            IsHeld-snoc server_id owner (now + 60) rows _
              (All-away-IsHeld server_id owner (now + 60) rows (any-IsAway server_id rows no_row))
              (λ own. (refl, refl));
      })
    ]

exclusive :
    (server_id : ℕ) (owner other : String) (end now : ℕ) (rows : List Lease)
    → other ≢ owner
    → now < end
    → IsKept server_id owner end rows
    → (acquire_traffic_lease server_id other now rows).0 ≡ false
unfolding acquire_traffic_lease
exclusive server_id owner other end now rows foreign early kept =
    rw kept.there (none-takeable server_id owner end other now rows foreign early kept.held)

-- Among rows of distinct nodes: once a process got the lease of a node, no other one gets it within 60
-- seconds, whatever the others ask for and release in between, for this node and for others.
pub acquire_traffic_lease-exclusive :
    (server_id : ℕ) (owner other : String) (now later : ℕ) (rows : List Lease) (rs : List Request)
    → Distinct (leases_of rows)
    → (acquire_traffic_lease server_id owner now rows).0 ≡ true
    → All (IsForeign owner (now + 60)) rs
    → other ≢ owner
    → later < now + 60
    → (acquire_traffic_lease server_id other later
        (requests rs (acquire_traffic_lease server_id owner now rows).1)).0
      ≡ false
acquire_traffic_lease-exclusive server_id owner other now later rows rs d granted others foreign
      early =
    exclusive server_id owner other (now + 60) later _ foreign early (
      requests-IsKept server_id owner (now + 60) rs _ others
        (acquire-holds server_id owner now rows d granted))
