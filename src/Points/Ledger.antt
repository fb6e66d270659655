-- ===== src/Points/Ledger.antt =====
-- internal/store/points.go: the balances and the ledger.
use qing_zhou.Common.{
  ℕ, ◌≡◌, refl, String, Bool, true, false, Option, none, some, List, [], ◌∷◌, ◌++◌, ◌==◌, first,
  update_where, arith, ap, sym, subst, ==_refl, if◌then◌else◌, ◌∙◌, Bool-cases, inl, inr, ==_iff,
}
use qing_zhou.Common.Int.{ℤ, pos, negsuc, ◌+ℤ◌, int_laws}
use qing_zhou.Result.{ok-injective, ok, user_not_found, >>=-eq-ok, or_fail-eq-ok}
use qing_zhou.Store.{User, PointTx, TxType, Db}
use qing_zhou.Points.{find_user, update_user, set_points, log_points, settle, adjust_points, tx_row}

abbrev pub points_of : Option User → ℕ
points_of none = 0
points_of (some u) = u.points

-- what a user holds, 0 for a user that is not there
abbrev pub balance : ℕ → Db → ℕ
balance user_id db = points_of (find_user user_id db)

-- what the ledger has booked for a user
abbrev pub flow : ℕ → List PointTx → ℤ
flow user_id [] = pos 0
flow user_id (t ∷ ts) =
    if t.user_id == user_id then t.amount +ℤ flow user_id ts else flow user_id ts

-- Every balance has moved by exactly what the ledger booked in between.
abbrev pub IsBooked : Db → Db → Type 0
IsBooked db db' =
    (user_id : ℕ)
    → pos (balance user_id db') +ℤ flow user_id db.point_transactions
      ≡ pos (balance user_id db) +ℤ flow user_id db'.point_transactions

booked_trans :
    (p q r : ℕ) (f g h : ℤ)
    → pos q +ℤ f ≡ pos p +ℤ g
    → pos r +ℤ g ≡ pos q +ℤ h
    → pos r +ℤ f ≡ pos p +ℤ h
booked_trans p q r f g h a b = grind (int_laws, a, b)

pub IsBooked-trans : (a b c : Db) → IsBooked a b → IsBooked b c → IsBooked a c
IsBooked-trans a b c r s j =
    booked_trans (balance j a) (balance j b) (balance j c) (flow j a.point_transactions)
      (flow j b.point_transactions) (flow j c.point_transactions) (r j) (s j)

-- No balance, no ledger row, no order and no package has changed.
pub record IsQuiet (db db' : Db) : Type 0 where
  pub balances : (user_id : ℕ) → balance user_id db' ≡ balance user_id db
  pub ledger : db'.point_transactions ≡ db.point_transactions
  pub orders : db'.orders ≡ db.orders
  pub packages : db'.packages ≡ db.packages

pub IsQuiet-trans : (a b c : Db) → IsQuiet a b → IsQuiet b c → IsQuiet a c
IsQuiet-trans a b c r s = record {
  balances = λ j. s.balances j ∙ r.balances j;
  ledger = s.ledger ∙ r.ledger;
  orders = s.orders ∙ r.orders;
  packages = s.packages ∙ r.packages;
}

pub points-update_where :
    (j user_id : ℕ) (f : User → User) (us : List User)
    → ((u : User) → ((f u).id ≡ u.id) × ((f u).points ≡ u.points))
    → points_of
        (first (λ (u : User). u.id == j) (update_where (λ (u : User). u.id == user_id) f us))
      ≡ points_of (first (λ (u : User). u.id == j) us)
points-update_where j user_id f [] h = refl
points-update_where j user_id f (u ∷ us) h =
    ground (arith, h u, points-update_where j user_id f us h)

-- Writing balance `p` to a user.
module _ (user_id p : ℕ) (f : User → User)
    (writes : (x : User) → ((f x).id ≡ x.id) × ((f x).points ≡ p)) where
  points-write_ne :
      (j : ℕ) (us : List User)
      → (j == user_id) ≡ false
      → points_of
          (first (λ (x : User). x.id == j) (update_where (λ (x : User). x.id == user_id) f us))
        ≡ points_of (first (λ (x : User). x.id == j) us)
  points-write_ne j [] ne = refl
  points-write_ne j (x ∷ us) ne = ground (arith, writes x, points-write_ne j us ne)

  points-write_self :
      (us : List User) (u : User)
      → first (λ (x : User). x.id == user_id) us ≡ some u
      → points_of (
          first (λ (x : User). x.id == user_id) (update_where (λ (x : User). x.id == user_id) f us))
        ≡ p
  points-write_self [] u e = cc
  points-write_self (x ∷ us) u e = ground (arith, writes x, points-write_self us u)

  pub balance-update_user :
      (j : ℕ) (u : User) (db : Db)
      → find_user user_id db ≡ some u
      → balance j (update_user user_id f db) ≡ (if j == user_id then p else balance j db)
  balance-update_user j u db e = elim (Bool-cases (j == user_id)) [
    | inl same ↦ rw same (rw ((==_iff j user_id).0 same) (points-write_self db.users u e))
    | inr ne ↦ rw ne (points-write_ne j db.users ne)
  ]

pub balance-set_points :
    (user_id p now j : ℕ) (u : User) (db : Db)
    → find_user user_id db ≡ some u
    → balance j (set_points user_id p now db) ≡ (if j == user_id then p else balance j db)
unfolding set_points
balance-set_points user_id p now j u db e =
    balance-update_user user_id p _ (λ x. (refl, refl)) j u db e

flow-append :
    (j : ℕ) (ts : List PointTx) (t : PointTx)
    → flow j (ts ++ t ∷ []) ≡ flow j ts +ℤ (if t.user_id == j then t.amount else pos 0)
flow-append j [] t = grind int_laws
flow-append j (x ∷ ts) t = grind (int_laws, flow-append j ts t)

-- One balance moves from `q` to `p` by `a`: what the sum of the ledger says.
moved_row : (p q : ℕ) (a f : ℤ) → pos q +ℤ a ≡ pos p → pos p +ℤ f ≡ pos q +ℤ (f +ℤ a)
moved_row p q a f sum = grind (int_laws, sum)

still_row : (q : ℕ) (f : ℤ) → pos q +ℤ f ≡ pos q +ℤ (f +ℤ pos 0)
still_row q f = grind int_laws

==_sym : (a b : ℕ) → (a == b) ≡ (b == a)
==_sym a b = ground arith

-- A change of one user's balance to `p`, booked with the amount that leads to `p`, is booked.
pub IsBooked-of_row :
    (user_id p now : ℕ) (u : User) (t : PointTx) (a b c : Db)
    → find_user user_id a ≡ some u
    → t.user_id ≡ user_id
    → pos u.points +ℤ t.amount ≡ pos p
    → IsQuiet (set_points user_id p now a) b
    → ((j : ℕ) → balance j c ≡ balance j b)
    → c.point_transactions ≡ b.point_transactions ++ t ∷ []
    → IsBooked a c
IsBooked-of_row user_id p now u t a b c found owner sum quiet same logged j =
    let before : b.point_transactions ≡ a.point_transactions = unfold set_points in quiet.ledger in
    let after = same j ∙ quiet.balances j ∙ balance-set_points user_id p now j u a found in
    let rows = flow-append j a.point_transactions t in
    rw (logged, before, rows, after, owner) (booked (j == user_id) refl)
  where
    booked :
        (same : Bool)
        → (j == user_id) ≡ same
        → pos (if j == user_id then p else balance j a) +ℤ flow j a.point_transactions
          ≡ pos (balance j a)
            +ℤ (flow j a.point_transactions +ℤ (if user_id == j then t.amount else pos 0))
    booked true e =
        let own : balance j a ≡ u.points =
          ap (λ i. balance i a) ((==_iff j user_id).0 e) ∙ ap points_of found in
        rw (==_sym user_id j, e, own) (moved_row p u.points t.amount _ sum)
    booked false e = rw (==_sym user_id j, e) (still_row (balance j a) _)

-- What `settle` writes when it does not refuse.
settled : ℕ → ℤ → String → ℕ → ℕ → ℕ → Db → Db
settled user_id amount type operator_id now p db =
    log_points user_id amount (TxType.adjusted type) p 0 operator_id now
      (set_points user_id p now db)

settle-eq-ok :
    (user_id : ℕ) (amount : ℤ) (type : String) (operator_id now : ℕ) (db db' : Db) (z : ℤ) (p : ℕ)
    → settle user_id amount type operator_id now db z ≡ ok (p, db')
    → (z ≡ pos p) × (db' ≡ settled user_id amount type operator_id now p db)
unfolding settle settled
settle-eq-ok user_id amount type operator_id now db db' (negsuc n) p h = cc
settle-eq-ok user_id amount type operator_id now db db' (pos q) p h =
    let same = ok-injective _ _ h in
    (
      ap (λ x. pos (x.0)) same,
      sym (ap (λ x. x.1) same)
          ∙ ap (λ b. settled user_id amount type operator_id now b db) (ap (λ x. x.0) same),
    )

settled-IsBooked :
    (user_id : ℕ) (amount : ℤ) (type : String) (operator_id now p : ℕ) (db : Db) (u : User)
    → find_user user_id db ≡ some u
    → pos u.points +ℤ amount ≡ pos p
    → IsBooked db (settled user_id amount type operator_id now p db)
      × (balance user_id (settled user_id amount type operator_id now p db) ≡ p)
      × ((j : ℕ)
          → (j == user_id) ≡ false
          → balance j (settled user_id amount type operator_id now p db) ≡ balance j db)
unfolding settled log_points
settled-IsBooked user_id amount type operator_id now p db u found sum =
    let paid = set_points user_id p now db in
    let row = tx_row user_id amount (TxType.adjusted type) p 0 operator_id now paid.next_tx_id in
    let quiet : IsQuiet paid paid = record {
      balances = λ j. refl;
      ledger = refl;
      orders = refl;
      packages = refl;
    } in
    (
      IsBooked-of_row user_id p now u row db paid
          (log_points user_id amount (TxType.adjusted type) p 0 operator_id now paid) found refl sum
          quiet (λ j. refl) refl,
      balance-set_points user_id p now user_id u db found ∙ rw (==_refl user_id) refl,
      λ j other. balance-set_points user_id p now j u db found ∙ rw other refl,
    )

-- An adjustment moves the balance of its user by the amount that it books, and no other balance; it
-- answers with the new balance.
pub adjust_points-IsBooked :
    (user_id : ℕ) (amount : ℤ) (type : String) (operator_id now : ℕ) (db db' : Db) (p : ℕ)
    → adjust_points user_id amount type operator_id now db ≡ ok (p, db')
    → IsBooked db db'
      × (balance user_id db' ≡ p)
      × (pos (balance user_id db) +ℤ amount ≡ pos p)
      × ((j : ℕ) → (j == user_id) ≡ false → balance j db' ≡ balance j db)
unfolding adjust_points
adjust_points-IsBooked user_id amount type operator_id now db db' p h =
    let (u, kept, e) = >>=-eq-ok _ _ h in
    let found = or_fail-eq-ok (find_user user_id db) user_not_found kept in
    let (sum, tables) = settle-eq-ok user_id amount type operator_id now db db' _ p e in
    let (booked, held, others) =
      settled-IsBooked user_id amount type operator_id now p db u found sum in
    let start : balance user_id db ≡ u.points = ap points_of found in
    (
      subst (IsBooked db) (sym tables) booked,
      ap (balance user_id) tables ∙ held,
      rw start sum,
      λ j other. ap (balance j) tables ∙ others j other,
    )
