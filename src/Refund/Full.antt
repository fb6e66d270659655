-- ===== src/Refund/Full.antt =====
-- internal/store/purchase.go: a purchase, and its refund in full.
use mathlib.Core.Option.{some-injective}
use qing_zhou.Common.{
  ℕ, ◌+◌, ◌≤◌, ◌≡◌, refl, String, Bool, true, false, Option, none, some, List, [], ◌∷◌, ◌++◌, ◌∙◌,
  ap, sym, arith, inl, inr, ◌==◌, ==_refl, first, any, count_by, first-snoc, first_of_any,
}
use qing_zhou.Common.Int.{pos}
use qing_zhou.Result.{ok}
use qing_zhou.Package.{Package}
use qing_zhou.Store.{User, Order, Db}
use qing_zhou.Points.{find_user, set_points}
use qing_zhou.Points.Ledger.{balance}
use qing_zhou.Purchase.{purchase_duration, new_order, purchase_of}
use qing_zhou.Purchase
use qing_zhou.Purchase.Terms.{IsSale, purchase-cases}
use qing_zhou.Purchase.Replay.{sale-orders}
use qing_zhou.Purchase.Charges.{purchase_duration-charges}
use qing_zhou.Refund.{undo, mark_refunded, is_open_order, refund_order, refunded_user}
use qing_zhou.Refund.Policy.{
  Float, RefundMode, RefundPolicy, apply_fee, round_refund, clamp_points, nought, one,
}
use qing_zhou.Refund.Quote.{
  RefundQuote, order_quote, compute_refund_quote, whole_quote, is_refunded,
}
use qing_zhou.Refund.Paying.{order_row, undo-IsUndone, refund_order-pays}

-- What IEEE 754 says of the values that a full refund computes with: 0 / 100, 1 - 0 and x * 1 are
-- exact, 1 is neither below 0 nor below itself, and whole numbers up to 2^53 are kept as they are.
pub record IsExact {ℓ} (F : Type ℓ) ⦃d : Float F⦄ : Type ℓ where
  pub nought_over : d.over nought (d.of_int (pos 100)) ≡ nought
  pub minus_nought : d.minus one nought ≡ one
  pub times_one : (x : F) → d.times x one ≡ x
  pub one_nought : d.lt one nought ≡ false
  pub one_one : d.lt one one ≡ false
  pub round_of_int : (n : ℕ) → n ≤ 9007199254740992 → d.round (d.of_int (pos n)) ≡ pos n

count-snoc :
    (p : Order → Bool) (os : List Order) (o : Order)
    → any p os ≡ false
    → p o ≡ true
    → count_by p (os ++ o ∷ []) ≡ 1
count-snoc p [] o e t = rw t refl
count-snoc p (x ∷ os) o e t = ground (arith, count-snoc p os o)

none_open :
    (order_id : ℕ) (os : List Order)
    → any (λ (o : Order). o.id == order_id) os ≡ false
    → any (is_open_order order_id) os ≡ false
none_open order_id [] e = refl
none_open order_id (o ∷ os) e = ground (arith, none_open order_id os)

-- the order of a sale is new, open and the buyer's
sold_order :
    (user_id : ℕ) (u : User) (package_id days : ℕ) (key : String) (now : ℕ) (db : Db) (o : Order)
    (db' : Db)
    → IsSale user_id u package_id days key now db o db'
    → (o.id ≡ db.next_order_id) × (o.user_id ≡ user_id) × (is_refunded o.status ≡ false)
unfolding new_order purchase_of set_points
sold_order user_id u package_id days key now db o db' s = (
  ap (λ (p : Order). p.id) s.ordered,
  ap (λ (p : Order). p.user_id) s.ordered,
  ap (λ (p : Order). is_refunded p.status) s.ordered,
)

module _ {ℓ} {F : Type ℓ} ⦃d : Float F⦄ where
  whole_price :
      (laws : IsExact F) (price : ℕ) (fee : F)
      → price ≤ 9007199254740992
      → fee ≡ nought
      → round_refund price (apply_fee one fee) ≡ price
  unfolding round_refund apply_fee clamp_points
  whole_price laws price fee small free =
      rw
        (
          free,
          laws.nought_over,
          laws.minus_nought,
          laws.times_one one,
          laws.one_nought,
          laws.one_one,
          laws.times_one (d.of_int (pos price)),
          laws.round_of_int price small,
        )
        (ground arith)

  -- A refund whose order and user are there, once, and that the nodes take, goes through.
  refund_order_goes_through :
      (order_id operator_id : ℕ) (mode : Option RefundMode) (pol : RefundPolicy F)
      (sync : User → Bool) (now : ℕ) (db : Db) (o : Order) (u : User)
      → order_row order_id db ≡ some o
      → is_refunded o.status ≡ false
      → find_user o.user_id db ≡ some u
      → count_by (is_open_order order_id) db.orders ≡ 1
      → ((w : User) → sync w ≡ true)
      → (v : User) × (db' : Db) × (refund_order order_id operator_id mode pol sync now db
          ≡ ok ((v, order_quote o mode pol now db), db'))
  unfolding refund_order
  refund_order_goes_through order_id operator_id mode pol sync now db o u found still owner single
        taken =
      let q = order_quote o mode pol now db in
      let undone = undo o operator_id u q now db in
      let w = refunded_user u o (u.points + q.refund_points) (find_user o.user_id undone) in
      let orders = (undo-IsUndone o operator_id u q now db owner).orders in
      let counted : count_by (is_open_order order_id) undone.orders ≡ 1 =
        ap (count_by (is_open_order order_id)) orders ∙ single in
      (
        w,
        mark_refunded order_id q.refund_points q.refund_traffic now undone,
        rw (found, still, owner) (rw (counted, taken w) refl),
      )

  full_quote :
      (laws : IsExact F) (o : Order) (pol : RefundPolicy F) (now : ℕ) (db : Db)
      → o.price_points ≤ 9007199254740992
      → pol.fee_percent ≡ nought
      → (order_quote o (some RefundMode.full) pol now db).refund_points ≡ o.price_points
  unfolding compute_refund_quote whole_quote
  full_quote laws o pol now db small free =
      whole_price laws o.price_points pol.fee_percent small free

  -- Where the ids of the orders before it are other than the next one: a purchase for which no order
  -- exists yet can be refunded in full, under any policy without a fee, as long as the buyer is there,
  -- the nodes take it and the price is at most 2^53; every balance is then what it was before the
  -- purchase.
  pub purchase-refund_order :
      (laws : IsExact F) (user_id : ℕ) (given : Package) (days : ℕ) (key : String)
      (sync : User → Bool) (now : ℕ) (db : Db) (o : Order) (v : User) (db' : Db)
      → purchase_duration user_id given days key sync now db ≡ ok ((o, v), db')
      → Purchase.find_order user_id key db ≡ none
      → any (λ (p : Order). p.id == db.next_order_id) db.orders ≡ false
      → o.price_points ≤ 9007199254740992
      → (operator_id : ℕ) (pol : RefundPolicy F) (sync' : User → Bool) (now' : ℕ) (w : User)
      → pol.fee_percent ≡ nought
      → find_user user_id db' ≡ some w
      → ((x : User) → sync' x ≡ true)
      → (v' : User) × (q : RefundQuote F) × (db'' : Db) × (refund_order o.id operator_id
            (some RefundMode.full)
            pol
            sync'
            now'
            db'
          ≡ ok ((v', q), db''))
        × (q.refund_points ≡ o.price_points)
        × ((j : ℕ) → balance j db'' ≡ balance j db)
  purchase-refund_order laws user_id given days key sync now db o v db' h none_yet fresh small
        operator_id pol sync' now' w free there taken =
      let (u, buyer, outcome) = purchase-cases user_id given days key sync now db o v db' h in
      elim outcome [ inl (earlier, same) ↦ cc | inr (new, sale) ↦ refunded u buyer sale ]
    where
      refunded :
          (u : User)
          → find_user user_id db ≡ some u
          → IsSale user_id u given.id days key now db o db'
          → (v' : User) × (q : RefundQuote F) × (db'' : Db) × (refund_order o.id operator_id
                (some RefundMode.full)
                pol
                sync'
                now'
                db'
              ≡ ok ((v', q), db''))
            × (q.refund_points ≡ o.price_points)
            × ((j : ℕ) → balance j db'' ≡ balance j db)
      refunded u buyer s =
          let orders = sale-orders user_id u given.id days key now db o db' s in
          let (id, owner, still) = sold_order user_id u given.id days key now db o db' s in
          let fresh' : any (λ (p : Order). p.id == o.id) db.orders ≡ false =
            ap (λ i. any (λ (p : Order). p.id == i) db.orders) id ∙ fresh in
          let found : order_row o.id db' ≡ some o =
            ap (λ os. first (λ (p : Order). p.id == o.id) os) orders
            ∙ first-snoc (λ (p : Order). p.id == o.id) db.orders o (first_of_any _ db.orders fresh')
                (==_refl o.id) in
          let single : count_by (is_open_order o.id) db'.orders ≡ 1 =
            ap (count_by (is_open_order o.id)) orders
            ∙ count-snoc (is_open_order o.id) db.orders o (none_open o.id db.orders fresh')
                (rw (==_refl o.id, still) refl) in
          let (v', db'', done) =
            refund_order_goes_through o.id operator_id (some RefundMode.full) pol sync' now' db' o w
              found still (ap (λ i. find_user i db') owner ∙ there) single taken in
          let q = order_quote o (some RefundMode.full) pol now' db' in
          let price : q.refund_points ≡ o.price_points =
            full_quote laws o pol now' db' small free in
          (
            v',
            q,
            db'',
            done,
            price,
            λ j.
                let pays =
                  refund_order-pays o.id operator_id (some RefundMode.full) pol sync' now' db' v' q
                    db'' done in
                let paid =
                  (purchase_duration-charges user_id given days key sync now db o v db' h
                      none_yet).8
                    j in
                let same : pays.0.user_id ≡ user_id =
                  ap (λ (p : Order). p.user_id) (some-injective _ _ (sym pays.1 ∙ found)) ∙ owner in
                pays.5 j ∙ rw (same, price) paid,
          )
