-- ===== src/Purchase/Replay.antt =====
-- internal/store/purchase.go: a purchase that is sent again with its key.
use qing_zhou.Common.{
  ℕ, ◌≡◌, ◌≢◌, refl, String, Bool, true, false, ◌&&◌, none, some, [], ◌∷◌, ◌++◌, ◌∙◌, ap, sym, inl,
  inr, ==_refl, ◌==◌, first-snoc, Bool-cases, str_eq,
}
use text.Mathlib.TextEquality.{eq_iff}
use qing_zhou.Result.{ok}
use qing_zhou.Bucket.{is_zero}
use qing_zhou.Package.{Package}
use qing_zhou.Store.{User, Order, Db}
use qing_zhou.Points.{find_user, set_points}
use qing_zhou.Purchase.{new_order, purchase_of, purchase_duration, find_order, replay_or}
use qing_zhou.Purchase.Books.{book-IsLogged}
use qing_zhou.Purchase.Terms.{IsSale, purchase-cases, take_stock-IsStockOnly, paid, booked}

key_is_sent : (key : String) → key ≢ "" → str_eq key "" ≡ false
key_is_sent key named = elim (Bool-cases (str_eq key "")) [
  | inl empty ↦ elim (named ((eq_iff key "").0 empty)) [ ]
  | inr sent ↦ sent
]

module _ (user_id : ℕ) (u : User) (package_id days : ℕ) (key : String) (now : ℕ) (db : Db)
    (o : Order) (db' : Db) where
  pub sale-orders :
      IsSale user_id u package_id days key now db o db' → db'.orders ≡ db.orders ++ o ∷ []
  unfolding set_points
  sale-orders s =
      let start = paid user_id u s.pkg now db in
      let log = book-IsLogged user_id u.username (purchase_of u s.pkg key) now start in
      let stock = take_stock-IsStockOnly s.pkg (booked user_id u s.pkg key now db) db' s.stocked in
      stock.orders ∙ log.orders ∙ ap (λ p. db.orders ++ p ∷ []) (sym s.ordered)

  sale-find_order :
      IsSale user_id u package_id days key now db o db'
      → str_eq key "" ≡ false
      → find_order user_id key db ≡ none
      → find_order user_id key db' ≡ some o
  unfolding find_order new_order purchase_of
  sale-find_order s named none_yet =
      let owner : o.user_id ≡ user_id = ap (λ (p : Order). p.user_id) s.ordered in
      let sent : o.idempotency_key ≡ key = ap (λ (p : Order). p.idempotency_key) s.ordered in
      let mine = λ (p : Order). p.user_id == user_id && str_eq p.idempotency_key key in
      let passes : mine o ≡ true = rw (owner, sent, ==_refl user_id) ((eq_iff key key).1 refl) in
      rw (named, sale-orders s) (first-snoc mine db.orders o (rw named at none_yet) passes)

-- Once a purchase with a key that is not empty has gone through, a purchase of the same user with this
-- key answers with its order and changes nothing, whatever the package, the duration, the time and
-- the answer of the nodes, where the user is still there and the package as the caller read it is
-- enabled and not sold out.
pub purchase_duration-replay :
    (user_id : ℕ) (given : Package) (days : ℕ) (key : String) (sync : User → Bool) (now : ℕ)
    (db : Db) (o : Order) (v : User) (db' : Db)
    → purchase_duration user_id given days key sync now db ≡ ok ((o, v), db')
    → key ≢ ""
    → (given' : Package) (days' : ℕ) (sync' : User → Bool) (now' : ℕ) (w : User)
    → given'.enabled ≡ true
    → is_zero given'.stock ≡ false
    → find_user user_id db' ≡ some w
    → purchase_duration user_id given' days' key sync' now' db' ≡ ok ((o, w), db')
unfolding purchase_duration replay_or
purchase_duration-replay user_id given days key sync now db o v db' h named given' days' sync' now'
      w on left kept =
    rw (on, left, kept, known) refl
  where
    known : find_order user_id key db' ≡ some o
    known =
        let (u, found, outcome) = purchase-cases user_id given days key sync now db o v db' h in
        elim outcome [
          | inl (earlier, same) ↦ ap (find_order user_id key) same ∙ earlier
          | inr (new, sale) ↦
              sale-find_order user_id u given.id days key now db o db' sale (key_is_sent key named)
                new
        ]
