-- ===== src/Purchase/Stock.antt =====
-- internal/store/purchase.go: the stock of a package that is sold.
use mathlib.Core.Option.{some-injective}
use qing_zhou.Common.{
  ℕ, ◌≡◌, refl, String, Bool, true, false, not, ◌&&◌, none, some, List, [], ◌∷◌, ◌∙◌, ap, sym,
  subst, arith, inl, inr, ==_iff, first-Memᴰ, ◌==◌, ◌⊎◌, first, count_by, update_where, Bool-cases,
}
use qing_zhou.Common.Int.{ℤ, pos, ◌+ℤ◌, ◌-ℤ◌, int_laws}
use qing_zhou.Result.{ok, out_of_stock, guarded-eq-ok, ok-injective}
use qing_zhou.Package.{Package, with_option, for_duration}
use qing_zhou.Package.Options.{for_duration_published}
use qing_zhou.Store.{User, Order, Db}
use qing_zhou.Points.{set_points}
use qing_zhou.Purchase.{
  purchase_of, purchase_duration, find_package, find_order, take_stock, is_positive,
}
use qing_zhou.Purchase.Books.{book-IsLogged}
use qing_zhou.Purchase.Terms.{IsSale, purchase-cases, paid, booked}

-- The choice of a duration keeps the package's id and stock.
for_duration-keeps :
    (p : Package) (days : ℕ) (eff : Package)
    → for_duration p days ≡ ok eff
    → (eff.id ≡ p.id) × (eff.stock ≡ p.stock)
unfolding with_option
for_duration-keeps p days eff e = elim (for_duration_published p days e) [
  | inl (none_listed, same, asked) ↦
      (ap (λ (q : Package). q.id) same, ap (λ (q : Package). q.stock) same)
  | inr (o, listed, same, asked) ↦
      (ap (λ (q : Package). q.id) same, ap (λ (q : Package). q.stock) same)
]

abbrev one_less : Package → Package
one_less p = record p { stock = p.stock -ℤ pos 1 }

module _ (id : ℕ) where
  abbrev in_stock : Package → Bool
  in_stock p = p.id == id && is_positive p.stock

  other-kept :
      (j : ℕ) (ps : List Package)
      → (j == id) ≡ false
      → first (λ (p : Package). p.id == j) (update_where in_stock one_less ps)
        ≡ first (λ (p : Package). p.id == j) ps
  other-kept j [] ne = refl
  other-kept j (p ∷ ps) ne = ground (arith, other-kept j ps ne)

  -- the row that is found has a positive stock, so it is the one that is updated
  own-less :
      (ps : List Package) (p : Package)
      → first (λ (p : Package). p.id == id) ps ≡ some p
      → is_positive p.stock ≡ true
      → first (λ (p : Package). p.id == id) (update_where in_stock one_less ps) ≡ some (one_less p)
  own-less [] p e t = cc
  own-less (x ∷ ps) p e t = elim (Bool-cases (x.id == id)) [
    | inl own ↦
        (let same : x ≡ p = some-injective _ _ (rw own at e) in
          let mine : (p.id == id) ≡ true = ap (λ (q : Package). q.id == id) (sym same) ∙ own in
          subst
            (λ (q : Package).
              first (λ (p : Package). p.id == id) (update_where in_stock one_less (q ∷ ps))
              ≡ some (one_less p))
            (sym same) (rw (mine, t) (rw mine refl)))
    | inr other ↦ ground (arith, own-less ps p (rw other at e) t)
  ]

less_by_one : (z : ℤ) → (z -ℤ pos 1) +ℤ pos 1 ≡ z
less_by_one z = grind int_laws

take_stock-packages :
    (pkg : Package) (db db' : Db)
    → take_stock pkg db ≡ ok db'
    → ((is_positive pkg.stock ≡ false) × (db'.packages ≡ db.packages))
      ⊎ ((is_positive pkg.stock ≡ true)
          × (db'.packages ≡ update_where (in_stock pkg.id) one_less db.packages))
unfolding take_stock
take_stock-packages pkg db db' h = elim (Bool-cases (is_positive pkg.stock)) [
  | inl limited ↦
      (let (one, rest) =
          guarded-eq-ok (not (count_by (in_stock pkg.id) db.packages == 1)) out_of_stock _
            (rw limited at h) in
        inr (limited, ap (λ b. b.packages) (sym (ok-injective _ _ rest))))
  | inr unlimited ↦
      inl (unlimited, ap (λ b. b.packages) (sym (ok-injective _ _ (rw unlimited at h))))
]

-- What a sale does to the packages.
sale-packages :
    (user_id : ℕ) (u : User) (package_id days : ℕ) (key : String) (now : ℕ) (db : Db) (o : Order)
    (db' : Db)
    → (s : IsSale user_id u package_id days key now db o db')
    → ((is_positive s.fresh.stock ≡ false) × (db'.packages ≡ db.packages))
      ⊎ ((is_positive s.fresh.stock ≡ true)
          × (db'.packages ≡ update_where (in_stock package_id) one_less db.packages))
unfolding set_points
sale-packages user_id u package_id days key now db o db' s =
    let log =
      book-IsLogged user_id u.username (purchase_of u s.pkg key) now
        (paid user_id u s.pkg now db) in
    let (id, stock) = for_duration-keeps s.fresh days s.pkg s.chosen in
    let (m, found) = first-Memᴰ (λ (p : Package). p.id == package_id) db.packages s.listed in
    let same : s.pkg.id ≡ package_id = id ∙ (==_iff s.fresh.id package_id).0 found in
    elim (take_stock-packages s.pkg (booked user_id u s.pkg key now db) db' s.stocked) [
      | inl (unlimited, kept) ↦ inl (ap is_positive (sym stock) ∙ unlimited, kept ∙ log.packages)
      | inr (limited, less) ↦ inr (
        ap is_positive (sym stock) ∙ limited,
        less
            ∙ ap
                (λ i.
                  update_where (in_stock i) one_less (booked user_id u s.pkg key now db).packages)
                same
            ∙ ap (update_where (in_stock package_id) one_less) log.packages,
      )
    ]

-- A purchase for which no order exists yet leaves every other package as it is; the package that it
-- sells loses one piece of its stock, which was positive, or has no limit and is left as it is.
pub purchase_duration-stock :
    (user_id : ℕ) (given : Package) (days : ℕ) (key : String) (sync : User → Bool) (now : ℕ)
    (db : Db) (o : Order) (v : User) (db' : Db)
    → purchase_duration user_id given days key sync now db ≡ ok ((o, v), db')
    → find_order user_id key db ≡ none
    → (fresh : Package) × (find_package given.id db ≡ some fresh)
      × ((j : ℕ) → (j == given.id) ≡ false → find_package j db' ≡ find_package j db)
      × (((is_positive fresh.stock ≡ false)
            × (find_package given.id db' ≡ find_package given.id db))
          ⊎ ((is_positive fresh.stock ≡ true)
              × ((left : Package) × (find_package given.id db' ≡ some left)
                  × (left.stock +ℤ pos 1 ≡ fresh.stock))))
purchase_duration-stock user_id given days key sync now db o v db' h none_yet =
    let (u, found, outcome) = purchase-cases user_id given days key sync now db o v db' h in
    elim outcome [
      | inl (earlier, same) ↦ cc
      | inr (new, s) ↦
          (let (others, own) =
              split u s (sale-packages user_id u given.id days key now db o db' s) in
            (s.fresh, s.listed, others, own))
    ]
  where
    look :
        (j : ℕ) {ps : List Package}
        → db'.packages ≡ ps
        → find_package j db' ≡ first (λ (p : Package). p.id == j) ps
    look j e = ap (first (λ (p : Package). p.id == j)) e

    split :
        (u : User) (s : IsSale user_id u given.id days key now db o db')
        → ((is_positive s.fresh.stock ≡ false) × (db'.packages ≡ db.packages))
          ⊎ ((is_positive s.fresh.stock ≡ true)
              × (db'.packages ≡ update_where (in_stock given.id) one_less db.packages))
        → ((j : ℕ) → (j == given.id) ≡ false → find_package j db' ≡ find_package j db)
          × (((is_positive s.fresh.stock ≡ false)
                × (find_package given.id db' ≡ find_package given.id db))
              ⊎ ((is_positive s.fresh.stock ≡ true)
                  × ((left : Package) × (find_package given.id db' ≡ some left)
                      × (left.stock +ℤ pos 1 ≡ s.fresh.stock))))
    split u s (inl (unlimited, kept)) = (λ j ne. look j kept, inl (unlimited, look given.id kept))
    split u s (inr (limited, less)) = (
      λ j ne. look j less ∙ other-kept given.id j db.packages ne,
      inr (
        limited,
        (
          one_less s.fresh,
          look given.id less ∙ own-less given.id db.packages s.fresh s.listed limited,
          less_by_one s.fresh.stock,
        ),
      ),
    )
