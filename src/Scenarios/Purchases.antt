-- ===== src/Scenarios/Purchases.antt =====
-- Purchases, assignments, renewals and adjustments on the tables of `Scenarios`.
use qing_zhou.Common.{
  ℕ, ◌+◌, ◌≡◌, ◌⊎◌, refl, Bool, true, false, Option, none, some, [], ◌∷◌, ◌==◌, if◌then◌else◌,
}
use qing_zhou.Common.Int.{pos, negsuc, ◌+ℤ◌}
use qing_zhou.Result.{Result, ok, is_ok, ok_or, ok_of-is_ok}
use qing_zhou.Bucket.{Bucket, usable_head}
use qing_zhou.Package.{Package, for_duration, for_admin_duration}
use qing_zhou.Store.{User, Order, Db}
use qing_zhou.Points.{find_user, adjust_points}
use qing_zhou.Points.Ledger.{balance, IsBooked, adjust_points-IsBooked}
use qing_zhou.Purchase.{
  purchase_duration, find_order, find_package, is_positive, assign_package_duration,
}
use qing_zhou.Purchase.Charges.{purchase_duration-charges, purchase_duration-IsBooked}
use qing_zhou.Purchase.Replay.{purchase_duration-replay}
use qing_zhou.Purchase.Stock.{purchase_duration-stock}
use qing_zhou.Purchase.Assign.{assign_package_duration-free}
use qing_zhou.AutoRenew.{auto_renew_line, auto_renew_due_plans, set_plan_auto_renew}
use qing_zhou.AutoRenew.Renewal.{auto_renew_due_plans-IsBooked}
use qing_zhou.Scenarios.{alice, gold, head, shop, any_order}

abbrev bought : Result ((Order × User) × Db)
bought = purchase_duration 1 gold 0 "k1" (λ _. true) 5000 shop

abbrev sold : (Order × User) × Db
sold = ok_or ((any_order, alice), shop) bought

bought_ok : is_ok bought ≡ true
unfolding purchase_duration for_duration usable_head
bought_ok = refl

bought_is_sold : bought ≡ ok ((sold.0.0, sold.0.1), sold.1)
bought_is_sold = ok_of-is_ok ((any_order, alice), shop) bought bought_ok

no_order_yet : find_order 1 "k1" shop ≡ none
unfolding find_order
no_order_yet = refl

purchase_duration-charges_example :
    balance 1 sold.1 + (if 1 == 1 then sold.0.0.price_points else 0) ≡ 500
purchase_duration-charges_example =
    (purchase_duration-charges 1 gold 0 "k1" (λ _. true) 5000 shop sold.0.0 sold.0.1 sold.1
        bought_is_sold no_order_yet).8
      1

purchase_duration-IsBooked_example : IsBooked shop sold.1
purchase_duration-IsBooked_example =
    purchase_duration-IsBooked 1 gold 0 "k1" (λ _. true) 5000 shop sold.0.0 sold.0.1 sold.1
      bought_is_sold

-- the buyer as the purchase leaves the row
abbrev buyer : User
buyer = ok_or_user (find_user 1 sold.1)
  where
    ok_or_user : Option User → User
    ok_or_user none = alice
    ok_or_user (some u) = u

buyer_found : find_user 1 sold.1 ≡ some buyer
unfolding purchase_duration for_duration usable_head
buyer_found = refl

purchase_duration-replay_example :
    purchase_duration 1 gold 90 "k1" (λ _. false) 6000 sold.1 ≡ ok ((sold.0.0, buyer), sold.1)
purchase_duration-replay_example =
    purchase_duration-replay 1 gold 0 "k1" (λ _. true) 5000 shop sold.0.0 sold.0.1 sold.1
      bought_is_sold (λ e. cc e) gold 90 (λ _. false) 6000 buyer refl refl buyer_found

purchase_duration-stock_example :
    (fresh : Package) × (find_package 7 shop ≡ some fresh)
    × ((j : ℕ) → (j == 7) ≡ false → find_package j sold.1 ≡ find_package j shop)
    × (((is_positive fresh.stock ≡ false) × (find_package 7 sold.1 ≡ find_package 7 shop))
        ⊎ ((is_positive fresh.stock ≡ true)
            × ((left : Package) × (find_package 7 sold.1 ≡ some left)
                × (left.stock +ℤ pos 1 ≡ fresh.stock))))
purchase_duration-stock_example =
    purchase_duration-stock 1 gold 0 "k1" (λ _. true) 5000 shop sold.0.0 sold.0.1 sold.1
      bought_is_sold no_order_yet

abbrev given : Result ((Order × User) × Db)
given = assign_package_duration 2 gold (pos 30) 1 (λ _. true) 5000 shop

abbrev granted : (Order × User) × Db
granted = ok_or ((any_order, alice), shop) given

given_ok : is_ok given ≡ true
unfolding assign_package_duration for_admin_duration for_duration
given_ok = refl

assign_package_duration-free_example : balance 2 granted.1 ≡ balance 2 shop
assign_package_duration-free_example =
    (assign_package_duration-free 2 gold (pos 30) 1 (λ _. true) 5000 shop granted.0.0 granted.0.1
        granted.1 (ok_of-is_ok ((any_order, alice), shop) given given_ok)).4
      2

abbrev topped : Result (ℕ × Db)
topped = adjust_points 2 (negsuc 9) "penalty" 1 5000 shop

topped_ok : is_ok topped ≡ true
unfolding adjust_points
topped_ok = refl

adjust_points-IsBooked_example :
    IsBooked shop (ok_or (0, shop) topped).1
    × (balance 2 (ok_or (0, shop) topped).1 ≡ (ok_or (0, shop) topped).0)
    × (pos (balance 2 shop) +ℤ negsuc 9 ≡ pos (ok_or (0, shop) topped).0)
    × ((j : ℕ) → (j == 2) ≡ false → balance j (ok_or (0, shop) topped).1 ≡ balance j shop)
adjust_points-IsBooked_example =
    adjust_points-IsBooked 2 (negsuc 9) "penalty" 1 5000 shop (ok_or (0, shop) topped).1
      (ok_or (0, shop) topped).0 (ok_of-is_ok (0, shop) topped topped_ok)

-- alice's head has ended, renews, and nothing waits behind it
abbrev ended : Db
ended = record shop { user_plans = record head { auto_renew = true } ∷ [] }

abbrev renewal : Result (Bool × Db)
renewal = auto_renew_line 1 "gold" 1000000 ended

abbrev renewed : Bool × Db
renewed = ok_or (false, ended) renewal

-- the renewal took place
renewal_took_place : renewed.0 ≡ true
unfolding auto_renew_line for_duration usable_head
renewal_took_place = refl

auto_renew_due_plans-IsBooked_example :
    IsBooked ended (auto_renew_due_plans ((1, "gold") ∷ (2, "pkg:8") ∷ []) 1000000 [] none ended).0
auto_renew_due_plans-IsBooked_example =
    auto_renew_due_plans-IsBooked ((1, "gold") ∷ (2, "pkg:8") ∷ []) 1000000 [] none ended

abbrev switched_off : Result Db
switched_off = set_plan_auto_renew 1 1 false 5000 shop
