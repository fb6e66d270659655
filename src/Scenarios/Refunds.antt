-- ===== src/Scenarios/Refunds.antt =====
-- Refunds on the tables of `Scenarios`. The floating-point numbers are whole ten-thousandths here,
-- with `none` for what is below 0.
use qing_zhou.Common.{
  ℕ, ◌+◌, ◌*◌, ◌-◌, ◌/◌, ◌≤◌, ◌≡◌, refl, Bool, true, false, Option, none, some, [], ◌∷◌, ltb, leb,
  ◌==◌, ◌&&◌, arith, update_where, smaller,
}
use qing_zhou.Common.Int.{ℤ, pos, negsuc}
use qing_zhou.Result.{Result, ok, err, is_ok, ok_or, ok_of-is_ok, already_refunded}
use qing_zhou.Bucket.{Bucket, usable_head}
use qing_zhou.Package.{for_duration}
use qing_zhou.Store.{User, Order, Db}
use qing_zhou.Points.{find_user}
use qing_zhou.Points.Ledger.{balance, IsBooked}
use qing_zhou.Purchase
use qing_zhou.Purchase.{purchase_duration}
use qing_zhou.Refund.{refund_order}
use qing_zhou.Refund.Policy.{Float, RefundMode, RefundBasis, RefundPolicy}
use qing_zhou.Refund.Quote.{RefundQuote, compute_refund_quote}
use qing_zhou.Refund.Paying.{refund_order-pays}
use qing_zhou.Refund.Once.{refund_order-once}
use qing_zhou.Refund.Full.{IsExact, purchase-refund_order}
use qing_zhou.Scenarios.{alice, gold, shop, any_order}

abbrev Scaled : Type 0
Scaled = Option ℕ

abbrev lifted : (ℕ → ℕ → ℕ) → Scaled → Scaled → Scaled
lifted f (some a) (some b) = some (f a b)
lifted f (some a) none = none
lifted f none _ = none

abbrev below : Scaled → Scaled → Bool
below (some a) (some b) = ltb a b
below (some a) none = false
below none (some b) = true
below none none = false

abbrev not_below : Scaled → Scaled → Bool
not_below (some a) (some b) = leb b a
not_below none (some b) = false
not_below x none = true

abbrev scaled_of : ℤ → Scaled
scaled_of (pos n) = some (n * 10000)
scaled_of (negsuc n) = none

abbrev rounded : Scaled → ℤ
rounded none = negsuc 0
rounded (some a) = pos ((a + 5000) / 10000)

instance abbrev scaled_float : Float Scaled
scaled_float = record {
  of_int = scaled_of;
  times = lifted (λ a b. a * b / 10000);
  over = lifted (λ a b. a * 10000 / b);
  minus = lifted (λ a b. a - b);
  lt = below;
  ge = not_below;
  min = lifted smaller;
  round = rounded;
  parse = λ _. some 0;
}

times_one : (x : Scaled) → lifted (λ a b. a * b / 10000) x (some 10000) ≡ x
times_one none = refl
times_one (some a) = ground arith

Scaled-IsExact : IsExact Scaled
Scaled-IsExact = record {
  nought_over = refl;
  minus_nought = refl;
  times_one = times_one;
  one_nought = refl;
  one_one = refl;
  round_of_int = λ n h. ground arith;
}

abbrev no_fee : RefundPolicy Scaled
no_fee = record { mode = RefundMode.prorated; basis = RefundBasis.by_min; fee_percent = some 0 }

abbrev any_quote : RefundQuote Scaled
any_quote = record {
  order_id = 0;
  price_points = 0;
  mode = RefundMode.full;
  basis = RefundBasis.by_min;
  type = gold.type;
  name = "";
  total_traffic = 0;
  used_traffic = 0;
  refund_traffic = 0;
  traffic_ratio = none;
  time_ratio = none;
  ratio = none;
  fee_percent = none;
  refund_points = 0;
  already_done = false;
}

-- bob has enough for the plan "gold", and no row of it yet
abbrev rich : Db
rich = record shop { users = alice ∷ record alice { id = 2; username = "bob" } ∷ [] }

abbrev bought : Result ((Order × User) × Db)
bought = purchase_duration 2 gold 0 "k9" (λ _. true) 5000 rich

abbrev sold : (Order × User) × Db
sold = ok_or ((any_order, alice), rich) bought

bought_ok : is_ok bought ≡ true
unfolding purchase_duration for_duration usable_head
bought_ok = refl

bought_is_sold : bought ≡ ok ((sold.0.0, sold.0.1), sold.1)
bought_is_sold = ok_of-is_ok ((any_order, alice), rich) bought bought_ok

-- 15 of the 30 days later bob has used a third of the quota
abbrev half_way : Db
half_way = record (sold.1) {
  user_plans =
      update_where (λ (b : Bucket). b.user_id == 2 && b.package_id == 7)
        (λ (b : Bucket). record b { used_down = 1000 }) (sold.1).user_plans;
}

abbrev shared : Result ((User × RefundQuote Scaled) × Db)
shared = refund_order 4 1 none no_fee (λ _. true) 1301000 half_way

abbrev refunded : (User × RefundQuote Scaled) × Db
refunded = ok_or ((alice, any_quote), half_way) shared

shared_ok : is_ok shared ≡ true
unfolding purchase_duration for_duration usable_head refund_order compute_refund_quote
shared_ok = refl

shared_is_refunded : shared ≡ ok ((refunded.0.0, refunded.0.1), refunded.1)
shared_is_refunded = ok_of-is_ok ((alice, any_quote), half_way) shared shared_ok

-- two thirds of the quota and half of the time are left: half of 120 points comes back
half_comes_back : refunded.0.1.refund_points ≡ 60
unfolding purchase_duration for_duration usable_head refund_order compute_refund_quote
half_comes_back = refl

quota_left : refunded.0.1.refund_traffic ≡ 2000
unfolding purchase_duration for_duration usable_head refund_order compute_refund_quote
quota_left = refl

refund_order-pays_example : IsBooked half_way refunded.1
refund_order-pays_example =
    (refund_order-pays 4 1 none no_fee (λ _. true) 1301000 half_way refunded.0.0 refunded.0.1
      refunded.1 shared_is_refunded).6

refund_order-once_example :
    refund_order 4 1 (some RefundMode.full) no_fee (λ _. true) 1400000 refunded.1
    ≡ err already_refunded
refund_order-once_example =
    refund_order-once 4 1 none no_fee (λ _. true) 1301000 half_way refunded.0.0 refunded.0.1
      refunded.1 shared_is_refunded 1 (some RefundMode.full) no_fee (λ _. true) 1400000

no_order_yet : Purchase.find_order 2 "k9" rich ≡ none
unfolding Purchase.find_order
no_order_yet = refl

abbrev buyer : User
buyer = or_alice (find_user 2 sold.1)
  where
    or_alice : Option User → User
    or_alice none = alice
    or_alice (some u) = u

buyer_found : find_user 2 sold.1 ≡ some buyer
unfolding purchase_duration for_duration usable_head
buyer_found = refl

sold_small : sold.0.0.price_points ≤ 9007199254740992
unfolding purchase_duration for_duration usable_head
sold_small = omega arith

purchase-refund_order_example :
    (v : User) × (q : RefundQuote Scaled) × (db : Db) × (refund_order sold.0.0.id 1
        (some RefundMode.full)
        no_fee
        (λ _. true)
        6000
        sold.1
      ≡ ok ((v, q), db))
    × (q.refund_points ≡ sold.0.0.price_points)
    × ((j : ℕ) → balance j db ≡ balance j rich)
purchase-refund_order_example =
    purchase-refund_order Scaled-IsExact 2 gold 0 "k9" (λ _. true) 5000 rich sold.0.0 sold.0.1
      sold.1 bought_is_sold no_order_yet refl sold_small 1 no_fee (λ _. true) 6000 buyer refl
      buyer_found (λ x. refl)
