-- ===== src/Result.antt =====
-- The sentinel errors of internal/store, and results that carry them.
use qing_zhou.Common.{Bool, true, false, ◌≡◌, refl, Option, none, some, ap}

pub data Error : Type 0 where
  user_not_found negative_balance insufficient_funds : Error
  package_disabled package_not_allowed out_of_stock package_no_traffic unknown_pkg_type : Error
  order_not_found already_refunded option_not_found invalid_assign_days : Error
  bucket_not_found bucket_protected zero_delta traffic_floor bucket_finished : Error
  line_not_found line_not_periodic invalid_argument auto_renew_not_plan : Error
  point_code_missing point_code_used point_code_expired point_code_disabled : Error
  point_code_locked point_balance_overflow sync_failed : Error
  invalid_traffic_poll traffic_id_reused traffic_pending binding_unavailable : Error
  target_unavailable counter_overflow no_rows invalid_traffic_range invalid_reset_intent
        invalid_metering_gap duplicate_row :
      Error

-- what a Go function with a last result of type `error` returns: the error, or the other results
pub data Result {ℓ} (T : Type ℓ) : Type ℓ where
  err : Error → Result T
  ok : T → Result T

-- `err == nil`
abbrev pub is_ok {ℓ} : {T : Type ℓ} → Result T → Bool
is_ok (err _) = false
is_ok (ok _) = true

-- the value, or the error that its absence stands for
abbrev pub or_fail {ℓ} : {T : Type ℓ} → Option T → Error → Result T
or_fail (some t) _ = ok t
or_fail none failure = err failure

-- `if c { return nil, e }`
abbrev pub fail_if : Bool → Error → Result (Unit {0})
fail_if false _ = ok tt
fail_if true failure = err failure

-- `if err != nil { return nil, err }`, and then the rest of the function
infixl 5 ◌>>=◌
abbrev pub ◌>>=◌ {ℓ κ} : {T : Type ℓ} {R : Type κ} → Result T → (T → Result R) → Result R
(err failure) >>= rest = err failure
(ok t) >>= rest = rest t

-- the same after a step without a result
infixl 5 ◌>>◌
abbrev pub ◌>>◌ {ℓ} : {R : Type ℓ} → Result (Unit {0}) → Result R → Result R
step >> rest = step >>= λ done. rest

-- A bind that succeeds has succeeded in both parts.
pub >>=-eq-ok {ℓ κ} :
    {T : Type ℓ} {R : Type κ} (step : Result T) (rest : T → Result R) {r : R}
    → (step >>= rest) ≡ ok r
    → (t : T) × (step ≡ ok t) × (rest t ≡ ok r)
>>=-eq-ok (err failure) rest h = cc
>>=-eq-ok (ok t) rest h = (t, refl, h)

abbrev pub ok_or {ℓ} : {A : Type ℓ} → A → Result A → A
ok_or d (ok a) = a
ok_or d (err e) = d

pub ok-injective {ℓ} : {A : Type ℓ} (a b : A) → ok a ≡ ok b → a ≡ b
ok-injective a b h = ap (ok_or a) h

-- A value that was there.
pub or_fail-eq-ok {ℓ} :
    {A : Type ℓ} (o : Option A) (e : Error) {a : A} → or_fail o e ≡ ok a → o ≡ some a
or_fail-eq-ok none e h = cc
or_fail-eq-ok (some b) e h = ap some (ok-injective _ _ h)

-- A guard that did not fire.
pub fail_if-eq-ok : (c : Bool) (e : Error) {t : Unit {0}} → fail_if c e ≡ ok t → c ≡ false
fail_if-eq-ok true e h = cc
fail_if-eq-ok false e h = refl

-- What a guard that did not fire leaves.
pub guarded-eq-ok {ℓ} :
    {B : Type ℓ} (c : Bool) (e : Error) (k : Result B) {b : B}
    → (fail_if c e >> k) ≡ ok b
    → (c ≡ false) × (k ≡ ok b)
guarded-eq-ok true e k h = cc
guarded-eq-ok false e k h = (refl, h)

-- A result that is one, as the value that it holds.
pub ok_of-is_ok {ℓ} : {A : Type ℓ} (d : A) (m : Result A) → is_ok m ≡ true → m ≡ ok (ok_or d m)
ok_of-is_ok d (ok a) h = refl
ok_of-is_ok d (err e) h = cc
