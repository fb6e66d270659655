-- ===== src/PointCodes.antt =====
-- internal/store/point_codes.go: `RedeemPointCode`, its lockout, and `DisablePointCodes`. A code is the
-- list of its bytes, which are ASCII. The hex text of the SHA-256 of a normalised code is a parameter.
-- The tables `point_codes` and `point_code_attempts` stand beside the others.
pub mod Redeeming
pub mod Lockout
use qing_zhou.Common.{
  ℕ, ◌+◌, ◌-◌, ◌*◌, String, Bool, true, false, not, ◌&&◌, ◌||◌, Option, none, some, List, [], ◌∷◌,
  ◌++◌, ltb, leb, ◌==◌, str_eq, any, select, first, last, update_where, delete_where, if◌then◌else◌,
  length, count_by, map,
}
use qing_zhou.Common.Int.{ℤ, pos, negsuc}
use qing_zhou.Result.{
  Result, ok, err, Error, user_not_found, point_code_missing, point_code_used, point_code_expired,
  point_code_disabled, point_code_locked, point_balance_overflow, invalid_argument, fail_if,
  or_fail, ◌>>=◌, ◌>>◌,
}
use qing_zhou.Store.{User, TxType, Db}
use qing_zhou.Points.{find_user, set_points, log_points}

-- `PointCode`: the columns that the modelled code touches
pub record PointCode : Type 0 where
  pub id : ℕ
  pub code_hash : String
  pub points : ℕ
  pub expires_at : ℕ
  pub disabled_at : ℕ
  pub redeemed_by : ℕ
  pub redeemed_username : String
  pub redeemed_at : ℕ

-- a row of `point_code_attempts`
pub record Attempts : Type 0 where
  pub user_id : ℕ
  pub failures : ℕ
  pub locked_until : ℕ

pub record Codes : Type 0 where
  pub db : Db
  pub point_codes : List PointCode
  pub attempts : List Attempts

abbrev pub max_failures : ℕ
max_failures = 5

abbrev pub lock_seconds : ℕ
lock_seconds = 15 * 60

-- math.MaxInt64
unfoldable pub max_int64 : ℕ
max_int64 = 9223372036854775807

abbrev pub attempt_state : Option Attempts → ℕ × ℕ
attempt_state none = (0, 0)
attempt_state (some a) = (a.failures, a.locked_until)

-- the failures and the end of the lock, both 0 for a user without a row
abbrev pub attempts_of : ℕ → List Attempts → ℕ × ℕ
attempts_of user_id rows = attempt_state (first (λ (a : Attempts). a.user_id == user_id) rows)

-- INSERT … ON CONFLICT(user_id) DO UPDATE
unfoldable pub put_attempts : ℕ → ℕ → ℕ → List Attempts → List Attempts
put_attempts user_id failures locked_until rows =
    let row : Attempts = record {
      user_id = user_id;
      failures = failures;
      locked_until = locked_until;
    } in
    if any (λ (a : Attempts). a.user_id == user_id) rows
    then update_where (λ (a : Attempts). a.user_id == user_id)
        (λ (a : Attempts). record a { failures = failures; locked_until = locked_until }) rows
    else rows ++ row ∷ []

-- the closure `fail`: the failure is kept, and the fifth one locks
unfoldable pub fail_code : ℕ → ℕ → ℕ → Error → Codes → Result (ℕ × ℕ) × Codes
unfolding put_attempts
fail_code user_id failures now reason c =
    let locked_until = if leb max_failures (failures + 1) then now + lock_seconds else 0 in
    let kept = record c {
      attempts = put_attempts user_id (failures + 1) locked_until c.attempts;
    } in
    (err (if ltb now locked_until then point_code_locked else reason), kept)

-- the writes of a redemption
unfoldable pub consume : ℕ → User → PointCode → ℕ → Codes → Codes
unfolding set_points log_points
consume user_id u code now c =
    let balance = u.points + code.points in
    record {
      db =
          log_points user_id (pos code.points) TxType.redeem balance code.id 0 now
            (set_points user_id balance now c.db);
      point_codes =
          update_where (λ (p : PointCode). p.id == code.id)
            (λ (p : PointCode). record p {
              redeemed_by = user_id;
              redeemed_username = u.username;
              redeemed_at = now;
            })
            c.point_codes;
      attempts = delete_where (λ (a : Attempts). a.user_id == user_id) c.attempts;
    }

-- what is wrong with a code that was found, if something is
unfoldable pub code_fault : PointCode → ℕ → Option Error
code_fault code now =
    if ltb 0 code.redeemed_at
    then some point_code_used
    else if ltb 0 code.disabled_at
    then some point_code_disabled
    else if leb code.expires_at now
    then some point_code_expired
    else none

redeem_sound : ℕ → User → PointCode → ℕ → Codes → Bool → Result (ℕ × ℕ) × Codes
unfolding consume
redeem_sound user_id u code now c true = (err point_balance_overflow, c)
redeem_sound user_id u code now c false =
    (ok (u.points + code.points, code.points), consume user_id u code now c)

-- `points <= 0 || balance > math.MaxInt64-points`
abbrev pub overflows : ℕ → PointCode → Bool
overflows balance code = code.points == 0 || ltb (max_int64 - code.points) balance

redeem_checked : ℕ → User → PointCode → ℕ → ℕ → Codes → Option Error → Result (ℕ × ℕ) × Codes
unfolding fail_code redeem_sound
redeem_checked user_id u code failures now c (some reason) = fail_code user_id failures now reason c
redeem_checked user_id u code failures now c none =
    redeem_sound user_id u code now c (overflows u.points code)

redeem_found : ℕ → User → ℕ → ℕ → Codes → Option PointCode → Result (ℕ × ℕ) × Codes
unfolding fail_code code_fault redeem_checked
redeem_found user_id u failures now c none = fail_code user_id failures now point_code_missing c
redeem_found user_id u failures now c (some code) =
    redeem_checked user_id u code failures now c (code_fault code now)

-- what `strings.TrimSpace` takes off the ends
abbrev is_space : ℕ → Bool
is_space b = b == 32 || leb 9 b && leb b 13

abbrev trim_left : List ℕ → List ℕ
trim_left [] = []
trim_left (b ∷ bs) = if is_space b then trim_left bs else b ∷ bs

abbrev trim_right : List ℕ → List ℕ
trim_right [] = []
trim_right (b ∷ bs) =
    let rest = trim_right bs in if is_space b && length rest == 0 then [] else b ∷ rest

-- the characters that the replacer drops: `-`, space, tab, line feed, carriage return
abbrev is_dropped : ℕ → Bool
is_dropped b = b == 45 || (b == 32 || (b == 9 || (b == 10 || b == 13)))

abbrev upper : ℕ → ℕ
upper b = if leb 97 b && leb b 122 then b - 32 else b

-- `normalizePointCode`
unfoldable pub normalize_point_code : List ℕ → List ℕ
normalize_point_code raw = select (λ b. not (is_dropped b)) (map upper (trim_left (trim_right raw)))

-- `pointCodeHash`
unfoldable pub point_code_hash : (List ℕ → String) → List ℕ → String
unfolding normalize_point_code
point_code_hash sha256_hex raw = sha256_hex (normalize_point_code raw)

-- the code of an active user, whose failures and lock are given
redeem_active : (List ℕ → String) → ℕ → List ℕ → ℕ → Codes → User → ℕ → ℕ → Result (ℕ × ℕ) × Codes
unfolding redeem_found fail_code point_code_hash
redeem_active sha256_hex user_id raw now c u failures locked_until =
    let counted = if ltb 0 locked_until then 0 else failures in
    if ltb now locked_until
    then (err point_code_locked, c)
    else if ltb 128 (length raw)
    then fail_code user_id counted now point_code_missing c
    else redeem_found user_id u counted now c (
        first (λ (p : PointCode). str_eq p.code_hash (point_code_hash sha256_hex raw))
          c.point_codes)

redeem_user : (List ℕ → String) → ℕ → List ℕ → ℕ → Codes → Option User → Result (ℕ × ℕ) × Codes
unfolding redeem_active
redeem_user sha256_hex user_id raw now c none = (err user_not_found, c)
redeem_user sha256_hex user_id raw now c (some u) =
    if not (str_eq u.status "active")
    then (err user_not_found, c)
    else (let (failures, locked_until) = attempts_of user_id c.attempts in
        redeem_active sha256_hex user_id raw now c u failures locked_until)

-- `RedeemPointCode`: the answer (the new balance and the points of the code) and the tables, which an
-- error of the closure `fail` changes too. A user whose row is missing is answered with the error of
-- the query, which is no sentinel; `user_not_found` stands for it here.
unfoldable pub redeem_point_code :
    (List ℕ → String) → ℕ → List ℕ → ℕ → Codes → Result (ℕ × ℕ) × Codes
unfolding redeem_user
redeem_point_code sha256_hex user_id raw now c =
    redeem_user sha256_hex user_id raw now c (find_user user_id c.db)

abbrev is_open : PointCode → Bool
is_open p = p.redeemed_at == 0 && p.disabled_at == 0

disable_each : List ℕ → ℕ → Codes → Result (ℕ × Codes)
disable_each [] now c = ok (0, c)
disable_each (id ∷ ids) now c =
    let hit = λ (p : PointCode). p.id == id && is_open p in
    let c' = record c {
      point_codes =
          update_where hit (λ (p : PointCode). record p { disabled_at = now }) c.point_codes;
    } in
    let rest = disable_each ids now c' in
    if id == 0
    then err invalid_argument
    else (rest >>= λ r. ok (count_by hit c.point_codes + r.0, r.1))

-- `DisablePointCodes`: how many codes it disabled. An id of 0 or less is 0 here.
unfoldable pub disable_point_codes : List ℕ → ℕ → Codes → Result (ℕ × Codes)
unfolding disable_each
disable_point_codes ids now c = do
  fail_if (length ids == 0 || ltb 100 (length ids)) invalid_argument
  disable_each ids now c
