-- ===== src/PointCodes/Redeeming.antt =====
-- internal/store/point_codes.go: what a redemption pays and writes.
use qing_zhou.Common.{
  ℕ, ◌+◌, ◌-◌, ◌≤◌, ◌<◌, ◌≡◌, refl, String, Bool, true, false, ◌||◌, Option, none, some, List, ◌∙◌,
  ap, sym, subst, arith, inl, inr, ◌==◌, first, if◌then◌else◌, Bool-cases, ltb, str_eq, length,
  ==_refl, first-update_where, ◌≢◌,
}
use mathlib.Core.Option.{some-injective}
use qing_zhou.Common.Int.{pos, ◌+ℤ◌}
use qing_zhou.Result.{Error, ok, ok-injective, point_code_used}
use qing_zhou.Store.{User, TxType}
use qing_zhou.Points.{find_user, set_points, log_points, tx_row}
use qing_zhou.Points.Ledger.{balance, IsBooked, IsBooked-of_row, balance-set_points, points_of}
use qing_zhou.Purchase.Books.{same_books}
use qing_zhou.PointCodes.{
  PointCode, Codes, attempts_of, fail_code, consume, code_fault, redeem_sound, redeem_checked,
  overflows, redeem_found, redeem_active, redeem_user, redeem_point_code, point_code_hash,
  max_int64,
}

-- the test for the balance's bound
within_bound : (m a b : ℕ) → (a == 0 || ltb (m - a) b) ≡ false → (0 < a) × (a ≤ m → b + a ≤ m)
within_bound m a b h = (ground (arith, h), λ small. ground (arith, h, small))

points_sum : (a b : ℕ) → pos a +ℤ pos b ≡ pos (a + b)
unfolding ◌+ℤ◌
points_sum a b = ground arith

consume-IsBooked :
    (user_id : ℕ) (u : User) (code : PointCode) (now : ℕ) (c : Codes)
    → find_user user_id c.db ≡ some u
    → IsBooked c.db (consume user_id u code now c).db
      × (balance user_id (consume user_id u code now c).db ≡ u.points + code.points)
      × ((j : ℕ)
          → (j == user_id) ≡ false
          → balance j (consume user_id u code now c).db ≡ balance j c.db)
unfolding consume log_points
consume-IsBooked user_id u code now c found =
    let p = u.points + code.points in
    let paid = set_points user_id p now c.db in
    let row = tx_row user_id (pos code.points) TxType.redeem p code.id 0 now paid.next_tx_id in
    let logged = log_points user_id (pos code.points) TxType.redeem p code.id 0 now paid in
    (
      IsBooked-of_row user_id p now u row c.db paid logged found refl
          (points_sum u.points code.points) (same_books paid paid refl refl refl refl) (λ j. refl)
          refl,
      balance-set_points user_id p now user_id u c.db found ∙ rw (==_refl user_id) refl,
      λ j other. balance-set_points user_id p now j u c.db found ∙ rw other refl,
    )

-- the row of a code after its redemption
abbrev marked : ℕ → User → ℕ → PointCode → PointCode
marked user_id u now p = record p {
  redeemed_by = user_id;
  redeemed_username = u.username;
  redeemed_at = now;
}

consume-listed :
    (hash : String) (user_id : ℕ) (u : User) (code : PointCode) (now : ℕ) (c : Codes)
    → first (λ (p : PointCode). str_eq p.code_hash hash) c.point_codes ≡ some code
    → first (λ (p : PointCode). str_eq p.code_hash hash) (consume user_id u code now c).point_codes
      ≡ some (marked user_id u now code)
unfolding consume
consume-listed hash user_id u code now c listed =
    first-update_where (λ (p : PointCode). str_eq p.code_hash hash)
      (λ (p : PointCode). p.id == code.id) (marked user_id u now) c.point_codes code (λ p. refl)
      (==_refl code.id) listed

-- a redeemed code has a fault
marked-fault :
    (user_id : ℕ) (u : User) (now now' : ℕ) (code : PointCode)
    → 0 < now
    → code_fault (marked user_id u now code) now' ≡ some point_code_used
unfolding code_fault
marked-fault user_id u now now' code later = ground (arith, later)

sound-redeemable :
    (code : PointCode) (now : ℕ)
    → code_fault code now ≡ none
    → (code.redeemed_at ≡ 0) × (code.disabled_at ≡ 0) × (now < code.expires_at)
unfolding code_fault
sound-redeemable code now h = (ground (arith, h), ground (arith, h), ground (arith, h))

module _ (sha256_hex : List ℕ → String) (user_id : ℕ) (raw : List ℕ) (now : ℕ) (c : Codes) where
  abbrev is_code : PointCode → Bool
  is_code p = str_eq p.code_hash (point_code_hash sha256_hex raw)

  -- A redemption: the code is there and open, and the tables are those that `consume` leaves.
  pub record IsRedeemed (b p : ℕ) (c' : Codes) : Type 0 where
    pub u : User
    pub code : PointCode
    pub found : find_user user_id c.db ≡ some u
    pub listed : first is_code c.point_codes ≡ some code
    pub sound : code_fault code now ≡ none
    pub fits : code.points ≤ max_int64 → u.points + code.points ≤ max_int64
    pub positive : 0 < code.points
    pub balance : b ≡ u.points + code.points
    pub points : p ≡ code.points
    pub tables : c' ≡ consume user_id u code now c

  redeem_sound-IsRedeemed :
      (u : User) (code : PointCode) (b p : ℕ) (c' : Codes) (over : Bool)
      → find_user user_id c.db ≡ some u
      → first is_code c.point_codes ≡ some code
      → code_fault code now ≡ none
      → overflows u.points code ≡ over
      → redeem_sound user_id u code now c over ≡ (ok (b, p), c')
      → IsRedeemed b p c'
  unfolding redeem_sound
  redeem_sound-IsRedeemed u code b p c' true found listed good over h = cc (ap (λ x. x.0) h)
  redeem_sound-IsRedeemed u code b p c' false found listed good fits h =
      let answer = ok-injective _ _ (ap (λ x. x.0) h) in
      let (positive, bounded) = within_bound max_int64 code.points u.points fits in
      record {
        u = u;
        code = code;
        found = found;
        listed = listed;
        sound = good;
        fits = bounded;
        positive = positive;
        balance = sym (ap (λ x. x.0) answer);
        points = sym (ap (λ x. x.1) answer);
        tables = sym (ap (λ x. x.1) h);
      }

  redeem_checked-IsRedeemed :
      (u : User) (code : PointCode) (failures b p : ℕ) (c' : Codes) (fault : Option Error)
      → find_user user_id c.db ≡ some u
      → first is_code c.point_codes ≡ some code
      → code_fault code now ≡ fault
      → redeem_checked user_id u code failures now c fault ≡ (ok (b, p), c')
      → IsRedeemed b p c'
  unfolding redeem_checked fail_code
  redeem_checked-IsRedeemed u code failures b p c' (some reason) found listed bad h =
      cc (ap (λ x. x.0) h)
  redeem_checked-IsRedeemed u code failures b p c' none found listed good h =
      redeem_sound-IsRedeemed u code b p c' (overflows u.points code) found listed good refl h

  redeem_found-IsRedeemed :
      (u : User) (failures b p : ℕ) (c' : Codes) (o : Option PointCode)
      → find_user user_id c.db ≡ some u
      → first is_code c.point_codes ≡ o
      → redeem_found user_id u failures now c o ≡ (ok (b, p), c')
      → IsRedeemed b p c'
  unfolding redeem_found fail_code
  redeem_found-IsRedeemed u failures b p c' none found listed h = cc (ap (λ x. x.0) h)
  redeem_found-IsRedeemed u failures b p c' (some code) found listed h =
      redeem_checked-IsRedeemed u code failures b p c' (code_fault code now) found listed refl h

  redeem_active-IsRedeemed :
      (u : User) (failures locked_until b p : ℕ) (c' : Codes)
      → find_user user_id c.db ≡ some u
      → redeem_active sha256_hex user_id raw now c u failures locked_until ≡ (ok (b, p), c')
      → IsRedeemed b p c'
  unfolding redeem_active fail_code
  redeem_active-IsRedeemed u failures locked_until b p c' found h =
      let counted = if ltb 0 locked_until then 0 else failures in
      elim (Bool-cases (ltb now locked_until)) [
        | inl locked ↦ cc (ap (λ x. x.0) (rw (redeem_active, locked) at h))
        | inr free ↦ elim (Bool-cases (ltb 128 (length raw))) [
          | inl long ↦ cc (ap (λ x. x.0) (rw (redeem_active, free, long) at h))
          | inr short ↦
              redeem_found-IsRedeemed u counted b p c' (first is_code c.point_codes) found refl
                (rw (redeem_active, free, short) at h)
        ]
      ]

  redeem_user-IsRedeemed :
      (o : Option User) (b p : ℕ) (c' : Codes)
      → find_user user_id c.db ≡ o
      → redeem_user sha256_hex user_id raw now c o ≡ (ok (b, p), c')
      → IsRedeemed b p c'
  unfolding redeem_user
  redeem_user-IsRedeemed none b p c' found h = cc (ap (λ x. x.0) h)
  redeem_user-IsRedeemed (some u) b p c' found h = elim (Bool-cases (str_eq u.status "active")) [
    | inl active ↦
        (let (failures, locked_until) = attempts_of user_id c.attempts in
          redeem_active-IsRedeemed u failures locked_until b p c' found
            (rw (redeem_user, active) at h))
    | inr barred ↦ cc (ap (λ x. x.0) (rw (redeem_user, barred) at h))
  ]

  pub redeem-IsRedeemed :
      (b p : ℕ) (c' : Codes)
      → redeem_point_code sha256_hex user_id raw now c ≡ (ok (b, p), c')
      → IsRedeemed b p c'
  unfolding redeem_point_code
  redeem-IsRedeemed b p c' h = redeem_user-IsRedeemed (find_user user_id c.db) b p c' refl h

-- A redemption finds the code with the hash of what was entered, which nobody has redeemed, which is not
-- disabled, and which expires later. It moves
-- the user's balance by the points of this code, which are more than 0, and no other balance; it books
-- what it moves, and answers with the new balance and the points.
pub redeem_point_code-IsBooked :
    (sha256_hex : List ℕ → String) (user_id : ℕ) (raw : List ℕ) (now : ℕ) (c : Codes) (b p : ℕ)
    (c' : Codes)
    → redeem_point_code sha256_hex user_id raw now c ≡ (ok (b, p), c')
    → IsBooked c.db c'.db
      × (balance user_id c'.db ≡ b)
      × (balance user_id c.db + p ≡ b)
      × (0 < p)
      × ((j : ℕ) → (j == user_id) ≡ false → balance j c'.db ≡ balance j c.db)
      × ((code : PointCode) × (first
              (λ (q : PointCode). str_eq q.code_hash (point_code_hash sha256_hex raw))
              c.point_codes
            ≡ some code)
          × (code.redeemed_at ≡ 0)
          × (code.disabled_at ≡ 0)
          × (now < code.expires_at)
          × (p ≡ code.points))
redeem_point_code-IsBooked sha256_hex user_id raw now c b p c' h =
    let r = redeem-IsRedeemed sha256_hex user_id raw now c b p c' h in
    let (booked, held, others) = consume-IsBooked user_id r.u r.code now c r.found in
    let start : balance user_id c.db ≡ r.u.points = ap points_of r.found in
    let whole = sound-redeemable r.code now r.sound in
    (
      subst (λ (x : Codes). IsBooked c.db x.db) (sym r.tables) booked,
      ap (λ (x : Codes). balance user_id x.db) r.tables ∙ held ∙ sym r.balance,
      ap (λ x. x + p) start ∙ ap (λ x. r.u.points + x) r.points ∙ sym r.balance,
      subst (λ x. 0 < x) (sym r.points) r.positive,
      λ j other. ap (λ (x : Codes). balance j x.db) r.tables ∙ others j other,
      (r.code, r.listed, whole.0, whole.1, whole.2, r.points),
    )

-- A code that was redeemed, at a time that is not 0, is never redeemed again: not by anybody, in
-- whatever spelling that has the same hash, nor at whatever time.
pub redeem_point_code-once :
    (sha256_hex : List ℕ → String) (user_id : ℕ) (raw : List ℕ) (now : ℕ) (c : Codes) (b p : ℕ)
    (c' : Codes)
    → 0 < now
    → redeem_point_code sha256_hex user_id raw now c ≡ (ok (b, p), c')
    → (user_id' : ℕ) (raw' : List ℕ) (now' b' p' : ℕ) (c'' : Codes)
    → point_code_hash sha256_hex raw' ≡ point_code_hash sha256_hex raw
    → redeem_point_code sha256_hex user_id' raw' now' c' ≢ (ok (b', p'), c'')
redeem_point_code-once sha256_hex user_id raw now c b p c' later h user_id' raw' now' b' p' c'' same
      again =
    let r = redeem-IsRedeemed sha256_hex user_id raw now c b p c' h in
    let s = redeem-IsRedeemed sha256_hex user_id' raw' now' c' b' p' c'' again in
    let hash = point_code_hash sha256_hex raw in
    let kept = consume-listed hash user_id r.u r.code now c r.listed in
    let found : first (λ (p : PointCode). str_eq p.code_hash hash) c'.point_codes ≡ some s.code =
      subst (λ x. first (λ (p : PointCode). str_eq p.code_hash x) c'.point_codes ≡ some s.code) same
        s.listed in
    let first_kept =
      ap (λ (x : Codes). first (λ (p : PointCode). str_eq p.code_hash hash) x.point_codes) r.tables
      ∙ kept in
    let code : s.code ≡ marked user_id r.u now r.code =
      some-injective _ _ (sym found ∙ first_kept) in
    cc (
      sym (marked-fault user_id r.u now now' r.code later)
      ∙ ap (λ x. code_fault x now') (sym code)
      ∙ s.sound)
