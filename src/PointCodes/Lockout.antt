-- ===== src/PointCodes/Lockout.antt =====
-- internal/store/point_codes.go: wrong guesses and the lock.
use qing_zhou.Common.{
  ℕ, ◌+◌, ◌≤◌, ◌<◌, ◌≡◌, refl, String, true, false, none, some, List, [], ◌∷◌, ◌∙◌, ap, arith, inl,
  inr, ◌==◌, any, first, if◌then◌else◌, Bool-cases, ltb, leb, str_eq, length, ==_refl,
  first-update_where, first-snoc, first_of_any, All, map_All, found_of_any, first-Memᴰ,
}
use qing_zhou.Result.{err, point_code_locked, point_code_missing}
use qing_zhou.Store.{User}
use qing_zhou.Points.{find_user}
use qing_zhou.PointCodes.{
  PointCode, Attempts, Codes, attempt_state, attempts_of, put_attempts, fail_code, redeem_found,
  redeem_active, redeem_user, redeem_point_code, point_code_hash,
}

-- What was put is what is read.
put-attempts_of :
    (user_id f l : ℕ) (rows : List Attempts)
    → attempts_of user_id (put_attempts user_id f l rows) ≡ (f, l)
unfolding put_attempts
put-attempts_of user_id f l rows =
    let mine = λ (a : Attempts). a.user_id == user_id in
    elim (Bool-cases (any mine rows)) [
      | inr new ↦
          rw (put_attempts, new)
            (ap attempt_state
              (first-snoc mine rows _ (first_of_any mine rows new) (==_refl user_id)))
      | inl known ↦
          (let (a, found) = found_of_any mine rows known in
            let own = (first-Memᴰ mine rows found).1 in
            rw (put_attempts, known)
              (ap attempt_state (first-update_where mine mine _ rows a (λ b. refl) own found)))
    ]

module _ (sha256_hex : List ℕ → String) (user_id : ℕ) where
  -- A guess that no code answers to.
  pub record IsWrong (raw : List ℕ) (c : Codes) : Type 0 where
    pub u : User
    pub found : find_user user_id c.db ≡ some u
    pub active : str_eq u.status "active" ≡ true
    pub unknown :
        first (λ (p : PointCode). str_eq p.code_hash (point_code_hash sha256_hex raw)) c.point_codes
        ≡ none

  wrong_active-fails :
      (raw : List ℕ) (now f l : ℕ) (c : Codes) (u : User)
      → first (λ (p : PointCode). str_eq p.code_hash (point_code_hash sha256_hex raw)) c.point_codes
        ≡ none
      → l ≤ now
      → redeem_active sha256_hex user_id raw now c u f l
        ≡ fail_code user_id (if ltb 0 l then 0 else f) now point_code_missing c
  unfolding redeem_active redeem_found
  wrong_active-fails raw now f l c u unknown unlocked =
      let free : ltb now l ≡ false = ground (arith, unlocked) in
      elim (Bool-cases (ltb 128 (length raw))) [
        | inl long ↦ rw (redeem_active, free, long) refl
        | inr short ↦ rw (redeem_active, free, short, unknown) refl
      ]

  wrong-fails :
      (raw : List ℕ) (now f l : ℕ) (c : Codes)
      → IsWrong raw c
      → attempts_of user_id c.attempts ≡ (f, l)
      → l ≤ now
      → redeem_point_code sha256_hex user_id raw now c
        ≡ fail_code user_id (if ltb 0 l then 0 else f) now point_code_missing c
  unfolding redeem_point_code redeem_user
  wrong-fails raw now f l c w state unlocked =
      let seen : redeem_user sha256_hex user_id raw now c (some w.u)
          ≡ redeem_active sha256_hex user_id raw now c w.u f l =
        rw (redeem_user, w.active)
          (ap (λ (s : ℕ × ℕ). redeem_active sha256_hex user_id raw now c w.u (s.0) (s.1)) state) in
      ap (redeem_user sha256_hex user_id raw now c) w.found
      ∙ seen
      ∙ wrong_active-fails raw now f l c w.u w.unknown unlocked

  -- the tables after a sequence of guesses
  abbrev pub after_guesses : List (List ℕ × ℕ) → Codes → Codes
  after_guesses [] c = c
  after_guesses ((raw, now) ∷ gs) c =
      after_guesses gs (redeem_point_code sha256_hex user_id raw now c).1

  -- one wrong guess: the count goes up, the fifth locks, and only the attempts change
  wrong-counted :
      (raw : List ℕ) (now f : ℕ) (c : Codes)
      → IsWrong raw c
      → attempts_of user_id c.attempts ≡ (f, 0)
      → (attempts_of user_id (redeem_point_code sha256_hex user_id raw now c).1.attempts
          ≡ (f + 1, if leb 5 (f + 1) then now + 900 else 0))
        × ((redeem_point_code sha256_hex user_id raw now c).1.db ≡ c.db)
        × ((redeem_point_code sha256_hex user_id raw now c).1.point_codes ≡ c.point_codes)
  unfolding fail_code
  wrong-counted raw now f c w state =
      let fails = wrong-fails raw now f 0 c w state (omega arith) in
      (
        ap (λ r. attempts_of user_id (r.1.attempts)) fails
            ∙ put-attempts_of user_id (f + 1) _ c.attempts,
        ap (λ r. r.1.db) fails,
        ap (λ r. r.1.point_codes) fails,
      )

  -- Whether a guess is wrong depends on the users and the codes alone.
  IsWrong-after :
      (raw : List ℕ) (c c' : Codes)
      → c'.db ≡ c.db
      → c'.point_codes ≡ c.point_codes
      → IsWrong raw c
      → IsWrong raw c'
  IsWrong-after raw c c' db codes w = record {
    u = w.u;
    found = ap (find_user user_id) db ∙ w.found;
    active = w.active;
    unknown =
        ap (first (λ (p : PointCode). str_eq p.code_hash (point_code_hash sha256_hex raw))) codes
        ∙ w.unknown;
  }

  -- up to four wrong guesses are counted, and change nothing but the count
  guesses-counted :
      (gs : List (List ℕ × ℕ)) (f : ℕ) (c : Codes)
      → All (λ (g : List ℕ × ℕ). IsWrong g.0 c) gs
      → f + length gs ≤ 4
      → attempts_of user_id c.attempts ≡ (f, 0)
      → (attempts_of user_id (after_guesses gs c).attempts ≡ (f + length gs, 0))
        × ((after_guesses gs c).db ≡ c.db)
        × ((after_guesses gs c).point_codes ≡ c.point_codes)
  guesses-counted [] f c wrong few state =
      (state ∙ ap (λ (n : ℕ). (n, 0)) (omega arith), refl, refl)
  guesses-counted ((raw, now) ∷ gs) f c wrong few state =
      let c' = (redeem_point_code sha256_hex user_id raw now c).1 in
      let (counted, db, codes) = wrong-counted raw now f c wrong.0 state in
      let below : leb 5 (f + 1) ≡ false = ground (arith, few) in
      let later =
        map_All (λ (g : List ℕ × ℕ). IsWrong g.0 c) (λ (g : List ℕ × ℕ). IsWrong g.0 c') gs
          (λ g w. IsWrong-after (g.0) c c' db codes w) wrong.1 in
      let (counted', db', codes') =
        guesses-counted gs (f + 1) c' later (omega (arith, few))
          (counted ∙ ap (λ b. (f + 1, if b then now + 900 else 0)) below) in
      (counted' ∙ ap (λ (n : ℕ). (n, 0)) (omega arith), db' ∙ db, codes' ∙ codes)

  -- during a lock nothing is redeemed and nothing changes
  locked-refuses :
      (raw : List ℕ) (now f l : ℕ) (c : Codes) (u : User)
      → find_user user_id c.db ≡ some u
      → str_eq u.status "active" ≡ true
      → attempts_of user_id c.attempts ≡ (f, l)
      → now < l
      → redeem_point_code sha256_hex user_id raw now c ≡ (err point_code_locked, c)
  unfolding redeem_point_code redeem_user redeem_active
  locked-refuses raw now f l c u found active state early =
      let locked : ltb now l ≡ true = ground (arith, early) in
      let seen : redeem_user sha256_hex user_id raw now c (some u)
          ≡ redeem_active sha256_hex user_id raw now c u f l =
        rw (redeem_user, active)
          (ap (λ (s : ℕ × ℕ). redeem_active sha256_hex user_id raw now c u (s.0) (s.1)) state) in
      ap (redeem_user sha256_hex user_id raw now c) found ∙ seen ∙ rw (redeem_active, locked) refl

-- Five wrong guesses in a row of a user without counted failures lock the user out: whatever code the
-- user sends in the 900 seconds that follow the fifth, a right one too, is refused, and nothing
-- changes. Four wrong guesses do not lock.
pub redeem_point_code-lockout :
    (sha256_hex : List ℕ → String) (user_id : ℕ) (gs : List (List ℕ × ℕ)) (raw : List ℕ) (now : ℕ)
    (c : Codes)
    → attempts_of user_id c.attempts ≡ (0, 0)
    → length gs ≡ 4
    → All (λ (g : List ℕ × ℕ). IsWrong sha256_hex user_id g.0 c) gs
    → IsWrong sha256_hex user_id raw c
    → (raw' : List ℕ) (now' : ℕ) → now' < now + 900
    → let four = after_guesses sha256_hex user_id gs c in
      let five = (redeem_point_code sha256_hex user_id raw now four).1 in
      (attempts_of user_id four.attempts ≡ (4, 0))
      × (redeem_point_code sha256_hex user_id raw' now' five ≡ (err point_code_locked, five))
redeem_point_code-lockout sha256_hex user_id gs raw now c clean all_four wrong last raw' now'
      early =
    let four = after_guesses sha256_hex user_id gs c in
    let (state, db, codes) =
      guesses-counted sha256_hex user_id gs 0 c wrong (omega (arith, all_four)) clean in
    let counted : attempts_of user_id four.attempts ≡ (4, 0) =
      state ∙ ap (λ (n : ℕ). (n, 0)) (omega (arith, all_four)) in
    let w = IsWrong-after sha256_hex user_id raw c four db codes last in
    let (locked, db', codes') = wrong-counted sha256_hex user_id raw now 4 four w counted in
    let five = (redeem_point_code sha256_hex user_id raw now four).1 in
    (
      counted,
      locked-refuses sha256_hex user_id raw' now' 5 (now + 900) five w.u
          (ap (find_user user_id) db' ∙ w.found) w.active locked early,
    )
