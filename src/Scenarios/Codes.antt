-- ===== src/Scenarios/Codes.antt =====
-- Redeeming point codes: the digest of this scenario is a text of the code's length.
use qing_zhou.Common.{
  ℕ, ◌+◌, ◌<◌, ◌≡◌, ◌≢◌, refl, String, false, some, first, str_eq, List, [], ◌∷◌, length,
  if◌then◌else◌, ◌==◌, arith,
}
use qing_zhou.Result.{ok, err, point_code_locked}
use qing_zhou.Points.Ledger.{balance, IsBooked}
use qing_zhou.PointCodes.{
  PointCode, Codes, redeem_point_code, point_code_hash, attempts_of, max_int64,
}
use qing_zhou.PointCodes.Redeeming.{redeem_point_code-IsBooked, redeem_point_code-once}
use qing_zhou.PointCodes.Lockout.{IsWrong, after_guesses, redeem_point_code-lockout}
use qing_zhou.Scenarios.{alice, shop}

abbrev digest : List ℕ → String
digest bs = if length bs == 4 then "four" else "not four"

-- "ab-cd", which is normalised to "ABCD"
abbrev raw : List ℕ
raw = 97 ∷ 98 ∷ 45 ∷ 99 ∷ 100 ∷ []

abbrev voucher : PointCode
voucher = record {
  id = 5;
  code_hash = "four";
  points = 60;
  expires_at = 9000;
  disabled_at = 0;
  redeemed_by = 0;
  redeemed_username = "";
  redeemed_at = 0;
}

abbrev desk : Codes
desk = record { db = shop; point_codes = voucher ∷ []; attempts = [] }

abbrev paid_out : Codes
paid_out = (redeem_point_code digest 1 raw 5000 desk).1

redeems : redeem_point_code digest 1 raw 5000 desk ≡ (ok (560, 60), paid_out)
unfolding redeem_point_code point_code_hash max_int64
redeems = refl

redeem_point_code-IsBooked_example :
    IsBooked desk.db paid_out.db
    × (balance 1 paid_out.db ≡ 560)
    × (balance 1 desk.db + 60 ≡ 560)
    × (0 < 60)
    × ((j : ℕ) → (j == 1) ≡ false → balance j paid_out.db ≡ balance j desk.db)
    × ((code : PointCode) × (first
            (λ (q : PointCode). str_eq q.code_hash (point_code_hash digest raw))
            desk.point_codes
          ≡ some code)
        × (code.redeemed_at ≡ 0)
        × (code.disabled_at ≡ 0)
        × (5000 < code.expires_at)
        × (60 ≡ code.points))
redeem_point_code-IsBooked_example =
    redeem_point_code-IsBooked digest 1 raw 5000 desk 560 60 paid_out redeems

redeem_point_code-once_example :
    redeem_point_code digest 2 raw 6000 paid_out ≢ (ok (100, 60), paid_out)
redeem_point_code-once_example =
    redeem_point_code-once digest 1 raw 5000 desk 560 60 paid_out (omega arith) redeems 2 raw 6000
      100 60 paid_out refl

-- a guess that is too short
abbrev guess : List ℕ
guess = 65 ∷ []

guess-IsWrong : IsWrong digest 1 guess desk
unfolding point_code_hash
guess-IsWrong = record { u = alice; found = refl; active = refl; unknown = refl }

abbrev guesses : List (List ℕ × ℕ)
guesses = (guess, 100) ∷ (guess, 101) ∷ (guess, 102) ∷ (guess, 103) ∷ []

redeem_point_code-lockout_example :
    let four = after_guesses digest 1 guesses desk in
    let five = (redeem_point_code digest 1 guess 104 four).1 in
    (attempts_of 1 four.attempts ≡ (4, 0))
    × (redeem_point_code digest 1 raw 900 five ≡ (err point_code_locked, five))
redeem_point_code-lockout_example =
    redeem_point_code-lockout digest 1 guesses guess 104 desk refl refl
      (guess-IsWrong, (guess-IsWrong, (guess-IsWrong, (guess-IsWrong, tt)))) guess-IsWrong raw 900
      (omega arith)
