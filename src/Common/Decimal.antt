-- ===== src/Common/Decimal.antt =====
-- Go's `strconv.FormatInt(n, 10)` and `strconv.ParseInt(s, 10, 64)`.
use Prim.Native.Char.{Char, code}
use Prim.Native.Nat.{ℕ, zero, suc, ◌+◌, ◌-◌, ◌*◌, ◌/◌, ◌%◌, ◌≤◌, ◌<◌}
use Prim.Native.String.{String}
use mathlib.Core.Path.{◌≡◌, refl, ap, ◌∙◌}
use mathlib.Core.Logic.{inl, inr}
use mathlib.Core.Bool.{Bool, true, false, ◌&&◌}
use mathlib.Core.Option.{Option, none, some}
use native.Mathlib.Omega.{arith}
use qing_zhou.Common.Int.{ℤ, pos, negsuc}
use qing_zhou.Common.Tests.{ltb, leb, ◌==◌, if◌then◌else◌, Bool-cases}

unfoldable pub digit : ℕ → String → String
digit d rest =
    if d == 0
    then String.◌∷◌ "0" rest
    else if d == 1
    then String.◌∷◌ "1" rest
    else if d == 2
    then String.◌∷◌ "2" rest
    else if d == 3
    then String.◌∷◌ "3" rest
    else if d == 4
    then String.◌∷◌ "4" rest
    else if d == 5
    then String.◌∷◌ "5" rest
    else if d == 6
    then String.◌∷◌ "6" rest
    else if d == 7
    then String.◌∷◌ "7" rest
    else if d == 8
    then String.◌∷◌ "8" rest
    else String.◌∷◌ "9" rest

-- The fuel is the number itself, which has fewer digits than that.
unfoldable pub decimal : ℕ → ℕ → String → String
unfolding digit
decimal zero n rest = digit (n % 10) rest
decimal (suc fuel) n rest =
    let more = decimal fuel (n / 10) (digit (n % 10) rest) in
    if ltb n 10 then digit n rest else more

-- `strconv.FormatInt(n, 10)`, of a number that is not negative
unfoldable pub format_int : ℕ → String
unfolding decimal
format_int n = decimal n n ""

abbrev pub max_int64 : ℕ
max_int64 = 9223372036854775807

unfoldable pub is_digit : Char → Bool
is_digit c = leb 48 (code c) && leb (code c) 57

unfoldable pub digits_value : ℕ → String → Option ℕ
unfolding is_digit
digits_value acc String.[] = some acc
digits_value acc (String.◌∷◌ c s) =
    if is_digit c then digits_value (acc * 10 + (code c - 48)) s else none

-- digits, at least one, up to a bound
unfoldable pub unsigned : ℕ → String → Option ℕ
unfolding digits_value
unsigned bound String.[] = none
unsigned bound (String.◌∷◌ c s) = elim (digits_value 0 (String.◌∷◌ c s)) [
  | none ↦ none
  | some n ↦ if leb n bound then some n else none
]

unfoldable pub negated : Option ℕ → Option ℤ
negated none = none
negated (some n) = some (if n == 0 then pos 0 else negsuc (n - 1))

unfoldable pub non_negative : Option ℕ → Option ℤ
non_negative none = none
non_negative (some n) = some (pos n)

-- `strconv.ParseInt(s, 10, 64)`
unfoldable pub parse_int : String → Option ℤ
unfolding unsigned negated non_negative
parse_int String.[] = none
parse_int (String.◌∷◌ c s) =
    if code c == 45
    then negated (unsigned (max_int64 + 1) s)
    else if code c == 43
    then non_negative (unsigned max_int64 s)
    else non_negative (unsigned max_int64 (String.◌∷◌ c s))

digits-digit :
    (acc d : ℕ) (rest : String)
    → d < 10
    → digits_value acc (digit d rest) ≡ digits_value (acc * 10 + d) rest
unfolding digits_value digit is_digit
digits-digit acc zero rest h = refl
digits-digit acc (suc zero) rest h = refl
digits-digit acc (suc (suc zero)) rest h = refl
digits-digit acc (suc (suc (suc zero))) rest h = refl
digits-digit acc (suc (suc (suc (suc zero)))) rest h = refl
digits-digit acc (suc (suc (suc (suc (suc zero))))) rest h = refl
digits-digit acc (suc (suc (suc (suc (suc (suc zero)))))) rest h = refl
digits-digit acc (suc (suc (suc (suc (suc (suc (suc zero))))))) rest h = refl
digits-digit acc (suc (suc (suc (suc (suc (suc (suc (suc zero)))))))) rest h = refl
digits-digit acc (suc (suc (suc (suc (suc (suc (suc (suc (suc zero))))))))) rest h = refl
digits-digit acc (suc (suc (suc (suc (suc (suc (suc (suc (suc (suc n)))))))))) rest h =
    absurd (omega arith)

-- what a last digit adds
digits-last :
    (n : ℕ) (rest : String) → digits_value (n / 10) (digit (n % 10) rest) ≡ digits_value n rest
digits-last n rest =
    digits-digit (n / 10) (n % 10) rest (omega arith) ∙ ap (λ k. digits_value k rest) (omega arith)

digits-decimal :
    (fuel n : ℕ) (rest : String)
    → n ≤ fuel
    → digits_value 0 (decimal fuel n rest) ≡ digits_value n rest
unfolding decimal
digits-decimal zero n rest h =
    digits-digit 0 (n % 10) rest (omega arith) ∙ ap (λ k. digits_value k rest) (omega arith)
digits-decimal (suc fuel) n rest h = elim (Bool-cases (ltb n 10)) [
  | inl small ↦
      rw small (digits-digit 0 n rest (ground arith) ∙ ap (λ k. digits_value k rest) (omega arith))
  | inr large ↦ rw large (digits-decimal fuel (n / 10) _ (ground arith) ∙ digits-last n rest)
]

abbrev StartsDigit : String → Type 0
StartsDigit String.[] = ⊥
StartsDigit (String.◌∷◌ c s) = is_digit c ≡ true

digit-StartsDigit : (d : ℕ) (rest : String) → d < 10 → StartsDigit (digit d rest)
unfolding digit is_digit
digit-StartsDigit zero rest h = refl
digit-StartsDigit (suc zero) rest h = refl
digit-StartsDigit (suc (suc zero)) rest h = refl
digit-StartsDigit (suc (suc (suc zero))) rest h = refl
digit-StartsDigit (suc (suc (suc (suc zero)))) rest h = refl
digit-StartsDigit (suc (suc (suc (suc (suc zero))))) rest h = refl
digit-StartsDigit (suc (suc (suc (suc (suc (suc zero)))))) rest h = refl
digit-StartsDigit (suc (suc (suc (suc (suc (suc (suc zero))))))) rest h = refl
digit-StartsDigit (suc (suc (suc (suc (suc (suc (suc (suc zero)))))))) rest h = refl
digit-StartsDigit (suc (suc (suc (suc (suc (suc (suc (suc (suc zero))))))))) rest h = refl
digit-StartsDigit (suc (suc (suc (suc (suc (suc (suc (suc (suc (suc n)))))))))) rest h =
    absurd (omega arith)

decimal-StartsDigit : (fuel n : ℕ) (rest : String) → StartsDigit (decimal fuel n rest)
unfolding decimal
decimal-StartsDigit zero n rest = digit-StartsDigit (n % 10) rest (omega arith)
decimal-StartsDigit (suc fuel) n rest = elim (Bool-cases (ltb n 10)) [
  | inl small ↦ rw small (digit-StartsDigit n rest (ground arith))
  | inr large ↦ rw large (decimal-StartsDigit fuel (n / 10) _)
]

parse_digits :
    (s : String) (n : ℕ)
    → StartsDigit s
    → digits_value 0 s ≡ some n
    → n ≤ max_int64
    → parse_int s ≡ some (pos n)
unfolding parse_int is_digit
parse_digits String.[] n h e b = absurd h
parse_digits (String.◌∷◌ c s) n h e b =
    rw (not_sign 45 (omega arith), not_sign 43 (omega arith)) (ground arith)
  where
    not_sign : (k : ℕ) → k < 48 → (code c == k) ≡ false
    not_sign k l = ground arith

-- A number that is printed is read back.
pub parse_int-format_int : (n : ℕ) → n ≤ max_int64 → parse_int (format_int n) ≡ some (pos n)
unfolding format_int digits_value
parse_int-format_int n b =
    parse_digits (format_int n) n (decimal-StartsDigit n n "") (digits-decimal n n "" (omega arith))
      b
