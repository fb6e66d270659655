-- ===== src/Common/Found.antt =====
-- The row that a LIMIT 1 finds.
use mathlib.Core.Path.{◌≡◌, refl, sym, subst, ◌∙◌, ap}
use mathlib.Core.Logic.{inl, inr}
use mathlib.Core.Bool.{Bool, true, false}
use mathlib.Core.Option.{Option, none, some, some-injective}
use mathlib.Core.List.{List, [], ◌∷◌, ◌++◌, Memᴰ}
use native.Mathlib.Omega.{arith}
use qing_zhou.Common.Tests.{if◌then◌else◌, Bool-cases}
use qing_zhou.Common.Rows.{any, first, last, update_where, All}
use qing_zhou.Common.Members.{Memᴰ_of_any}

module _ {ℓ} {A : Type ℓ} where
  -- What a LIMIT 1 finds has what every row has.
  pub first-All {κ} :
      (P : A → Type κ) (p : A → Bool) (xs : List A) {x : A} → All P xs → first p xs ≡ some x → P x
  first-All P p [] a e = cc
  first-All P p (y ∷ xs) a e = elim (Bool-cases (p y)) [
    | inl t ↦ subst P (some-injective _ _ (rw t at e)) a.0
    | inr f ↦ first-All P p xs a.1 (rw f at e)
  ]

  -- What a LIMIT 1 finds is a row of the table, and passes the test.
  pub first-Memᴰ :
      (p : A → Bool) (xs : List A) {x : A} → first p xs ≡ some x → Memᴰ x xs × (p x ≡ true)
  first-Memᴰ p [] e = cc
  first-Memᴰ p (y ∷ xs) e = elim (Bool-cases (p y)) [
    | inl t ↦
        (let same = some-injective _ _ (rw t at e) in (Memᴰ.head (sym same), ap p (sym same) ∙ t))
    | inr f ↦ let (m, t) = first-Memᴰ p xs (rw f at e) in (Memᴰ.tail m, t)
  ]

  -- A LIMIT 1 finds a row if some row passes the test.
  pub first_of_Memᴰ :
      (p : A → Bool) (xs : List A) {x : A}
      → Memᴰ x xs
      → p x ≡ true
      → (y : A) × (first p xs ≡ some y) × (p y ≡ true)
  first_of_Memᴰ p [] m t = elim m [ ]
  first_of_Memᴰ p (y ∷ xs) (Memᴰ.head e) t = let s = ap p (sym e) ∙ t in (y, rw s refl, s)
  first_of_Memᴰ p (y ∷ xs) (Memᴰ.tail m) t = elim (Bool-cases (p y)) [
    | inl s ↦ (y, rw s refl, s)
    | inr f ↦ let (z, e, s) = first_of_Memᴰ p xs m t in (z, rw f e, s)
  ]

  -- A LIMIT 1 finds nothing exactly when no row passes the test.
  pub first-any : (p : A → Bool) (xs : List A) → first p xs ≡ none → any p xs ≡ false
  first-any p [] e = refl
  first-any p (x ∷ xs) e = ground (arith, first-any p xs)

  pub first_of_any : (p : A → Bool) (xs : List A) → any p xs ≡ false → first p xs ≡ none
  first_of_any p [] e = refl
  first_of_any p (x ∷ xs) e = ground (arith, first_of_any p xs)

  pub found_of_any :
      (p : A → Bool) (xs : List A) → any p xs ≡ true → (x : A) × (first p xs ≡ some x)
  found_of_any p xs e =
      let (x, m, t) = Memᴰ_of_any p xs e in let (y, f, s) = first_of_Memᴰ p xs m t in (y, f)

  -- An update of the row that was found, which leaves the test alone, is what is found next.
  pub first-update_where :
      (p q : A → Bool) (f : A → A) (xs : List A) (x : A)
      → ((y : A) → p (f y) ≡ p y)
      → q x ≡ true
      → first p xs ≡ some x
      → first p (update_where q f xs) ≡ some (f x)
  first-update_where p q f [] x keep t e = cc
  first-update_where p q f (y ∷ xs) x keep t e = elim (Bool-cases (p y)) [
    | inl own ↦
        (let same : y ≡ x = some-injective _ _ (rw own at e) in
          subst (λ z. first p (update_where q f (z ∷ xs)) ≡ some (f x)) (sym same)
            (rw t (rw (keep x ∙ ap p (sym same) ∙ own) refl)))
    | inr other ↦ there other (q y) (first-update_where p q f xs x keep t (rw other at e))
  ]
    where
      there :
          p y ≡ false
          → (c : Bool) → first p (update_where q f xs) ≡ some (f x)
          → first p ((if c then f y else y) ∷ update_where q f xs) ≡ some (f x)
      there other true e = rw (keep y ∙ other) e
      there other false e = rw other e

  -- What an ORDER BY id DESC LIMIT 1 finds passes the test.
  pub last-passes : (p : A → Bool) (xs : List A) {x : A} → last p xs ≡ some x → p x ≡ true
  last-passes p [] e = cc
  last-passes p (y ∷ xs) {x} e = later (last p xs) refl (λ z f. last-passes p xs f) e
    where
      later :
          (o : Option A)
          → last p xs ≡ o
          → ((z : A) → last p xs ≡ some z → p z ≡ true)
          → elim o [ some z ↦ some z | none ↦ if p y then some y else none ] ≡ some x
          → p x ≡ true
      later (some z) f deeper e = ap p (sym (some-injective _ _ e)) ∙ deeper z f
      later none f deeper e = elim (Bool-cases (p y)) [
        | inl t ↦ ap p (sym (some-injective _ _ (rw t at e))) ∙ t
        | inr n ↦ cc (rw n at e)
      ]

  -- The row that an insert adds is found if no row was.
  pub first-snoc :
      (p : A → Bool) (xs : List A) (x : A)
      → first p xs ≡ none
      → p x ≡ true
      → first p (xs ++ x ∷ []) ≡ some x
  first-snoc p [] x e t = rw t refl
  first-snoc p (y ∷ xs) x e t = ground (arith, first-snoc p xs x)
