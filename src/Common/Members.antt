-- ===== src/Common/Members.antt =====
-- The rows of a table that pass a test, and what an update makes of them.
use mathlib.Core.Path.{◌≡◌, refl, sym, subst, ◌∙◌, ap, ap₂}
use mathlib.Core.Logic.{inl, inr}
use mathlib.Core.Bool.{Bool, true, false, ◌||◌}
use mathlib.Core.List.{List, [], ◌∷◌, map, Memᴰ}
use native.Mathlib.Omega.{arith}
use qing_zhou.Common.Tests.{if◌then◌else◌, Bool-cases}
use qing_zhou.Common.Rows.{any, select, update_where, All}

module _ {ℓ} {A : Type ℓ} where
  pub All-Memᴰ {κ} : (P : A → Type κ) (xs : List A) {x : A} → All P xs → Memᴰ x xs → P x
  All-Memᴰ P [] a m = elim m [ ]
  All-Memᴰ P (y ∷ xs) a (Memᴰ.head e) = subst P (sym e) a.0
  All-Memᴰ P (y ∷ xs) a (Memᴰ.tail m) = All-Memᴰ P xs a.1 m

  pub All-of_Memᴰ {κ} : (P : A → Type κ) (xs : List A) → ((x : A) → Memᴰ x xs → P x) → All P xs
  All-of_Memᴰ P [] h = tt
  All-of_Memᴰ P (x ∷ xs) h = (h x (Memᴰ.head refl), All-of_Memᴰ P xs (λ y m. h y (Memᴰ.tail m)))

  pub any_of_Memᴰ : (p : A → Bool) (xs : List A) {x : A} → Memᴰ x xs → p x ≡ true → any p xs ≡ true
  any_of_Memᴰ p [] m t = elim m [ ]
  any_of_Memᴰ p (y ∷ xs) (Memᴰ.head e) t = rw (ap p (sym e) ∙ t)
  any_of_Memᴰ p (y ∷ xs) (Memᴰ.tail m) t = ground (arith, any_of_Memᴰ p xs m t)

  pub Memᴰ_of_any :
      (p : A → Bool) (xs : List A) → any p xs ≡ true → (x : A) × Memᴰ x xs × (p x ≡ true)
  Memᴰ_of_any p [] e = cc
  Memᴰ_of_any p (y ∷ xs) e = elim (Bool-cases (p y)) [
    | inl t ↦ (y, Memᴰ.head refl, t)
    | inr f ↦ let (x, m, t) = Memᴰ_of_any p xs (rw f at e) in (x, Memᴰ.tail m, t)
  ]

  pub select-Memᴰ :
      (p : A → Bool) (xs : List A) {x : A} → Memᴰ x xs → p x ≡ true → Memᴰ x (select p xs)
  select-Memᴰ p [] m t = elim m [ ]
  select-Memᴰ p (y ∷ xs) (Memᴰ.head e) t = rw (ap p (sym e) ∙ t) (Memᴰ.head e)
  select-Memᴰ p (y ∷ xs) (Memᴰ.tail m) t = elim (Bool-cases (p y)) [
    | inl s ↦ rw s (Memᴰ.tail (select-Memᴰ p xs m t))
    | inr f ↦ rw f (select-Memᴰ p xs m t)
  ]

  pub Memᴰ-select :
      (p : A → Bool) (xs : List A) {x : A} → Memᴰ x (select p xs) → Memᴰ x xs × (p x ≡ true)
  Memᴰ-select p [] m = elim m [ ]
  Memᴰ-select p (y ∷ xs) {x} m = elim (Bool-cases (p y)) [
    | inl s ↦ here s (λ n. Memᴰ-select p xs n) (rw s at m)
    | inr f ↦ let (n, t) = Memᴰ-select p xs (rw f at m) in (Memᴰ.tail n, t)
  ]
    where
      here :
          p y ≡ true
          → (Memᴰ x (select p xs) → Memᴰ x xs × (p x ≡ true))
          → Memᴰ x (y ∷ select p xs)
          → Memᴰ x (y ∷ xs) × (p x ≡ true)
      here s deeper (Memᴰ.head e) = (Memᴰ.head e, ap p e ∙ s)
      here s deeper (Memᴰ.tail n) = let (m, t) = deeper n in (Memᴰ.tail m, t)

  pub map_All {κ ι} :
      (P : A → Type κ) (Q : A → Type ι) (xs : List A) → ((x : A) → P x → Q x) → All P xs → All Q xs
  map_All P Q [] h a = tt
  map_All P Q (x ∷ xs) h a = (h x a.0, map_All P Q xs h a.1)

module _ {ℓ κ ι} {A : Type ℓ} {B : Type κ} where
  pub All-map :
      (P : B → Type ι) (f : A → B) (xs : List A) → All P (map f xs) → All (λ x. P (f x)) xs
  All-map P f [] a = tt
  All-map P f (x ∷ xs) a = (a.0, All-map P f xs a.1)

module _ {ℓ} {A : Type ℓ} where
  pub map-All {κ} :
      (P : A → Type κ) (f : A → A) (xs : List A)
      → ((x : A) → P x → P (f x))
      → All P xs
      → All P (map f xs)
  map-All P f [] h a = tt
  map-All P f (x ∷ xs) h a = (h x a.0, map-All P f xs h a.1)

  pub All-map_of {κ} :
      (P : A → Type κ) (f : A → A) (xs : List A) → ((x : A) → P (f x)) → All P (map f xs)
  All-map_of P f [] h = tt
  All-map_of P f (x ∷ xs) h = (h x, All-map_of P f xs h)

  pub any-map {κ} :
      {B : Type κ} (p : B → Bool) (f : A → B) (xs : List A)
      → any p (map f xs) ≡ any (λ x. p (f x)) xs
  any-map p f [] = refl
  any-map p f (x ∷ xs) = rw (any-map p f xs)

  pub any_congr : (p q : A → Bool) (xs : List A) → All (λ x. p x ≡ q x) xs → any p xs ≡ any q xs
  any_congr p q [] a = refl
  any_congr p q (x ∷ xs) a = rw (a.0, any_congr p q xs a.1)

  pub any-update_where :
      (q p : A → Bool) (f : A → A) (xs : List A)
      → ((x : A) → p x ≡ true → q (f x) ≡ q x)
      → any q (update_where p f xs) ≡ any q xs
  any-update_where q p f [] h = refl
  any-update_where q p f (x ∷ xs) h = ap₂ ◌||◌ (same (p x) refl) (any-update_where q p f xs h)
    where
      same : (b : Bool) → p x ≡ b → q (if b then f x else x) ≡ q x
      same true e = h x e
      same false e = refl

  -- An update after which the updated rows fail its own test leaves none that passes it.
  pub any-update_where_self :
      (p : A → Bool) (f : A → A) (xs : List A)
      → ((x : A) → p x ≡ true → p (f x) ≡ false)
      → any p (update_where p f xs) ≡ false
  any-update_where_self p f [] h = refl
  any-update_where_self p f (x ∷ xs) h = rw (one (p x) refl, any-update_where_self p f xs h)
    where
      one : (b : Bool) → p x ≡ b → p (if b then f x else x) ≡ false
      one true e = h x e
      one false e = e

  pub select_of_any : (p : A → Bool) (xs : List A) → any p xs ≡ false → select p xs ≡ []
  select_of_any p [] e = refl
  select_of_any p (x ∷ xs) e = ground (arith, select_of_any p xs)

  pub any_of_select : (p : A → Bool) (xs : List A) → select p xs ≡ [] → any p xs ≡ false
  any_of_select p [] e = refl
  any_of_select p (x ∷ xs) e = ground (arith, any_of_select p xs)
