-- ===== src/Common/Pairs.antt =====
-- Two tables related row by row.
use mathlib.Core.Path.{◌≡◌, refl, sym, subst, ◌∙◌}
use mathlib.Core.Option.{some, some-injective}
use mathlib.Core.Logic.{inl, inr}
use mathlib.Core.Bool.{Bool, true, false}
use mathlib.Core.List.{List, [], ◌∷◌, map, Memᴰ}
use qing_zhou.Common.Tests.{if◌then◌else◌, Bool-cases}
use qing_zhou.Common.Rows.{first, update_where, All, Pointwise}

module _ {ℓ} {A : Type ℓ} (R : A → A → Type 0) where
  pub Pointwise-map :
      (f : A → A) (xs : List A) → All (λ x. R x (f x)) xs → Pointwise R xs (map f xs)
  Pointwise-map f [] a = tt
  Pointwise-map f (x ∷ xs) a = (a.0, Pointwise-map f xs a.1)

  pub Pointwise-refl : ((x : A) → R x x) → (xs : List A) → Pointwise R xs xs
  Pointwise-refl r [] = tt
  Pointwise-refl r (x ∷ xs) = (r x, Pointwise-refl r xs)

  pub Pointwise-update_where :
      (p : A → Bool) (f : A → A) (xs : List A)
      → ((x : A) → R x x)
      → ((x : A) → p x ≡ true → R x (f x))
      → Pointwise R xs (update_where p f xs)
  Pointwise-update_where p f [] r h = tt
  Pointwise-update_where p f (x ∷ xs) r h = (go (p x) refl, Pointwise-update_where p f xs r h)
    where
      go : (b : Bool) → p x ≡ b → R x (if b then f x else x)
      go true e = h x e
      go false e = r x

  pub Pointwise-trans :
      ((x y z : A) → R x y → R y z → R x z)
      → (xs ys zs : List A) → Pointwise R xs ys
      → Pointwise R ys zs
      → Pointwise R xs zs
  Pointwise-trans t [] [] [] p q = tt
  Pointwise-trans t (x ∷ xs) (y ∷ ys) (z ∷ zs) p q =
      (t x y z p.0 q.0, Pointwise-trans t xs ys zs p.1 q.1)
  Pointwise-trans t [] (y ∷ ys) zs p q = elim p [ ]
  Pointwise-trans t (x ∷ xs) [] zs p q = elim p [ ]
  Pointwise-trans t [] [] (z ∷ zs) p q = elim q [ ]
  Pointwise-trans t (x ∷ xs) (y ∷ ys) [] p q = elim q [ ]

module _ {ℓ} {A : Type ℓ} where
  pub Pointwise-Memᴰ :
      (R : A → A → Type 0) (xs ys : List A) {y : A}
      → Pointwise R xs ys
      → Memᴰ y ys
      → (x : A) × Memᴰ x xs × R x y
  Pointwise-Memᴰ R [] [] p m = elim m [ ]
  Pointwise-Memᴰ R [] (z ∷ ys) p m = elim p [ ]
  Pointwise-Memᴰ R (x ∷ xs) [] p m = elim p [ ]
  Pointwise-Memᴰ R (x ∷ xs) (z ∷ ys) p (Memᴰ.head e) = (x, Memᴰ.head refl, subst (R x) (sym e) p.0)
  Pointwise-Memᴰ R (x ∷ xs) (z ∷ ys) p (Memᴰ.tail m) =
      let (w, n, r) = Pointwise-Memᴰ R xs ys p.1 m in (w, Memᴰ.tail n, r)

module _ {ℓ} {A : Type ℓ} where
  pub Pointwise-both :
      (R S : A → A → Type 0) (xs ys : List A)
      → Pointwise R xs ys
      → Pointwise S xs ys
      → Pointwise (λ x y. R x y × S x y) xs ys
  Pointwise-both R S [] [] p q = tt
  Pointwise-both R S (x ∷ xs) (y ∷ ys) p q = ((p.0, q.0), Pointwise-both R S xs ys p.1 q.1)
  Pointwise-both R S [] (y ∷ ys) p q = elim p [ ]
  Pointwise-both R S (x ∷ xs) [] p q = elim p [ ]

  -- What holds after an update, seen from the rows before it.
  pub Pointwise-before_update :
      (R T : A → A → Type 0) (p : A → Bool) (f : A → A) (xs ys : List A)
      → ((x y : A) → R (if p x then f x else x) y → T x y)
      → Pointwise R (update_where p f xs) ys
      → Pointwise T xs ys
  Pointwise-before_update R T p f [] [] h r = tt
  Pointwise-before_update R T p f (x ∷ xs) (y ∷ ys) h r =
      (h x y r.0, Pointwise-before_update R T p f xs ys h r.1)
  Pointwise-before_update R T p f [] (y ∷ ys) h r = elim r [ ]
  Pointwise-before_update R T p f (x ∷ xs) [] h r = elim r [ ]

  -- A LIMIT 1 whose test does not tell related rows apart finds related rows.
  pub first-Pointwise :
      (R : A → A → Type 0) (p : A → Bool) (xs ys : List A) {x y : A}
      → ((v w : A) → R v w → p w ≡ p v)
      → Pointwise R xs ys
      → first p xs ≡ some x
      → first p ys ≡ some y
      → R x y
  first-Pointwise R p [] ys keep r e f = cc
  first-Pointwise R p (v ∷ xs) [] keep r e f = elim r [ ]
  first-Pointwise R p (v ∷ xs) (w ∷ ys) {x} {y} keep r e f = elim (Bool-cases (p v)) [
    | inl t ↦
        (let same = some-injective _ _ (rw t at e) in
          let same' = some-injective _ _ (rw (keep v w r.0 ∙ t) at f) in
          subst (λ z. R z y) same (subst (λ z. R v z) same' r.0))
    | inr n ↦ first-Pointwise R p xs ys keep r.1 (rw n at e) (rw (keep v w r.0 ∙ n) at f)
  ]
