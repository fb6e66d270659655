-- ===== src/Ownership/Metered.antt =====
-- internal/store/proxyaccount.go: which row the login of an account spends.
use mathlib.Core.List.{Memᴰ}
use mathlib.Core.Option.{some-injective}
use qing_zhou.Common.{
  ℕ, ◌≡◌, refl, Bool, true, false, not, ◌⊎◌, Option, none, some, List, [], ◌∷◌, sym, subst, inl,
  inr, last, Bool-cases, if◌then◌else◌,
}
use qing_zhou.Bucket.{Bucket, is_free, can_carry}
use qing_zhou.Ownership.{OwnedBucket, ranks_before, is_live_plan, is_live_pool}

pub last-Memᴰ : (p : Bucket → Bool) (bs : List Bucket) {b : Bucket} → last p bs ≡ some b → Memᴰ b bs
last-Memᴰ p [] e = cc
last-Memᴰ p (a ∷ bs) {b} e = later (last p bs) refl (λ z f. last-Memᴰ p bs f) e
  where
    later :
        (o : Option Bucket)
        → last p bs ≡ o
        → ((z : Bucket) → last p bs ≡ some z → Memᴰ z bs)
        → elim o [ some z ↦ some z | none ↦ if p a then some a else none ] ≡ some b
        → Memᴰ b (a ∷ bs)
    later (some z) f deeper e =
        subst (λ x. Memᴰ x (a ∷ bs)) (some-injective _ _ e) (Memᴰ.tail (deeper z f))
    later none f deeper e = elim (Bool-cases (p a)) [
      | inl t ↦ Memᴰ.head (sym (some-injective _ _ (rw t at e)))
      | inr n ↦ cc (rw n at e)
    ]

-- No plan of these rows can carry traffic.
abbrev pub HasNoPlan : ℕ → List Bucket → Type 0
HasNoPlan now rows = (r : Bucket) → Memᴰ r rows → is_live_plan r ≡ true → can_carry now r ≡ false

-- The row is a plan that no other usable plan ranks before, or a pool where there is no usable plan.
abbrev pub IsChosen : ℕ → List Bucket → Bucket → Type 0
IsChosen now rows b =
    ((is_live_plan b ≡ true)
      × ((r : Bucket)
          → Memᴰ r rows
          → is_live_plan r ≡ true
          → can_carry now r ≡ true
          → ranks_before r b ≡ false))
    ⊎ ((is_live_pool b ≡ true) × HasNoPlan now rows)

abbrev pub IsMetered : ℕ → List Bucket → Option OwnedBucket → Type 0
IsMetered now rows none = HasNoPlan now rows
IsMetered now rows (some o) =
    Memᴰ o.bucket rows × (can_carry now o.bucket ≡ true) × IsChosen now rows o.bucket

abbrev is_paid : OwnedBucket → Bool
is_paid o = not (is_free o.bucket.kind)
