-- ===== src/UserPlans/Rows.antt =====
-- internal/store/userplans.go: the rows that a DELETE and the UPDATE of an adjustment leave.
use mathlib.Core.Path.{ap₂}
use qing_zhou.Common.{
  true, if◌then◌else◌, first-update_where, ℕ, ◌≡◌, Bool, false, some, List, [], ◌∷◌, ◌∙◌, ap, sym,
  arith, inl, inr, ◌==◌, first, delete_where, update_where, Bool-cases, All, Distinct, select, not,
  refl, first-Memᴰ, All-of_Memᴰ,
}
use qing_zhou.Common.Int.{ℤ}
use qing_zhou.Bucket.{Bucket}
use qing_zhou.Queue.Kept.{ids, same_id}
use qing_zhou.UserPlans.{is_own, adjusted_bucket}

pub ids-adjusted :
    (p : Bucket → Bool) (delta : ℤ) (limit now : ℕ) (rows : List Bucket)
    → ids (update_where p (adjusted_bucket delta limit now) rows) ≡ ids rows
unfolding adjusted_bucket
ids-adjusted p delta limit now [] = refl
ids-adjusted p delta limit now (b ∷ rows) =
    ap₂ ◌∷◌ (one (p b)) (ids-adjusted p delta limit now rows)
  where
    one : (own : Bool) → (if own then adjusted_bucket delta limit now b else b).id ≡ b.id
    one true = refl
    one false = refl

pub first-adjusted :
    (user_id bucket_id : ℕ) (delta : ℤ) (limit now : ℕ) (rows : List Bucket) (b : Bucket)
    → first (is_own user_id bucket_id) rows ≡ some b
    → first
        (is_own user_id bucket_id)
        (update_where (is_own user_id bucket_id) (adjusted_bucket delta limit now) rows)
      ≡ some (adjusted_bucket delta limit now b)
unfolding adjusted_bucket
first-adjusted user_id bucket_id delta limit now rows b e =
    first-update_where (is_own user_id bucket_id) (is_own user_id bucket_id)
      (adjusted_bucket delta limit now) rows b (λ y. refl)
      (first-Memᴰ (is_own user_id bucket_id) rows e).1 e

module _ (p : Bucket → Bool) where
  pub All-delete_where :
      (P : Bucket → Type 0) (rows : List Bucket) → All P rows → All P (delete_where p rows)
  All-delete_where P [] a = tt
  All-delete_where P (b ∷ rows) a = elim (Bool-cases (p b)) [
    | inl gone ↦ rw gone (All-delete_where P rows a.1)
    | inr kept ↦ rw kept (a.0, All-delete_where P rows a.1)
  ]

  ids-delete_where :
      (n : ℕ) (rows : List Bucket)
      → All (λ (m : ℕ). (m == n) ≡ false) (ids rows)
      → All (λ (m : ℕ). (m == n) ≡ false) (ids (delete_where p rows))
  ids-delete_where n [] a = tt
  ids-delete_where n (b ∷ rows) a = elim (Bool-cases (p b)) [
    | inl gone ↦ rw gone (ids-delete_where n rows a.1)
    | inr kept ↦ rw kept (a.0, ids-delete_where n rows a.1)
  ]

  pub Distinct-delete_where :
      (rows : List Bucket) → Distinct (ids rows) → Distinct (ids (delete_where p rows))
  Distinct-delete_where [] d = tt
  Distinct-delete_where (b ∷ rows) d = elim (Bool-cases (p b)) [
    | inl gone ↦ rw gone (Distinct-delete_where rows d.1)
    | inr kept ↦ rw kept (ids-delete_where b.id rows d.0, Distinct-delete_where rows d.1)
  ]

  delete_where-select :
      (q : Bucket → Bool) (rows : List Bucket)
      → All (λ (b : Bucket). p b ≡ q b) rows
      → delete_where p rows ≡ select (λ b. not (q b)) rows
  delete_where-select q [] a = refl
  delete_where-select q (b ∷ rows) a = elim (Bool-cases (q b)) [
    | inl gone ↦ rw (a.0, gone) (delete_where-select q rows a.1)
    | inr kept ↦ rw (a.0, kept) (ap (λ bs. b ∷ bs) (delete_where-select q rows a.1))
  ]

-- Where ids are distinct, the row of this id that the user has is the only one with the id.
pub delete_where-is_own :
    (user_id bucket_id : ℕ) (rows : List Bucket) (b : Bucket)
    → Distinct (ids rows)
    → first (is_own user_id bucket_id) rows ≡ some b
    → delete_where (is_own user_id bucket_id) rows
      ≡ select (λ (r : Bucket). not (r.id == bucket_id)) rows
delete_where-is_own user_id bucket_id rows b d e =
    let (m, mine) = first-Memᴰ (is_own user_id bucket_id) rows e in
    delete_where-select (is_own user_id bucket_id) (λ r. r.id == bucket_id) rows
      (All-of_Memᴰ _ rows λ r n. elim (Bool-cases (r.id == bucket_id)) [
        | inl own ↦
            (let same = same_id rows d n m (ground (arith, own, mine)) in
              ap (is_own user_id bucket_id) same ∙ mine ∙ sym own)
        | inr other ↦ rw other refl
      ])
