-- ===== src/Ownership/Ranking.antt =====
-- internal/store/singbox.go: the order of a user's plans, by expiry and then by id.
use mathlib.Core.List.{Memᴰ}
use qing_zhou.Common.{
  ◌≡◌, Bool, true, false, List, [], ◌∷◌, arith, inl, inr, select, All, map_All, Bool-cases,
}
use qing_zhou.Bucket.{Bucket}
use qing_zhou.Ownership.{ranks_before, insert_ranked, sort_plans}

-- No later row ranks before an earlier one.
abbrev pub IsRanked : List Bucket → Type 0
IsRanked [] = Unit
IsRanked (a ∷ bs) = All (λ (b : Bucket). ranks_before b a ≡ false) bs × IsRanked bs

ranks_before_trans :
    (a b c : Bucket)
    → ranks_before b a ≡ false
    → ranks_before c b ≡ false
    → ranks_before c a ≡ false
unfolding ranks_before
ranks_before_trans a b c p q = ground (arith, p, q)

pub ranks_before_irrefl : (a : Bucket) → ranks_before a a ≡ false
unfolding ranks_before
ranks_before_irrefl a = ground arith

ranks_before_asym : (a b : Bucket) → ranks_before a b ≡ true → ranks_before b a ≡ false
unfolding ranks_before
ranks_before_asym a b p = ground (arith, p)

insert_ranked-All :
    (P : Bucket → Type 0) (a : Bucket) (bs : List Bucket)
    → P a
    → All P bs
    → All P (insert_ranked a bs)
unfolding insert_ranked
insert_ranked-All P a [] p h = (p, tt)
insert_ranked-All P a (b ∷ bs) p h = elim (Bool-cases (ranks_before b a)) [
  | inl before ↦ rw before (h.0, insert_ranked-All P a bs p h.1)
  | inr after ↦ rw after (p, h)
]

insert_ranked-IsRanked :
    (a : Bucket) (bs : List Bucket) → IsRanked bs → IsRanked (insert_ranked a bs)
unfolding insert_ranked
insert_ranked-IsRanked a [] h = (tt, tt)
insert_ranked-IsRanked a (b ∷ bs) h = elim (Bool-cases (ranks_before b a)) [
  | inl before ↦ rw before (
    insert_ranked-All (λ c. ranks_before c b ≡ false) a bs (ranks_before_asym b a before) h.0,
    insert_ranked-IsRanked a bs h.1,
  )
  | inr after ↦ rw after ((after, map_All _ _ bs (λ c p. ranks_before_trans a b c after p) h.0), h)
]

pub sort_plans-IsRanked : (bs : List Bucket) → IsRanked (sort_plans bs)
unfolding sort_plans
sort_plans-IsRanked [] = tt
sort_plans-IsRanked (b ∷ bs) = insert_ranked-IsRanked b (sort_plans bs) (sort_plans-IsRanked bs)

insert_ranked-Memᴰ :
    (a : Bucket) (bs : List Bucket) {r : Bucket} → Memᴰ r (a ∷ bs) → Memᴰ r (insert_ranked a bs)
unfolding insert_ranked
insert_ranked-Memᴰ a [] m = m
insert_ranked-Memᴰ a (b ∷ bs) (Memᴰ.head e) = elim (Bool-cases (ranks_before b a)) [
  | inl before ↦ rw before (Memᴰ.tail (insert_ranked-Memᴰ a bs (Memᴰ.head e)))
  | inr after ↦ rw after (Memᴰ.head e)
]
insert_ranked-Memᴰ a (b ∷ bs) (Memᴰ.tail (Memᴰ.head e)) = elim (Bool-cases (ranks_before b a)) [
  | inl before ↦ rw before (Memᴰ.head e)
  | inr after ↦ rw after (Memᴰ.tail (Memᴰ.head e))
]
insert_ranked-Memᴰ a (b ∷ bs) (Memᴰ.tail (Memᴰ.tail m)) = elim (Bool-cases (ranks_before b a)) [
  | inl before ↦ rw before (Memᴰ.tail (insert_ranked-Memᴰ a bs (Memᴰ.tail m)))
  | inr after ↦ rw after (Memᴰ.tail (Memᴰ.tail m))
]

pub sort_plans-Memᴰ : (bs : List Bucket) {r : Bucket} → Memᴰ r bs → Memᴰ r (sort_plans bs)
unfolding sort_plans
sort_plans-Memᴰ [] m = m
sort_plans-Memᴰ (b ∷ bs) (Memᴰ.head e) = insert_ranked-Memᴰ b (sort_plans bs) (Memᴰ.head e)
sort_plans-Memᴰ (b ∷ bs) (Memᴰ.tail m) =
    insert_ranked-Memᴰ b (sort_plans bs) (Memᴰ.tail (sort_plans-Memᴰ bs m))

pub sort_plans-All : (P : Bucket → Type 0) (bs : List Bucket) → All P bs → All P (sort_plans bs)
unfolding sort_plans
sort_plans-All P [] h = tt
sort_plans-All P (b ∷ bs) h = insert_ranked-All P b (sort_plans bs) h.0 (sort_plans-All P bs h.1)

pub select-All :
    (P : Bucket → Type 0) (p : Bucket → Bool) (bs : List Bucket) → All P bs → All P (select p bs)
select-All P p [] h = tt
select-All P p (b ∷ bs) h = elim (Bool-cases (p b)) [
  | inl t ↦ rw t (h.0, select-All P p bs h.1)
  | inr f ↦ rw f (select-All P p bs h.1)
]

pub select-passes :
    (p : Bucket → Bool) (bs : List Bucket) → All (λ (b : Bucket). p b ≡ true) (select p bs)
select-passes p [] = tt
select-passes p (b ∷ bs) = elim (Bool-cases (p b)) [
  | inl t ↦ rw t (t, select-passes p bs)
  | inr f ↦ rw f (select-passes p bs)
]

pub select-IsRanked : (p : Bucket → Bool) (bs : List Bucket) → IsRanked bs → IsRanked (select p bs)
select-IsRanked p [] h = tt
select-IsRanked p (b ∷ bs) h = elim (Bool-cases (p b)) [
  | inl t ↦ rw t (select-All _ p bs h.0, select-IsRanked p bs h.1)
  | inr f ↦ rw f (select-IsRanked p bs h.1)
]
