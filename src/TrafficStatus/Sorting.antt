-- ===== src/TrafficStatus/Sorting.antt =====
-- internal/store/traffic_status.go: the samples in the order of their times.
use mathlib.Core.List.{Memᴰ}
use qing_zhou.Common.{
  ℕ, ◌≤◌, refl, sym, subst, arith, inl, inr, Bool, List, [], ◌∷◌, leb, leb→le, select, Bool-cases,
}
use qing_zhou.TrafficStatus.{StatusSample, insert_sample, sort_samples}

-- The samples stand in the order of their times, none before an instant.
abbrev pub IsAscending : ℕ → List StatusSample → Type 0
IsAscending n [] = Unit
IsAscending n (s ∷ ss) = (n ≤ s.ts) × IsAscending s.ts ss

IsAscending-weaken :
    (n k : ℕ) (ss : List StatusSample) → n ≤ k → IsAscending k ss → IsAscending n ss
IsAscending-weaken n k [] le h = tt
IsAscending-weaken n k (s ∷ ss) le h = (omega (arith, h.0), h.1)

insert_sample-IsAscending :
    (n : ℕ) (s : StatusSample) (ss : List StatusSample)
    → n ≤ s.ts
    → IsAscending n ss
    → IsAscending n (insert_sample s ss)
unfolding insert_sample
insert_sample-IsAscending n s [] le h = (le, tt)
insert_sample-IsAscending n s (t ∷ ts) le h = elim (Bool-cases (leb s.ts t.ts)) [
  | inl here ↦ rw here (le, (leb→le s.ts t.ts here, h.1))
  | inr after ↦ rw after (h.0, insert_sample-IsAscending t.ts s ts (ground (arith, after)) h.1)
]

pub sort_samples-IsAscending : (ss : List StatusSample) → IsAscending 0 (sort_samples ss)
unfolding sort_samples
sort_samples-IsAscending [] = tt
sort_samples-IsAscending (s ∷ ss) =
    insert_sample-IsAscending 0 s (sort_samples ss) (omega arith) (sort_samples-IsAscending ss)

pub select-IsAscending :
    (p : StatusSample → Bool) (n : ℕ) (ss : List StatusSample)
    → IsAscending n ss
    → IsAscending n (select p ss)
select-IsAscending p n [] h = tt
select-IsAscending p n (s ∷ ss) h = elim (Bool-cases (p s)) [
  | inl t ↦ rw t (h.0, select-IsAscending p s.ts ss h.1)
  | inr f ↦ rw f (select-IsAscending p n ss (IsAscending-weaken n s.ts ss h.0 h.1))
]

pub Memᴰ-IsAscending :
    (n : ℕ) (ss : List StatusSample) {s : StatusSample} → IsAscending n ss → Memᴰ s ss → n ≤ s.ts
Memᴰ-IsAscending n [] h m = elim m [ ]
Memᴰ-IsAscending n (t ∷ ts) h (Memᴰ.head e) = subst (λ (x : StatusSample). n ≤ x.ts) (sym e) h.0
Memᴰ-IsAscending n (t ∷ ts) h (Memᴰ.tail m) = omega (arith, h.0, Memᴰ-IsAscending t.ts ts h.1 m)

insert_sample-head : (s : StatusSample) (ss : List StatusSample) → Memᴰ s (insert_sample s ss)
unfolding insert_sample
insert_sample-head s [] = Memᴰ.head refl
insert_sample-head s (t ∷ ts) = elim (Bool-cases (leb s.ts t.ts)) [
  | inl here ↦ rw here (Memᴰ.head refl)
  | inr after ↦ rw after (Memᴰ.tail (insert_sample-head s ts))
]

insert_sample-Memᴰ :
    (s : StatusSample) (ss : List StatusSample) {t : StatusSample}
    → Memᴰ t ss
    → Memᴰ t (insert_sample s ss)
unfolding insert_sample
insert_sample-Memᴰ s [] m = elim m [ ]
insert_sample-Memᴰ s (u ∷ us) m = elim (Bool-cases (leb s.ts u.ts)) [
  | inl here ↦ rw here (Memᴰ.tail m)
  | inr after ↦
      rw after
        (elim m [ Memᴰ.head e ↦ Memᴰ.head e | Memᴰ.tail k ↦ Memᴰ.tail (insert_sample-Memᴰ s us k) ])
]

pub sort_samples-Memᴰ :
    (ss : List StatusSample) {s : StatusSample} → Memᴰ s ss → Memᴰ s (sort_samples ss)
unfolding sort_samples
sort_samples-Memᴰ [] m = elim m [ ]
sort_samples-Memᴰ (t ∷ ts) (Memᴰ.head e) =
    subst (λ x. Memᴰ x (insert_sample t (sort_samples ts))) (sym e)
      (insert_sample-head t (sort_samples ts))
sort_samples-Memᴰ (t ∷ ts) (Memᴰ.tail m) =
    insert_sample-Memᴰ t (sort_samples ts) (sort_samples-Memᴰ ts m)
