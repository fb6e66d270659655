-- ===== src/TrafficStatus/Silence.antt =====
-- internal/store/traffic_status.go: the stretches without a report.
use mathlib.Core.List.{Memᴰ}
use qing_zhou.Common.{
  ℕ, ◌+◌, ◌-◌, ◌≤◌, ◌<◌, ◌≡◌, ◌⊎◌, refl, subst, arith, inl, inr, true, ◌||◌, Option, none, some,
  List, [], ◌∷◌, ◌++◌, length, ltb, leb, last, select, select-Memᴰ, All, Bool-cases,
}
use qing_zhou.Common.Int.{ℤ}
use qing_zhou.TrafficStatus.{
  StatusSample, StatusGap, TrafficStatus, sort_samples, in_window, add_gap, count_sample, next_ts,
  each_sample, positive_or, empty_status, lead_in, aggregate_traffic_status,
}
use qing_zhou.TrafficStatus.Sorting.{
  IsAscending, sort_samples-IsAscending, select-IsAscending, Memᴰ-IsAscending, sort_samples-Memᴰ,
}

-- A sample does not lie within a stretch.
abbrev IsOutside : ℕ → ℕ → StatusSample → Type 0
IsOutside start end s = (s.ts ≤ start) ⊎ (end ≤ s.ts)

-- A stretch that is longer than the threshold, meets the window, and holds no sample of it.
pub record IsSilent (samples : List StatusSample) (from to gap_after : ℕ) (g : StatusGap)
    : Type 0 where
  pub length : g.from + g.seconds ≡ g.to
  pub long : gap_after < g.seconds
  pub before_end : g.from < to
  pub after_start : from < g.to
  pub silent :
      (s : StatusSample) → Memᴰ s samples → in_window from to s ≡ true → IsOutside g.from g.to s

module _ (samples : List StatusSample) (from to gap_after : ℕ) where
  record IsWindow (out : TrafficStatus) : Type 0 where
    from_same : out.from ≡ from
    to_same : out.to ≡ to
    gap_same : out.gap_after_sec ≡ gap_after
    silent : All (IsSilent samples from to gap_after) out.gaps

  abbrev IsClear : ℕ → ℕ → Type 0
  IsClear start end =
      (s : StatusSample) → Memᴰ s samples → in_window from to s ≡ true → IsOutside start end s

  add_gap-IsWindow :
      (start end : ℕ) (out : TrafficStatus)
      → IsClear start end
      → IsWindow out
      → IsWindow (add_gap start end out)
  unfolding add_gap
  add_gap-IsWindow start end out clear w =
      elim (Bool-cases (leb end start || leb (end - start) out.gap_after_sec)) [
        | inl brief ↦ rw brief w
        | inr long ↦ elim (Bool-cases (leb end out.from || leb out.to start)) [
          | inl outside ↦ rw (long, outside) w
          | inr within ↦
              rw (long, within)
                (record {
                  from_same = w.from_same;
                  to_same = w.to_same;
                  gap_same = w.gap_same;
                  silent = All-snoc out.gaps w.silent (record {
                    length = ground (arith, long);
                    long = ground (arith, long, w.gap_same);
                    before_end = ground (arith, within, w.to_same);
                    after_start = ground (arith, within, w.from_same);
                    silent = clear;
                  });
                })
        ]
      ]
    where
      All-snoc :
          (gs : List StatusGap) {g : StatusGap}
          → All (IsSilent samples from to gap_after) gs
          → IsSilent samples from to gap_after g
          → All (IsSilent samples from to gap_after) (gs ++ g ∷ [])
      All-snoc [] h k = (k, tt)
      All-snoc (g ∷ gs) h k = (h.0, All-snoc gs h.1 k)

  count_sample-IsWindow :
      (prev : Option StatusSample) (cur : StatusSample) (out : TrafficStatus)
      → IsWindow out
      → IsWindow (count_sample prev cur out)
  unfolding count_sample
  count_sample-IsWindow prev cur out w = record {
    from_same = w.from_same;
    to_same = w.to_same;
    gap_same = w.gap_same;
    silent = w.silent;
  }

  -- The samples of the window are behind an instant or among those to come.
  abbrev IsReached : ℕ → List StatusSample → Type 0
  IsReached n rest =
      (s : StatusSample) → Memᴰ s samples → in_window from to s ≡ true → (s.ts ≤ n) ⊎ Memᴰ s rest

  IsReached-cons :
      (n : ℕ) (cur : StatusSample) (rest : List StatusSample)
      → n ≤ cur.ts
      → IsReached n (cur ∷ rest)
      → IsReached cur.ts rest
  IsReached-cons n cur rest le r s m t = elim (r s m t) [
    | inl behind ↦ inl (omega (arith, behind, le))
    | inr (Memᴰ.head e) ↦ inl (subst (λ (x : StatusSample). s.ts ≤ x.ts) e (omega arith))
    | inr (Memᴰ.tail k) ↦ inr k
  ]

  -- No sample lies between an instant and the next of those to come.
  IsReached-IsClear :
      (n k : ℕ) (rest : List StatusSample)
      → IsAscending n rest
      → IsReached n rest
      → IsClear n (next_ts rest k)
  IsReached-IsClear n k [] up r s m t = elim (r s m t) [
    | inl behind ↦ inl behind
    | inr none_left ↦ elim none_left [ ]
  ]
  IsReached-IsClear n k (cur ∷ rest) up r s m t = elim (r s m t) [
    | inl behind ↦ inl behind
    | inr ahead ↦ inr (Memᴰ-IsAscending cur.ts (cur ∷ rest) (omega arith, up.1) ahead)
  ]

  each_sample-IsWindow :
      (n : ℕ) (prev : Option StatusSample) (ss : List StatusSample) (out : TrafficStatus)
      → IsAscending n ss
      → IsReached n ss
      → IsWindow out
      → IsWindow (each_sample prev ss out)
  unfolding each_sample
  each_sample-IsWindow n prev [] out up r w = w
  each_sample-IsWindow n prev (cur ∷ rest) out up r w =
      let on = IsReached-cons n cur rest up.0 r in
      each_sample-IsWindow cur.ts (some cur) rest
        (add_gap cur.ts (next_ts rest out.to) (count_sample prev cur out)) up.1 on
        (add_gap-IsWindow cur.ts (next_ts rest out.to) (count_sample prev cur out)
          (IsReached-IsClear cur.ts out.to rest up.1 on) (count_sample-IsWindow prev cur out w))

  lead_in-IsWindow :
      (b : Option StatusSample) (ss : List StatusSample) (out : TrafficStatus)
      → IsAscending 0 ss
      → ((s : StatusSample) → Memᴰ s samples → in_window from to s ≡ true → Memᴰ s ss)
      → IsWindow out
      → IsWindow (lead_in b ss out)
  unfolding lead_in
  lead_in-IsWindow none [] out up all w = w
  lead_in-IsWindow (some b) [] out up all w =
      add_gap-IsWindow b.ts out.to out (λ s m t. elim (all s m t) [ ]) w
  lead_in-IsWindow none (c ∷ ss) out up all w =
      add_gap-IsWindow out.from c.ts out
        (λ s m t. inr (Memᴰ-IsAscending c.ts (c ∷ ss) (omega arith, up.1) (all s m t))) w
  lead_in-IsWindow (some b) (c ∷ ss) out up all w =
      add_gap-IsWindow b.ts c.ts out
        (λ s m t. inr (Memᴰ-IsAscending c.ts (c ∷ ss) (omega arith, up.1) (all s m t))) w

-- Every gap that is reported is real: it is as long as it says and longer than the threshold, it meets
-- the window, and no sample of the window lies within it, whatever the order of the samples.
pub aggregate_traffic_status-IsSilent :
    (samples : List StatusSample) (from to : ℕ) (bucket_sec gap_after : ℤ)
    → All
        (IsSilent samples from to (positive_or 150 gap_after))
        (aggregate_traffic_status samples from to bucket_sec gap_after).gaps
unfolding aggregate_traffic_status
aggregate_traffic_status-IsSilent samples from to bucket_sec gap_after =
    elim (Bool-cases (leb to from)) [
      | inl empty ↦ rw empty tt
      | inr wide ↦
          rw wide
            (each_sample-IsWindow samples from to gap 0 baseline inside led ordered
              (λ s m t. inr (all s m t))
              (lead_in-IsWindow samples from to gap baseline inside start ordered all
                (record { from_same = refl; to_same = refl; gap_same = refl; silent = tt }))).silent
    ]
  where
    gap : ℕ
    gap = positive_or 150 gap_after

    baseline : Option StatusSample
    baseline = last (λ (s : StatusSample). ltb s.ts from) (sort_samples samples)

    inside : List StatusSample
    inside = select (in_window from to) (sort_samples samples)

    start : TrafficStatus
    start = record (empty_status from to (positive_or 60 bucket_sec) gap) {
      sample_count = length inside;
    }

    led : TrafficStatus
    led = lead_in baseline inside start

    ordered : IsAscending 0 inside
    ordered =
        select-IsAscending (in_window from to) 0 (sort_samples samples)
          (sort_samples-IsAscending samples)

    all : (s : StatusSample) → Memᴰ s samples → in_window from to s ≡ true → Memᴰ s inside
    all s m t =
        select-Memᴰ (in_window from to) (sort_samples samples) (sort_samples-Memᴰ samples m) t
