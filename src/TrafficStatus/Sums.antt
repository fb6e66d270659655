-- ===== src/TrafficStatus/Sums.antt =====
-- internal/store/traffic_status.go: what the points of a window add up to.
use qing_zhou.Common.{
  ℕ, ◌+◌, ◌-◌, ◌%◌, ◌≤◌, ◌≡◌, refl, subst, arith, inl, inr, Bool, true, false, ◌||◌, Option, none,
  some, List, [], ◌∷◌, length, ltb, leb, ◌==◌, last, select, sum_by, Bool-cases, if◌then◌else◌,
}
use qing_zhou.Common.Int.{ℤ}
use qing_zhou.TrafficStatus.{
  StatusSample, StatusPoint, TrafficStatus, sort_samples, in_window, put_gap, add_gap, or_zero,
  is_known, deltas_between, add_sample, empty_point, put_point, count_sample, next_ts, each_sample,
  positive_or, empty_status, lead_in, aggregate_traffic_status,
}

sum_by-put_point :
    (g : StatusPoint → ℕ) (ts n : ℕ) (f : StatusPoint → StatusPoint) (ps : List StatusPoint)
    → ((p : StatusPoint) → g (f p) ≡ g p + n)
    → g (empty_point ts) ≡ 0
    → sum_by g (put_point ts f ps) ≡ sum_by g ps + n
unfolding put_point
sum_by-put_point g ts n f [] adds zero = omega (arith, adds (empty_point ts), zero)
sum_by-put_point g ts n f (p ∷ ps) adds zero = elim (Bool-cases (p.ts == ts)) [
  | inl own ↦ rw own (omega (arith, adds p))
  | inr other ↦ rw other (omega (arith, sum_by-put_point g ts n f ps adds zero))
]

-- The totals are those of the points, and `left` samples are to come.
pub record IsSummed (left : ℕ) (out : TrafficStatus) : Type 0 where
  pub rx : sum_by (λ (p : StatusPoint). p.rx_bytes) out.points ≡ out.rx_bytes
  pub tx : sum_by (λ (p : StatusPoint). p.tx_bytes) out.points ≡ out.tx_bytes
  pub samples : sum_by (λ (p : StatusPoint). p.samples) out.points + left ≡ out.sample_count
  pub deltas : out.delta_samples ≤ out.totals_samples
  pub totals : out.totals_samples + left ≤ out.sample_count

IsSummed-if :
    (left : ℕ) (c : Bool) (a b : TrafficStatus)
    → IsSummed left a
    → IsSummed left b
    → IsSummed left (if c then a else b)
IsSummed-if left true a b h k = h
IsSummed-if left false a b h k = k

add_gap-IsSummed :
    (left start end : ℕ) (out : TrafficStatus)
    → IsSummed left out
    → IsSummed left (add_gap start end out)
unfolding add_gap
add_gap-IsSummed left start end out h =
    IsSummed-if left (leb end start || leb (end - start) out.gap_after_sec) out _ h (
      IsSummed-if left (leb end out.from || leb out.to start) out (put_gap start end out) h
        (record {
          rx = h.rx;
          tx = h.tx;
          samples = h.samples;
          deltas = h.deltas;
          totals = h.totals;
        }))

lead_in-IsSummed :
    (left : ℕ) (b : Option StatusSample) (ss : List StatusSample) (out : TrafficStatus)
    → IsSummed left out
    → IsSummed left (lead_in b ss out)
unfolding lead_in
lead_in-IsSummed left none [] out h = h
lead_in-IsSummed left (some b) [] out h = add_gap-IsSummed left b.ts out.to out h
lead_in-IsSummed left none (s ∷ ss) out h = add_gap-IsSummed left out.from s.ts out h
lead_in-IsSummed left (some b) (s ∷ ss) out h = add_gap-IsSummed left b.ts s.ts out h

-- Only a sample with totals has a difference.
known_is_valid :
    (prev : Option StatusSample) (cur : StatusSample)
    → cur.net_totals_valid ≡ false
    → (is_known (deltas_between prev cur).0 || is_known (deltas_between prev cur).1) ≡ false
unfolding deltas_between
known_is_valid none cur invalid = refl
known_is_valid (some prev) cur invalid = elim (Bool-cases prev.net_totals_valid) [
  | inl t ↦ rw (t, invalid) refl
  | inr f ↦ rw f refl
]

counted_in_order :
    (d t s left : ℕ) (known valid : Bool)
    → d ≤ t
    → t + (left + 1) ≤ s
    → (valid ≡ false → known ≡ false)
    → ((if known then d + 1 else d) ≤ (if valid then t + 1 else t))
      × ((if valid then t + 1 else t) + left ≤ s)
counted_in_order d t s left true true h k only = (omega arith, omega arith)
counted_in_order d t s left true false h k only = let clash = only refl in cc
counted_in_order d t s left false true h k only = (omega arith, omega arith)
counted_in_order d t s left false false h k only = (omega arith, omega arith)

count_sample-IsSummed :
    (left : ℕ) (prev : Option StatusSample) (cur : StatusSample) (out : TrafficStatus)
    → IsSummed (left + 1) out
    → IsSummed left (count_sample prev cur out)
unfolding count_sample add_sample
count_sample-IsSummed left prev cur out h =
    let d = deltas_between prev cur in
    let ts = cur.ts - cur.ts % out.bucket_sec in
    let f = add_sample cur d in
    let ordered =
      counted_in_order out.delta_samples out.totals_samples out.sample_count left
        (is_known d.0 || is_known d.1) cur.net_totals_valid h.deltas h.totals
        (known_is_valid prev cur) in
    record {
      rx = omega (
        arith,
        h.rx,
        sum_by-put_point (λ (p : StatusPoint). p.rx_bytes) ts (or_zero d.0) f out.points (λ p. refl)
            refl,
      );
      tx = omega (
        arith,
        h.tx,
        sum_by-put_point (λ (p : StatusPoint). p.tx_bytes) ts (or_zero d.1) f out.points (λ p. refl)
            refl,
      );
      samples = omega (
        arith,
        h.samples,
        sum_by-put_point (λ (p : StatusPoint). p.samples) ts 1 f out.points (λ p. refl) refl,
      );
      deltas = ordered.0;
      totals = ordered.1;
    }

each_sample-IsSummed :
    (prev : Option StatusSample) (ss : List StatusSample) (out : TrafficStatus)
    → IsSummed (length ss) out
    → IsSummed 0 (each_sample prev ss out)
unfolding each_sample
each_sample-IsSummed prev [] out h = h
each_sample-IsSummed prev (cur ∷ rest) out h = each_sample-IsSummed (some cur) rest _ (
    add_gap-IsSummed (length rest) cur.ts (next_ts rest out.to) (count_sample prev cur out) (
      count_sample-IsSummed (length rest) prev cur out
        (subst (λ n. IsSummed n out) (omega arith) h)))

-- The points of a window hold every byte and every sample that its totals count, in both directions,
-- and no sample counts that has no totals: the samples with a difference are at most those with totals,
-- and these at most all.
pub aggregate_traffic_status-IsSummed :
    (samples : List StatusSample) (from to : ℕ) (bucket_sec gap_after : ℤ)
    → IsSummed 0 (aggregate_traffic_status samples from to bucket_sec gap_after)
unfolding aggregate_traffic_status
aggregate_traffic_status-IsSummed samples from to bucket_sec gap_after =
    let empty = empty_status from to (positive_or 60 bucket_sec) (positive_or 150 gap_after) in
    let sorted = sort_samples samples in
    let baseline = last (λ (s : StatusSample). ltb s.ts from) sorted in
    let inside = select (in_window from to) sorted in
    IsSummed-if 0 (leb to from) empty _
      (record {
        rx = refl;
        tx = refl;
        samples = omega arith;
        deltas = omega arith;
        totals = omega arith;
      })
      (each_sample-IsSummed baseline inside _ (
        lead_in-IsSummed (length inside) baseline inside
          (record empty { sample_count = length inside })
          (record {
            rx = refl;
            tx = refl;
            samples = omega arith;
            deltas = omega arith;
            totals = omega arith;
          })))
