-- ===== src/TrafficStatus/Steady.antt =====
-- internal/store/traffic_status.go: the bytes of a window in which no counter falls.
use qing_zhou.Common.{
  ℕ, ◌+◌, ◌-◌, ◌≤◌, ◌≡◌, refl, arith, inl, inr, Bool, true, false, ◌||◌, Option, none, some, List,
  [], ◌∷◌, length, ltb, leb, last, select, Bool-cases,
}
use qing_zhou.Common.Int.{ℤ}
use qing_zhou.TrafficStatus.{
  StatusSample, TrafficStatus, counter_delta, sort_samples, in_window, add_gap, or_zero,
  deltas_between, count_sample, next_ts, each_sample, positive_or, empty_status, lead_in,
  aggregate_traffic_status,
}

-- From a sample on, every sample has totals and none is below the one before it.
abbrev pub IsSteady : StatusSample → List StatusSample → Type 0
IsSteady prev [] = Unit
IsSteady prev (s ∷ ss) =
    (prev.net_totals_valid ≡ true)
    × (s.net_totals_valid ≡ true)
    × (prev.net_rx_total ≤ s.net_rx_total)
    × (prev.net_tx_total ≤ s.net_tx_total)
    × IsSteady s ss

abbrev pub final_sample : StatusSample → List StatusSample → StatusSample
final_sample prev [] = prev
final_sample prev (s ∷ ss) = final_sample s ss

add_gap-bytes :
    (start end : ℕ) (out : TrafficStatus)
    → ((add_gap start end out).rx_bytes ≡ out.rx_bytes)
      × ((add_gap start end out).tx_bytes ≡ out.tx_bytes)
unfolding add_gap
add_gap-bytes start end out =
    elim (Bool-cases (leb end start || leb (end - start) out.gap_after_sec)) [
      | inl brief ↦ rw brief (refl, refl)
      | inr long ↦ elim (Bool-cases (leb end out.from || leb out.to start)) [
        | inl outside ↦ rw (long, outside) (refl, refl)
        | inr within ↦ rw (long, within) (refl, refl)
      ]
    ]

lead_in-bytes :
    (b : Option StatusSample) (ss : List StatusSample) (out : TrafficStatus)
    → ((lead_in b ss out).rx_bytes ≡ out.rx_bytes) × ((lead_in b ss out).tx_bytes ≡ out.tx_bytes)
unfolding lead_in
lead_in-bytes none [] out = (refl, refl)
lead_in-bytes (some b) [] out = add_gap-bytes b.ts out.to out
lead_in-bytes none (s ∷ ss) out = add_gap-bytes out.from s.ts out
lead_in-bytes (some b) (s ∷ ss) out = add_gap-bytes b.ts s.ts out

steady_delta : (a b : ℕ) (rebooted : Bool) → a ≤ b → a + or_zero (counter_delta a b rebooted) ≡ b
unfolding counter_delta
steady_delta a b rebooted le = ground arith

count_sample-bytes :
    (prev cur : StatusSample) (out : TrafficStatus)
    → IsSteady prev (cur ∷ [])
    → ((count_sample (some prev) cur out).rx_bytes + prev.net_rx_total
        ≡ out.rx_bytes + cur.net_rx_total)
      × ((count_sample (some prev) cur out).tx_bytes + prev.net_tx_total
          ≡ out.tx_bytes + cur.net_tx_total)
unfolding count_sample deltas_between
count_sample-bytes prev cur out (valid, here, up, down, _) =
    rw (valid, here)
      (
        omega (
          arith,
          steady_delta prev.net_rx_total cur.net_rx_total (ltb cur.uptime prev.uptime) up,
        ),
        omega (
          arith,
          steady_delta prev.net_tx_total cur.net_tx_total (ltb cur.uptime prev.uptime) down,
        ),
      )

each_sample-bytes :
    (prev : StatusSample) (ss : List StatusSample) (out : TrafficStatus)
    → IsSteady prev ss
    → ((each_sample (some prev) ss out).rx_bytes + prev.net_rx_total
        ≡ out.rx_bytes + (final_sample prev ss).net_rx_total)
      × ((each_sample (some prev) ss out).tx_bytes + prev.net_tx_total
          ≡ out.tx_bytes + (final_sample prev ss).net_tx_total)
unfolding each_sample
each_sample-bytes prev [] out h = (refl, refl)
each_sample-bytes prev (cur ∷ rest) out (valid, here, up, down, steady) =
    let counted = count_sample (some prev) cur out in
    let next = add_gap cur.ts (next_ts rest out.to) counted in
    let same = add_gap-bytes cur.ts (next_ts rest out.to) counted in
    let one = count_sample-bytes prev cur out (valid, here, up, down, tt) in
    let all = each_sample-bytes cur rest next steady in
    (omega (arith, same.0, one.0, all.0), omega (arith, same.1, one.1, all.1))

-- Where a sample before the window is the baseline, every sample from it on has totals, and no counter
-- falls: the bytes of the window, in each direction, are what the counter of its last sample is above
-- the baseline's, however the samples came in.
pub aggregate_traffic_status-bytes :
    (samples : List StatusSample) (from to : ℕ) (bucket_sec gap_after : ℤ) (b : StatusSample)
    → leb to from ≡ false
    → last (λ (s : StatusSample). ltb s.ts from) (sort_samples samples) ≡ some b
    → IsSteady b (select (in_window from to) (sort_samples samples))
    → let out = aggregate_traffic_status samples from to bucket_sec gap_after in
      let end = final_sample b (select (in_window from to) (sort_samples samples)) in
      (out.rx_bytes + b.net_rx_total ≡ end.net_rx_total)
      × (out.tx_bytes + b.net_tx_total ≡ end.net_tx_total)
unfolding aggregate_traffic_status
aggregate_traffic_status-bytes samples from to bucket_sec gap_after b ahead found steady =
    let empty = empty_status from to (positive_or 60 bucket_sec) (positive_or 150 gap_after) in
    let inside = select (in_window from to) (sort_samples samples) in
    let start = record empty { sample_count = length inside } in
    let led = lead_in-bytes (some b) inside start in
    let all = each_sample-bytes b inside (lead_in (some b) inside start) steady in
    rw (ahead, found) (omega (arith, led.0, all.0), omega (arith, led.1, all.1))
