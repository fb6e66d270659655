-- ===== src/TrafficStatus.antt =====
-- internal/store/traffic_status.go: what the stored snapshots of a machine's counters say about a
-- stretch of time.
pub mod Sums
pub mod Steady
pub mod Sorting
pub mod Silence
use qing_zhou.Common.{
  ℕ, ◌+◌, ◌-◌, ◌*◌, ◌%◌, Bool, true, false, ◌&&◌, ◌||◌, Option, none, some, List, [], ◌∷◌, ◌++◌,
  length, ltb, leb, larger, ◌==◌, any, last, select, update_where, if◌then◌else◌,
}
use qing_zhou.Common.Int.{ℤ, pos, negsuc}
use qing_zhou.Result.{Result, ok, err, invalid_traffic_range, fail_if, ◌>>=◌, ◌>>◌}

-- `TrafficStatusSample`
pub record StatusSample : Type 0 where
  pub ts : ℕ
  pub net_rx_total : ℕ
  pub net_tx_total : ℕ
  pub net_totals_valid : Bool
  pub uptime : ℕ
  pub tcp_connections : ℕ

-- `TrafficStatusPoint`
pub record StatusPoint : Type 0 where
  pub ts : ℕ
  pub rx_bytes : ℕ
  pub tx_bytes : ℕ
  pub connections : ℕ
  pub samples : ℕ
  pub totals_valid : Bool

-- `TrafficStatusGap`
pub record StatusGap : Type 0 where
  pub from : ℕ
  pub to : ℕ
  pub seconds : ℕ

-- `TrafficStatus`
pub record TrafficStatus : Type 0 where
  pub server_id : ℕ
  pub from : ℕ
  pub to : ℕ
  pub bucket_sec : ℕ
  pub gap_after_sec : ℕ
  pub sample_count : ℕ
  pub delta_samples : ℕ
  pub totals_samples : ℕ
  pub rx_bytes : ℕ
  pub tx_bytes : ℕ
  pub peak_connections : ℕ
  pub points : List StatusPoint
  pub gaps : List StatusGap

abbrev pub max_span : ℕ
max_span = 30 * 24 * 3600

abbrev pub retention : ℕ
retention = 35 * 24 * 3600

-- `NormalizeTrafficStatusRange` on numbers that are not negative; where `now` is younger than the
-- retention, the oldest instant is 0, which excludes nothing
unfoldable pub clamp_range : ℕ → ℕ → ℕ → Result (ℕ × ℕ)
clamp_range from to now = do
  fail_if (from == 0 || (to == 0 || (now == 0 || leb to from))) invalid_traffic_range
  fail_if (ltb max_span (to - from)) invalid_traffic_range
  let oldest = now - retention
  fail_if (leb to oldest) invalid_traffic_range
  let start = larger from oldest
  let end = if ltb now to then now else to
  fail_if (leb end start) invalid_traffic_range
  ok (start, end)

unfoldable pub normalize_traffic_status_range : ℤ → ℤ → ℤ → Result (ℕ × ℕ)
unfolding clamp_range
normalize_traffic_status_range (pos from) (pos to) (pos now) = clamp_range from to now
normalize_traffic_status_range (negsuc _) to now = err invalid_traffic_range
normalize_traffic_status_range (pos _) (negsuc _) now = err invalid_traffic_range
normalize_traffic_status_range (pos _) (pos _) (negsuc _) = err invalid_traffic_range

-- `TrafficStatusBucketSec`
unfoldable pub traffic_status_bucket_sec : ℕ → ℕ
traffic_status_bucket_sec span =
    if leb span (48 * 3600) then 60 else if leb span (7 * 24 * 3600) then 300 else 900

-- `counterDelta`; `none` is its false
unfoldable pub counter_delta : ℕ → ℕ → Bool → Option ℕ
counter_delta prev cur rebooted =
    if leb prev cur then some (cur - prev) else if rebooted then some cur else none

-- `sort.SliceStable` by the time
unfoldable pub insert_sample : StatusSample → List StatusSample → List StatusSample
insert_sample s [] = s ∷ []
insert_sample s (t ∷ ts) =
    let rest = insert_sample s ts in if leb s.ts t.ts then s ∷ t ∷ ts else t ∷ rest

unfoldable pub sort_samples : List StatusSample → List StatusSample
unfolding insert_sample
sort_samples [] = []
sort_samples (s ∷ ss) = insert_sample s (sort_samples ss)

abbrev pub in_window : ℕ → ℕ → StatusSample → Bool
in_window from to s = leb from s.ts && leb s.ts to

abbrev pub put_gap : ℕ → ℕ → TrafficStatus → TrafficStatus
put_gap start end out = record out {
  gaps = out.gaps ++ record { from = start; to = end; seconds = end - start } ∷ [];
}

-- `addGap`
unfoldable pub add_gap : ℕ → ℕ → TrafficStatus → TrafficStatus
add_gap start end out =
    if leb end start || leb (end - start) out.gap_after_sec
    then out
    else if leb end out.from || leb out.to start
    then out
    else put_gap start end out

abbrev pub or_zero : Option ℕ → ℕ
or_zero none = 0
or_zero (some n) = n

abbrev pub is_known : Option ℕ → Bool
is_known none = false
is_known (some _) = true

-- what the counters of the two directions say between two samples
unfoldable pub deltas_between : Option StatusSample → StatusSample → Option ℕ × Option ℕ
unfolding counter_delta
deltas_between none cur = (none, none)
deltas_between (some prev) cur =
    let rebooted = ltb cur.uptime prev.uptime in
    if prev.net_totals_valid && cur.net_totals_valid
    then (
      counter_delta prev.net_rx_total cur.net_rx_total rebooted,
      counter_delta prev.net_tx_total cur.net_tx_total rebooted,
    )
    else (none, none)

-- what a sample adds to its point
unfoldable pub add_sample : StatusSample → Option ℕ × Option ℕ → StatusPoint → StatusPoint
add_sample cur (rx, tx) p = record p {
  samples = p.samples + 1;
  connections = cur.tcp_connections;
  rx_bytes = p.rx_bytes + or_zero rx;
  tx_bytes = p.tx_bytes + or_zero tx;
  totals_valid = p.totals_valid || (is_known rx || is_known tx);
}

abbrev pub empty_point : ℕ → StatusPoint
empty_point ts = record {
  ts = ts;
  rx_bytes = 0;
  tx_bytes = 0;
  connections = 0;
  samples = 0;
  totals_valid = false;
}

-- the map of points with the order in which they came
unfoldable pub put_point : ℕ → (StatusPoint → StatusPoint) → List StatusPoint → List StatusPoint
put_point ts f [] = f (empty_point ts) ∷ []
put_point ts f (p ∷ ps) = let rest = put_point ts f ps in if p.ts == ts then f p ∷ ps else p ∷ rest

-- the body of the loop
unfoldable pub count_sample : Option StatusSample → StatusSample → TrafficStatus → TrafficStatus
unfolding deltas_between add_sample put_point
count_sample prev cur out =
    let d = deltas_between prev cur in
    record out {
      peak_connections = larger out.peak_connections cur.tcp_connections;
      totals_samples = if cur.net_totals_valid then out.totals_samples + 1 else out.totals_samples;
      delta_samples =
          if is_known d.0 || is_known d.1 then out.delta_samples + 1 else out.delta_samples;
      rx_bytes = out.rx_bytes + or_zero d.0;
      tx_bytes = out.tx_bytes + or_zero d.1;
      points = put_point (cur.ts - cur.ts % out.bucket_sec) (add_sample cur d) out.points;
    }

-- the time of the next sample, or the end of the window after the last one
abbrev pub next_ts : List StatusSample → ℕ → ℕ
next_ts [] to = to
next_ts (s ∷ ss) to = s.ts

unfoldable pub each_sample : Option StatusSample → List StatusSample → TrafficStatus → TrafficStatus
unfolding count_sample add_gap
each_sample prev [] out = out
each_sample prev (cur ∷ rest) out =
    each_sample (some cur) rest (add_gap cur.ts (next_ts rest out.to) (count_sample prev cur out))

abbrev pub positive_or : ℕ → ℤ → ℕ
positive_or d (pos n) = if n == 0 then d else n
positive_or d (negsuc _) = d

abbrev pub empty_status : ℕ → ℕ → ℕ → ℕ → TrafficStatus
empty_status from to bucket_sec gap_after_sec = record {
  server_id = 0;
  from = from;
  to = to;
  bucket_sec = bucket_sec;
  gap_after_sec = gap_after_sec;
  sample_count = 0;
  delta_samples = 0;
  totals_samples = 0;
  rx_bytes = 0;
  tx_bytes = 0;
  peak_connections = 0;
  points = [];
  gaps = [];
}

-- the silence before the first sample; with none at all, only one that a sample started
unfoldable pub lead_in : Option StatusSample → List StatusSample → TrafficStatus → TrafficStatus
unfolding add_gap
lead_in none [] out = out
lead_in (some b) [] out = add_gap b.ts out.to out
lead_in none (s ∷ ss) out = add_gap out.from s.ts out
lead_in (some b) (s ∷ ss) out = add_gap b.ts s.ts out

-- `AggregateTrafficStatus`
unfoldable pub aggregate_traffic_status : List StatusSample → ℕ → ℕ → ℤ → ℤ → TrafficStatus
unfolding sort_samples lead_in each_sample
aggregate_traffic_status samples from to bucket_sec gap_after =
    let empty = empty_status from to (positive_or 60 bucket_sec) (positive_or 150 gap_after) in
    if leb to from
    then empty
    else let sorted = sort_samples samples in
      let baseline = last (λ (s : StatusSample). ltb s.ts from) sorted in
      let inside = select (in_window from to) sorted in
      each_sample baseline inside
        (lead_in baseline inside (record empty { sample_count = length inside }))

-- `QueryTrafficStatus`, whose rows are those of the machine, in the order of their times
unfoldable pub query_traffic_status : List StatusSample → ℕ → ℤ → ℤ → ℤ → ℤ → Result TrafficStatus
unfolding normalize_traffic_status_range traffic_status_bucket_sec aggregate_traffic_status
query_traffic_status rows server_id from to now gap_after = do
  range ← normalize_traffic_status_range from to now
  let base = last (λ (s : StatusSample). ltb s.ts range.0) rows
  let inside = select (in_window range.0 range.1) rows
  let seen : List StatusSample = elim base [ some b ↦ inside ++ b ∷ [] | none ↦ inside ]
  let status =
      aggregate_traffic_status seen range.0 range.1
        (pos (traffic_status_bucket_sec (range.1 - range.0))) gap_after
  ok (record status { server_id = server_id; from = range.0; to = range.1 })
