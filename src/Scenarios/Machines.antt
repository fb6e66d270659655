-- ===== src/Scenarios/Machines.antt =====
-- Snapshots of a machine's counters, and the leases of its collection.
use qing_zhou.Common.{
  ℕ, ◌+◌, ◌≡◌, ◌≢◌, refl, ap, arith, String, true, false, List, [], ◌∷◌, All, select, str_eq,
}
use qing_zhou.Common.Int.{pos}
use qing_zhou.Result.{err, invalid_traffic_range}
use qing_zhou.TrafficStatus.{
  StatusSample, aggregate_traffic_status, in_window, sort_samples, normalize_traffic_status_range,
}
use qing_zhou.TrafficStatus.Sums.{IsSummed, aggregate_traffic_status-IsSummed}
use qing_zhou.TrafficStatus.Steady.{final_sample, aggregate_traffic_status-bytes}
use qing_zhou.TrafficStatus.Silence.{IsSilent, aggregate_traffic_status-IsSilent}
use qing_zhou.Traffic.Leases.{Lease, acquire_traffic_lease, Request, requests}
use qing_zhou.Traffic.Leases.Exclusion.{acquire_traffic_lease-exclusive}

abbrev sample : ℕ → ℕ → ℕ → StatusSample
sample ts rx tx = record {
  ts = ts;
  net_rx_total = rx;
  net_tx_total = tx;
  net_totals_valid = true;
  uptime = ts;
  tcp_connections = 4;
}

-- out of order, with a report missing between 160 and 400
abbrev reports : List StatusSample
reports = sample 400 90 45 ∷ sample 100 50 20 ∷ sample 160 60 30 ∷ sample 40 10 5 ∷ []

seen_bytes : (aggregate_traffic_status reports 60 420 (pos 60) (pos 150)).rx_bytes ≡ 80
unfolding aggregate_traffic_status
seen_bytes = refl

seen_gaps :
    (aggregate_traffic_status reports 60 420 (pos 60) (pos 150)).gaps
    ≡ (record { from = 160; to = 400; seconds = 240 } ∷ [])
unfolding aggregate_traffic_status
seen_gaps = refl

clamped :
    normalize_traffic_status_range (pos 5) (pos 9000000) (pos 8000000) ≡ err invalid_traffic_range
unfolding normalize_traffic_status_range
clamped = refl

aggregate_traffic_status-IsSummed_example :
    IsSummed 0 (aggregate_traffic_status reports 60 420 (pos 60) (pos 150))
aggregate_traffic_status-IsSummed_example =
    aggregate_traffic_status-IsSummed reports 60 420 (pos 60) (pos 150)

aggregate_traffic_status-bytes_example :
    let out = aggregate_traffic_status reports 60 420 (pos 60) (pos 150) in
    let end = final_sample (sample 40 10 5) (select (in_window 60 420) (sort_samples reports)) in
    (out.rx_bytes + 10 ≡ end.net_rx_total) × (out.tx_bytes + 5 ≡ end.net_tx_total)
unfolding sort_samples
aggregate_traffic_status-bytes_example =
    aggregate_traffic_status-bytes reports 60 420 (pos 60) (pos 150) (sample 40 10 5) refl refl (
      refl,
      refl,
      omega arith,
      omega arith,
      (refl, refl, omega arith, omega arith, (refl, refl, omega arith, omega arith, tt)),
    )

aggregate_traffic_status-IsSilent_example :
    All
      (IsSilent reports 60 420 150)
      (aggregate_traffic_status reports 60 420 (pos 60) (pos 150)).gaps
aggregate_traffic_status-IsSilent_example =
    aggregate_traffic_status-IsSilent reports 60 420 (pos 60) (pos 150)

-- a lease of node 3 that ran out, and one of node 4
abbrev leases : List Lease
leases =
    record { server_id = 3; owner = "old"; expires_at = 90 }
    ∷ record { server_id = 4; owner = "b"; expires_at = 130 }
    ∷ []

foreign : ◌≢◌ {A = String} "b" "a"
foreign e = let clash = ap (λ (s : String). str_eq s "a") e in cc

abbrev asked : List Request
asked = Request.acquire 3 "b" 110 ∷ Request.acquire 4 "b" 120 ∷ Request.release 3 "b" ∷ []

lease_taken : (acquire_traffic_lease 3 "a" 100 leases).0 ≡ true
unfolding acquire_traffic_lease
lease_taken = refl

acquire_traffic_lease-exclusive_example :
    (acquire_traffic_lease 3 "b" 159 (requests asked (acquire_traffic_lease 3 "a" 100 leases).1)).0
    ≡ false
acquire_traffic_lease-exclusive_example =
    acquire_traffic_lease-exclusive 3 "a" "b" 100 159 leases asked ((refl, tt), (tt, tt))
      lease_taken ((foreign, omega arith), ((foreign, omega arith), (foreign, tt))) foreign
      (omega arith)
