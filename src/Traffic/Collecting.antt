-- ===== src/Traffic/Collecting.antt =====
-- internal/store/traffic_ledger.go: what a collector of counters writes around a poll: the sequence, the
-- intent of a reset, the retries, and the failures. The new id of a row is an argument.
use qing_zhou.Common.{
  ℕ, ◌+◌, ◌-◌, String, false, not, ◌&&◌, ◌||◌, Option, none, some, List, [], ◌∷◌, ◌++◌, map, leb,
  ◌==◌, str_eq, any, select, update_where, if◌then◌else◌,
}
use qing_zhou.Result.{
  Result, Error, ok, invalid_reset_intent, invalid_metering_gap, duplicate_row, fail_if, or_fail,
  ◌>>=◌, ◌>>◌,
}
use qing_zhou.Traffic.Tables.{
  UsageDelta, TrafficPoll, CollectionMode, is_cumulative, GapReason, MeteringGap, MeteringState,
  PollRow, Meter,
}
use qing_zhou.Traffic.Identity.{same_gap}
use qing_zhou.Traffic.Polls.{retry_each}

-- `NewTrafficPoll`
unfoldable pub new_traffic_poll : String → ℕ → ℕ → List (String × UsageDelta) → TrafficPoll
new_traffic_poll id now server_id traffic = record {
  sequence = 0;
  transition = false;
  id = id;
  server_id = server_id;
  observed_at = now;
  mode = CollectionMode.reset;
  epoch = "";
  baseline = false;
  traffic = traffic;
}

-- `NextTrafficSequence`
unfoldable pub next_traffic_sequence : Meter → ℕ × Meter
next_traffic_sequence m = (m.sequence + 1, record m { sequence = m.sequence + 1 })

-- an INSERT without OR IGNORE: a row of the same server, poll and reason is an error
unfoldable pub insert_gap : ℕ → ℕ → GapReason → String → Meter → Result Meter
insert_gap server_id ts reason poll_id m = do
  fail_if
      (any
        (λ (g : MeteringGap).
          g.server_id == server_id && (str_eq g.poll_id poll_id && same_gap g.reason reason))
        m.gaps)
      duplicate_row
  ok (record m {
    gaps =
        m.gaps
        ++ record { server_id = server_id; ts = ts; reason = reason; poll_id = poll_id } ∷ [];
  })

-- `BeginTrafficReset`
unfoldable pub begin_traffic_reset : TrafficPoll → Meter → Result Meter
unfolding insert_gap
begin_traffic_reset p m = do
  fail_if (str_eq p.id "" || (is_cumulative p.mode || p.observed_at == 0)) invalid_reset_intent
  insert_gap p.server_id p.observed_at GapReason.reset_outcome_unknown p.id m

-- ORDER BY sequence
unfoldable pub insert_poll : PollRow → List PollRow → List PollRow
insert_poll r [] = r ∷ []
insert_poll r (s ∷ ss) =
    let rest = insert_poll r ss in
    if leb r.poll.sequence s.poll.sequence then r ∷ s ∷ ss else s ∷ rest

unfoldable pub sort_polls : List PollRow → List PollRow
unfolding insert_poll
sort_polls [] = []
sort_polls (r ∷ rs) = insert_poll r (sort_polls rs)

-- LIMIT n
abbrev pub limit {ℓ} : {A : Type ℓ} → ℕ → List A → List A
limit n [] = []
limit n (x ∷ xs) = let rest = limit (n - 1) xs in if n == 0 then [] else x ∷ rest

-- the polls that a retry takes up
unfoldable pub pending_ids : Meter → List String
unfolding sort_polls
pending_ids m =
    map (λ (r : PollRow). r.poll.id)
      (limit 100 (sort_polls (select (λ (r : PollRow). not r.done) m.polls)))

module _ (local_day utc_day : ℕ → String) (free_group : ℕ) (plan_groups : ℕ → List ℕ) where
  -- `RetryPendingTrafficPolls`
  unfoldable pub retry_pending_traffic_polls : ℕ → Meter → (ℕ × List Error) × Meter
  unfolding pending_ids retry_each
  retry_pending_traffic_polls now m =
      retry_each local_day utc_day free_group plan_groups (pending_ids m) now ((0, []), m)

-- the statuses that a failure may have
unfoldable pub failure_status : String → String
failure_status status =
    if any (str_eq status)
      ("unavailable" ∷ "unsupported" ∷ "disabled" ∷ "legacy" ∷ "legacy_identity_unverified" ∷ [])
    then status
    else "unavailable"

-- `RecordTrafficCollectionFailure`; the column `error`, a text for the reader, is left out
unfoldable pub record_traffic_collection_failure : ℕ → String → ℕ → Meter → Meter
unfolding failure_status
record_traffic_collection_failure server_id status now m = record m {
  states =
      if any (λ (s : MeteringState). s.server_id == server_id) m.states
      then update_where (λ (s : MeteringState). s.server_id == server_id)
          (λ (s : MeteringState). record s {
            last_attempt = now;
            failures = s.failures + 1;
            status = failure_status status;
          })
          m.states
      else m.states
        ++ record {
          server_id = server_id;
          mode = CollectionMode.reset;
          epoch = "";
          last_sequence = 0;
          last_success = 0;
          last_attempt = now;
          failures = 1;
          status = failure_status status;
        }
          ∷ [];
}

-- the reasons of `RecordTrafficBoundaryGap`
unfoldable pub boundary_reason : String → Option GapReason
boundary_reason reason =
    if str_eq reason "transition_reset_uncertain"
    then some GapReason.transition_reset_uncertain
    else if str_eq reason "process_changed_during_read"
    then some GapReason.process_changed_during_read
    else if str_eq reason "cumulative_transition_incomplete"
    then some GapReason.cumulative_transition_incomplete
    else if str_eq reason "planned_config_restart_tail"
    then some GapReason.planned_config_restart_tail
    else none

-- `RecordTrafficBoundaryGap`
unfoldable pub record_traffic_boundary_gap : String → ℕ → ℕ → String → Meter → Result Meter
unfolding boundary_reason insert_gap
record_traffic_boundary_gap id now server_id reason m = do
  r ← or_fail (boundary_reason reason) invalid_metering_gap
  insert_gap server_id now r id m
