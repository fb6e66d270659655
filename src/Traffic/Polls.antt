-- ===== src/Traffic/Polls.antt =====
-- internal/store/traffic_ledger.go: a persisted poll is processed, `processTrafficPoll`, with
-- `boundTrafficAccountTargets` of traffic_ledger_binding.go.
use qing_zhou.Common.{
  ℕ, ◌+◌, String, Bool, true, false, not, ◌&&◌, Option, none, some, List, [], ◌∷◌, ◌++◌, map, ltb,
  leb, larger, ◌==◌, str_eq, any, first, select, update_where, if◌then◌else◌,
}
use qing_zhou.Result.{Result, Error, ok, err, no_rows, or_fail, ◌>>=◌}
use qing_zhou.Bucket.{Bucket}
use qing_zhou.Ownership.{account_meter_bucket}
use qing_zhou.Traffic.Tables.{
  TrafficPoll, CollectionMode, is_cumulative, is_direct, GapReason, TrafficBinding, Observation,
  MeteringState, PollRow, Meter, UsageDelta,
}
use qing_zhou.Traffic.Identity.{traffic_gap, try_identity, first_failure}

-- a binding of the poll whose owner is known and whose row is not chosen yet
abbrev pub is_open_account : String → TrafficBinding → Bool
is_open_account poll_id b =
    str_eq b.poll_id poll_id && (is_direct b.source_kind && b.bucket_id == 0)

-- SELECT DISTINCT user_id
unfoldable pub distinct_ids : List ℕ → List ℕ
distinct_ids [] = []
distinct_ids (n ∷ ns) =
    let rest = distinct_ids ns in if any (λ k. k == n) rest then rest else n ∷ rest

-- the UPDATE that freezes the row of an account
unfoldable pub freeze : String → ℕ → Bucket → List TrafficBinding → List TrafficBinding
freeze poll_id user_id b =
    update_where (λ (x : TrafficBinding). is_open_account poll_id x && x.user_id == user_id)
      (λ (x : TrafficBinding). record x {
        bucket_id = b.id;
        package_id = b.package_id;
        bucket_kind = some b.kind;
      })

-- the gap that a new process of the node leaves
abbrev pub restarted : TrafficPoll → MeteringState → Bool
restarted p s =
    is_cumulative s.mode
    && (not (str_eq s.epoch "") && (not (str_eq s.epoch p.epoch) && ltb s.last_sequence p.sequence))

unfoldable pub note_restart : TrafficPoll → Meter → Meter
unfolding traffic_gap
note_restart p m =
    if is_cumulative p.mode
      && any (λ (s : MeteringState). s.server_id == p.server_id && restarted p s) m.states
    then traffic_gap p GapReason.process_restart_tail_unknown m
    else m

-- the row of `traffic_metering_state` that a processed poll writes
unfoldable pub state_of : TrafficPoll → Bool → MeteringState
state_of p clean = record {
  server_id = p.server_id;
  mode = if p.transition then CollectionMode.cumulative else p.mode;
  epoch = p.epoch;
  last_sequence = p.sequence;
  last_success = if clean then p.observed_at else 0;
  last_attempt = p.observed_at;
  failures = 0;
  status = if not clean then "pending" else if p.transition then "transitioning" else "ok";
}

-- its ON CONFLICT(server_id) DO UPDATE … WHERE excluded.last_sequence>=last_sequence
unfoldable pub put_state : MeteringState → List MeteringState → List MeteringState
put_state new rows =
    if any (λ (s : MeteringState). s.server_id == new.server_id) rows
    then update_where
        (λ (s : MeteringState).
          s.server_id == new.server_id && leb s.last_sequence new.last_sequence)
        (λ (s : MeteringState). record new {
          mode = if is_cumulative s.mode then s.mode else new.mode;
          last_success = larger s.last_success new.last_success;
          last_attempt = larger s.last_attempt new.last_attempt;
        })
        rows
    else rows ++ new ∷ []

abbrev pub is_clean : Option Error → Bool
is_clean none = true
is_clean (some _) = false

-- what a poll's processing ends with: the poll is done or stays pending, and the node's state follows
unfoldable pub close_poll : TrafficPoll → (ℕ × Option Error) × Meter → (ℕ × Option Error) × Meter
unfolding put_state state_of
close_poll p ((applied, failure), m) = (
  (applied, failure),
  record m {
    polls =
        update_where (λ (r : PollRow). str_eq r.poll.id p.id)
          (λ (r : PollRow). record r { done = is_clean failure }) m.polls;
    states = put_state (state_of p (is_clean failure)) m.states;
  },
)

module _ (local_day utc_day : ℕ → String) (free_group : ℕ) (plan_groups : ℕ → List ℕ) where
  -- the rows that the accounts of a poll spend, and the first account without one
  unfoldable pub freeze_targets : String → ℕ → List ℕ → Option Error × Meter → Option Error × Meter
  unfolding freeze
  freeze_targets poll_id now [] a = a
  freeze_targets poll_id now (u ∷ us) (failure, m) =
      freeze_targets poll_id now us (elim (account_meter_bucket free_group plan_groups u now m.db) [
        | none ↦ (first_failure failure no_rows, m)
        | some o ↦ (failure, record m { bindings = freeze poll_id u o.bucket m.bindings })
      ])

  -- the loop over the names; a name that has an observation of the poll is passed over
  unfoldable pub each_identity :
      TrafficPoll
      → List (String × UsageDelta)
      → Meter
      → (ℕ × Option Error) × Meter
      → (ℕ × Option Error) × Meter
  unfolding try_identity
  each_identity p [] batch a = a
  each_identity p ((name, d) ∷ rest) batch a = each_identity p rest batch (
      if any (λ (o : Observation). str_eq o.poll_id p.id && str_eq o.counter_name name)
        batch.observations
      then a
      else try_identity local_day utc_day p name batch a)

  -- the transaction of `processTrafficPoll`
  unfoldable pub process_pending : TrafficPoll → ℕ → Meter → (ℕ × Option Error) × Meter
  unfolding freeze_targets note_restart each_identity close_poll distinct_ids
  process_pending p now m =
      let users =
        distinct_ids
          (map (λ (b : TrafficBinding). b.user_id) (select (is_open_account p.id) m.bindings)) in
      let (failure, frozen) = freeze_targets p.id now users (none, m) in
      let batch = note_restart p frozen in
      close_poll p (each_identity p p.traffic batch ((0, failure), batch))

  -- `processTrafficPoll`: the number of debits, and the first error, which leaves the poll pending
  unfoldable pub process_traffic_poll : String → ℕ → Meter → Result ((ℕ × Option Error) × Meter)
  unfolding process_pending
  process_traffic_poll id now m = do
    row ← or_fail (first (λ (r : PollRow). str_eq r.poll.id id) m.polls) no_rows
    ok (if row.done then ((0, none), m) else process_pending row.poll now m)

  unfoldable pub retry_each : List String → ℕ → (ℕ × List Error) × Meter → (ℕ × List Error) × Meter
  unfolding process_traffic_poll
  retry_each [] now a = a
  retry_each (id ∷ ids) now ((total, errors), m) =
      retry_each ids now (elim (process_traffic_poll id now m) [
        | err e ↦ ((total, errors ++ e ∷ []), m)
        | ok ((n, none), m') ↦ ((total + n, errors), m')
        | ok ((n, some e), m') ↦ ((total + n, errors ++ e ∷ []), m')
      ])
