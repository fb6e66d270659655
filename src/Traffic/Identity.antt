-- ===== src/Traffic/Identity.antt =====
-- internal/store/traffic_ledger.go: one counter of a poll, `processTrafficIdentity`.
use qing_zhou.Common.{
  ℕ, ◌+◌, ◌-◌, String, Bool, true, false, not, ◌&&◌, ◌||◌, Option, none, some, List, [], ◌∷◌, ◌++◌,
  ltb, leb, ◌==◌, str_eq, any, first, update_where, if◌then◌else◌,
}
use qing_zhou.Result.{
  Result, Error, ok, err, traffic_pending, binding_unavailable, target_unavailable, fail_if,
  or_fail, ◌>>=◌, ◌>>◌,
}
use qing_zhou.Traffic.Tables.{
  UsageDelta, no_usage, TrafficPoll, is_cumulative, is_direct, is_ambiguous, same_kind, Quality,
  GapReason, TrafficBinding, Observation, Cursor, MeteringGap, Sample, MachineDay, PollRow, Meter,
  is_free_kind,
}
use qing_zhou.Traffic.{safe_apply_bucket_usage}

-- the entry of a name in the map of a poll; a Go map answers with the zero value for a missing one
unfoldable pub usage_of : String → List (String × UsageDelta) → UsageDelta
usage_of name [] = no_usage
usage_of name ((n, d) ∷ rest) = if str_eq n name then d else usage_of name rest

abbrev pub same_gap : GapReason → GapReason → Bool
same_gap GapReason.unanchored_baseline GapReason.unanchored_baseline = true
same_gap GapReason.out_of_order_snapshot GapReason.out_of_order_snapshot = true
same_gap GapReason.unexpected_counter_reset GapReason.unexpected_counter_reset = true
same_gap GapReason.process_restart_tail_unknown GapReason.process_restart_tail_unknown = true
same_gap GapReason.reset_outcome_unknown GapReason.reset_outcome_unknown = true
same_gap GapReason.relay_source_mismatch GapReason.relay_source_mismatch = true
same_gap GapReason.relay_identity_collision GapReason.relay_identity_collision = true
same_gap GapReason.legacy_relay_provenance_unknown GapReason.legacy_relay_provenance_unknown = true
same_gap GapReason.transition_reset_uncertain GapReason.transition_reset_uncertain = true
same_gap GapReason.process_changed_during_read GapReason.process_changed_during_read = true
same_gap GapReason.cumulative_transition_incomplete GapReason.cumulative_transition_incomplete =
    true
same_gap GapReason.planned_config_restart_tail GapReason.planned_config_restart_tail = true
same_gap _ _ = false

-- `trafficGap`: INSERT OR IGNORE, unique by server, poll and reason
unfoldable pub traffic_gap : TrafficPoll → GapReason → Meter → Meter
traffic_gap p reason m =
    if any
      (λ (g : MeteringGap).
        g.server_id == p.server_id && (str_eq g.poll_id p.id && same_gap g.reason reason))
      m.gaps
    then m
    else record m {
      gaps =
          m.gaps
          ++ record { server_id = p.server_id; ts = p.observed_at; reason = reason; poll_id = p.id }
            ∷ [];
    }

unfoldable pub note_gap : TrafficPoll → Option GapReason → Meter → Meter
unfolding traffic_gap
note_gap p none m = m
note_gap p (some reason) m = traffic_gap p reason m

-- what a snapshot of a counter comes down to: the usage since the last one, its quality, the gap that
-- it shows, and the reading that becomes the high-water mark
pub record Reading : Type 0 where
  pub delta : UsageDelta
  pub quality : Quality
  pub gap : Option GapReason
  pub mark : Option UsageDelta

-- the switch on the cursor
unfoldable pub read_counter : TrafficPoll → UsageDelta → Option Cursor → Reading
read_counter p raw none =
    if p.baseline
    then record {
      delta = no_usage;
      quality = Quality.baseline;
      gap = some GapReason.unanchored_baseline;
      mark = some raw;
    }
    else record { delta = raw; quality = Quality.observed; gap = none; mark = some raw }
read_counter p raw (some c) =
    if leb p.sequence c.sequence
    then record {
      delta = no_usage;
      quality = Quality.out_of_order;
      gap = some GapReason.out_of_order_snapshot;
      mark = none;
    }
    else if ltb raw.up c.up || ltb raw.down c.down
    then record {
      delta = no_usage;
      quality = Quality.counter_reset;
      gap = some GapReason.unexpected_counter_reset;
      mark = some (record { up = c.up; down = c.down });
    }
    else record {
      delta = record { up = raw.up - c.up; down = raw.down - c.down };
      quality = Quality.observed;
      gap = none;
      mark = some raw;
    }

abbrev pub is_cursor : ℕ → String → String → Cursor → Bool
is_cursor server_id name epoch c =
    c.server_id == server_id && (str_eq c.counter_name name && str_eq c.epoch epoch)

abbrev pub is_cursor_of : TrafficPoll → String → Cursor → Bool
is_cursor_of p name = is_cursor p.server_id name p.epoch

abbrev pub cursor_of : TrafficPoll → String → Meter → Option Cursor
cursor_of p name m = first (is_cursor_of p name) m.cursors

abbrev pub mark_row : TrafficPoll → String → UsageDelta → Cursor
mark_row p name d = record {
  server_id = p.server_id;
  counter_name = name;
  epoch = p.epoch;
  up = d.up;
  down = d.down;
  observed_at = p.observed_at;
  sequence = p.sequence;
}

-- INSERT INTO traffic_counter_cursors … ON CONFLICT DO UPDATE
unfoldable pub put_mark : TrafficPoll → String → Option UsageDelta → List Cursor → List Cursor
put_mark p name none rows = rows
put_mark p name (some d) rows =
    if any (is_cursor_of p name) rows
    then update_where (is_cursor_of p name) (λ _. mark_row p name d) rows
    else rows ++ mark_row p name d ∷ []

-- `batch.pending`: an earlier snapshot of the counter waits to be processed
unfoldable pub is_pending : TrafficPoll → String → Meter → Bool
is_pending p name m =
    any
      (λ (row : PollRow).
        not row.done
        && (is_cumulative row.poll.mode
            && (row.poll.server_id == p.server_id
                && (str_eq row.poll.epoch p.epoch
                    && (ltb row.poll.sequence p.sequence
                        && (any
                              (λ (b : TrafficBinding).
                                str_eq b.poll_id row.poll.id && str_eq b.counter_name name)
                              m.bindings
                            && not (
                                any
                                  (λ (o : Observation).
                                    str_eq o.poll_id row.poll.id && str_eq o.counter_name name)
                                  m.observations)))))))
      m.polls

abbrev pub is_binding_of : TrafficPoll → String → TrafficBinding → Bool
is_binding_of p name b = str_eq b.poll_id p.id && str_eq b.counter_name name

-- INSERT INTO machine_traffic_daily … ON CONFLICT DO UPDATE
unfoldable pub add_machine_day : MachineDay → List MachineDay → List MachineDay
add_machine_day d rows =
    let same = λ (r : MachineDay).
      str_eq r.day d.day
      && (r.server_id == d.server_id
          && (same_kind r.source_kind d.source_kind
              && (r.link_id == d.link_id && r.user_id == d.user_id))) in
    if any same rows
    then update_where same
        (λ (r : MachineDay). record r { up = r.up + d.up; down = r.down + d.down }) rows
    else rows ++ d ∷ []

abbrev pub has_usage : UsageDelta → Bool
has_usage d = ltb 0 d.up || ltb 0 d.down

abbrev pub observation_of : TrafficPoll → String → TrafficBinding → Reading → Observation
observation_of p name b r = record {
  poll_id = p.id;
  counter_name = name;
  server_id = p.server_id;
  ts = p.observed_at;
  source_kind = b.source_kind;
  link_id = b.link_id;
  user_id = b.user_id;
  up = r.delta.up;
  down = r.delta.down;
  quality = if is_ambiguous b.source_kind then Quality.identity_collision else r.quality;
  billable = is_direct b.source_kind && not (is_free_kind b.bucket_kind);
}

-- the reading of a name; `batch` is the store as it was when the poll's processing began
unfoldable pub reading_of : TrafficPoll → String → Meter → Reading
unfolding usage_of read_counter
reading_of p name batch =
    let raw = usage_of name p.traffic in
    if is_cumulative p.mode
    then read_counter p raw (cursor_of p name batch)
    else record { delta = raw; quality = Quality.observed; gap = none; mark = none }

-- `if firstErr == nil { firstErr = e }`
abbrev pub first_failure : Option Error → Error → Option Error
first_failure none e = some e
first_failure (some f) e = some f

module _ (local_day utc_day : ℕ → String) where
  -- the debit of a direct user, and nothing for what is only observed
  unfoldable pub debit : Bool → TrafficPoll → TrafficBinding → UsageDelta → Meter → Result Meter
  unfolding safe_apply_bucket_usage
  debit false p b d m = ok m
  debit true p b d m = do
    charged ←
        safe_apply_bucket_usage local_day b.bucket_id b.user_id b.package_id b.bucket_kind d
          p.observed_at m
    let row : Sample = record {
      server_id = p.server_id;
      user_id = b.user_id;
      ts = p.observed_at;
      up = d.up;
      down = d.down;
    }
    ok (record charged { server_samples = charged.server_samples ++ row ∷ [] })

  -- `if d.Up > 0 || d.Down > 0`
  unfoldable pub count_usage :
      Bool → TrafficPoll → TrafficBinding → UsageDelta → Meter → Result Meter
  unfolding debit add_machine_day
  count_usage false p b d m = ok m
  count_usage true p b d m = do
    charged ← debit (is_direct b.source_kind) p b d m
    let row : MachineDay = record {
      day = utc_day p.observed_at;
      server_id = p.server_id;
      source_kind = b.source_kind;
      link_id = b.link_id;
      user_id = b.user_id;
      up = d.up;
      down = d.down;
    }
    ok (record charged { machine_daily = add_machine_day row charged.machine_daily })

  -- `processTrafficIdentity`: how many debits it made, 1 or 0
  unfoldable pub process_traffic_identity :
      TrafficPoll → String → Meter → Meter → Result (ℕ × Meter)
  unfolding reading_of is_pending note_gap put_mark count_usage
  process_traffic_identity p name batch m = do
    fail_if (is_cumulative p.mode && is_pending p name batch) traffic_pending
    let r = reading_of p name batch
    let noted = note_gap p r.gap m
    let marked = record noted { cursors = put_mark p name r.mark noted.cursors }
    b ← or_fail (first (is_binding_of p name) batch.bindings) binding_unavailable
    fail_if (is_direct b.source_kind && b.bucket_id == 0) target_unavailable
    counted ← count_usage (has_usage r.delta) p b r.delta marked
    let observed = record counted {
      observations = counted.observations ++ observation_of p name b r ∷ [];
    }
    ok (if is_direct b.source_kind && has_usage r.delta then 1 else 0, observed)

  -- the body of the loop over the names: an error rolls back to the savepoint
  unfoldable pub try_identity :
      TrafficPoll → String → Meter → (ℕ × Option Error) × Meter → (ℕ × Option Error) × Meter
  unfolding process_traffic_identity
  try_identity p name batch ((applied, failure), m) =
      elim (process_traffic_identity p name batch m) [
        | ok (n, m') ↦ ((applied + n, failure), m')
        | err e ↦ ((applied, first_failure failure e), m)
      ]
