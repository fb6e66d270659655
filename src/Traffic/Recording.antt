-- ===== src/Traffic/Recording.antt =====
-- internal/store/traffic_ledger.go: a poll is checked, stored with the owners of its names, and
-- processed, `RecordTrafficPoll`. The JSON text of a poll is known by its length and its digest, which
-- are parameters.
use Prim.Native.Char.{code}
use qing_zhou.Common.{
  ℕ, ◌+◌, ◌*◌, ◌-◌, String, Bool, false, not, ◌&&◌, ◌||◌, Option, none, some, List, [], ◌∷◌, ◌++◌,
  length, ltb, larger, ◌==◌, str_eq, any, first, delete_where, update_where, if◌then◌else◌,
}
use qing_zhou.Common.Int.{ℤ, pos, negsuc}
use qing_zhou.Result.{
  Result, Error, ok, err, invalid_traffic_poll, traffic_id_reused, duplicate_row, fail_if, ◌>>=◌,
  ◌>>◌,
}
use qing_zhou.Traffic.Tables.{
  UsageDelta, TrafficPoll, CollectionMode, GapReason, MeteringGap, MeteringState, PollRow, Meter,
  max_int64,
}
use qing_zhou.Traffic.Relays.{Relays}
use qing_zhou.Traffic.Identity.{same_gap}
use qing_zhou.Traffic.Binding.{bind_identities}
use qing_zhou.Traffic.Polls.{process_traffic_poll}

-- a poll as a caller hands it over
pub record IncomingPoll : Type 0 where
  pub sequence : ℤ
  pub transition : Bool
  pub id : String
  pub server_id : ℤ
  pub observed_at : ℤ
  pub mode : String
  pub epoch : String
  pub baseline : Bool
  pub traffic : List (String × ℤ × ℤ)

-- `len(s)`: the bytes of the text in UTF-8
unfoldable pub byte_length : String → ℕ
byte_length String.[] = 0
byte_length (String.◌∷◌ c s) =
    (if ltb (code c) 0x80
      then 1
      else if ltb (code c) 0x800
      then 2
      else if ltb (code c) 0x10000
      then 3
      else 4)
    + byte_length s

-- `strings.ContainsAny(name, "\x00\r\n")`
unfoldable pub has_control : String → Bool
has_control String.[] = false
has_control (String.◌∷◌ c s) = code c == 0 || (code c == 13 || (code c == 10 || has_control s))

-- a number that must not be negative
unfoldable pub natural : ℤ → Result ℕ
natural (pos n) = ok n
natural (negsuc _) = err invalid_traffic_poll

unfoldable pub mode_of : String → Result CollectionMode
mode_of s =
    if str_eq s "reset"
    then ok CollectionMode.reset
    else if str_eq s "cumulative"
    then ok CollectionMode.cumulative
    else err invalid_traffic_poll

-- the check of one counter
unfoldable pub valid_counter : String × ℤ × ℤ → Result (String × UsageDelta)
unfolding byte_length has_control natural
valid_counter (name, up, down) = do
  fail_if (str_eq name "" || (ltb 256 (byte_length name) || has_control name)) invalid_traffic_poll
  u ← natural up
  d ← natural down
  fail_if (ltb (max_int64 - d) u) invalid_traffic_poll
  ok (name, record { up = u; down = d })

unfoldable pub valid_counters : List (String × ℤ × ℤ) → Result (List (String × UsageDelta))
unfolding valid_counter
valid_counters [] = ok []
valid_counters (c ∷ cs) = do d ← valid_counter c; ds ← valid_counters cs; ok (d ∷ ds)

-- the checks at the head of `RecordTrafficPoll`
unfoldable pub valid_poll : IncomingPoll → Result TrafficPoll
unfolding byte_length natural mode_of valid_counters
valid_poll raw = do
  fail_if (str_eq raw.id "" || ltb 128 (byte_length raw.id)) invalid_traffic_poll
  server_id ← natural raw.server_id
  sequence ← natural raw.sequence
  observed_at ← natural raw.observed_at
  fail_if (observed_at == 0 || ltb 100000 (length raw.traffic)) invalid_traffic_poll
  mode ← mode_of raw.mode
  fail_if (raw.transition && (not (str_eq raw.mode "reset") || str_eq raw.epoch ""))
      invalid_traffic_poll
  fail_if (str_eq raw.mode "cumulative" && (str_eq raw.epoch "" || ltb 256 (byte_length raw.epoch)))
      invalid_traffic_poll
  traffic ← valid_counters raw.traffic
  ok (record {
    sequence = sequence;
    transition = raw.transition;
    id = raw.id;
    server_id = server_id;
    observed_at = observed_at;
    mode = mode;
    epoch = raw.epoch;
    baseline = raw.baseline;
    traffic = traffic;
  })

abbrev pub find_poll : String → Meter → Option PollRow
find_poll id m = first (λ (r : PollRow). str_eq r.poll.id id) m.polls

-- the intent of this poll is fulfilled
unfoldable pub clear_intent : TrafficPoll → List MeteringGap → List MeteringGap
clear_intent p = delete_where (λ (g : MeteringGap).
    g.server_id == p.server_id
    && (str_eq g.poll_id p.id && same_gap g.reason GapReason.reset_outcome_unknown))

-- INSERT INTO traffic_metering_state … ON CONFLICT DO UPDATE … WHERE excluded.last_sequence>last_sequence
unfoldable pub start_transition : TrafficPoll → List MeteringState → List MeteringState
start_transition p rows =
    if any (λ (s : MeteringState). s.server_id == p.server_id) rows
    then update_where
        (λ (s : MeteringState). s.server_id == p.server_id && ltb s.last_sequence p.sequence)
        (λ (s : MeteringState). record s {
          mode = CollectionMode.cumulative;
          epoch = p.epoch;
          last_sequence = p.sequence;
          last_attempt = larger s.last_attempt p.observed_at;
          status = "transitioning";
        })
        rows
    else rows
      ++ record {
        server_id = p.server_id;
        mode = CollectionMode.cumulative;
        epoch = p.epoch;
        last_sequence = p.sequence;
        last_success = 0;
        last_attempt = p.observed_at;
        failures = 0;
        status = "transitioning";
      }
        ∷ []

-- the sequence number of a poll, which takes the next one if it brings none
unfoldable pub numbered_poll : TrafficPoll → Meter → TrafficPoll
numbered_poll p m = if p.sequence == 0 then record p { sequence = m.sequence + 1 } else p

-- the transaction that stores a poll: what is stored has the number that it is processed under
unfoldable pub journal : (TrafficPoll → String) → ℕ → Relays → TrafficPoll → Meter → Meter
unfolding numbered_poll bind_identities clear_intent start_transition
journal digest now relays p m =
    let q = numbered_poll p m in
    let stored = record m {
      sequence = if p.sequence == 0 then m.sequence + 1 else m.sequence;
      polls = m.polls ++ record { poll = q; digest = digest p; done = false } ∷ [];
    } in
    let bound = bind_identities q now relays q.traffic stored in
    record bound {
      gaps = clear_intent q bound.gaps;
      states = if q.transition then start_transition q bound.states else bound.states;
    }

-- a poll that is stored already must be the same one, and no other poll has the sequence of a new one
unfoldable pub stored_or :
    (TrafficPoll → String) → TrafficPoll → Meter → Option PollRow → Meter → Result Meter
stored_or digest p m (some row) journaled =
    if not (str_eq row.digest (digest p)) then err traffic_id_reused else ok m
stored_or digest p m none journaled = do
  fail_if (any (λ (r : PollRow). r.poll.sequence == (numbered_poll p m).sequence) m.polls)
      duplicate_row
  ok journaled

module _ (local_day utc_day : ℕ → String) (free_group : ℕ) (plan_groups : ℕ → List ℕ)
    (size : TrafficPoll → ℕ) (digest : TrafficPoll → String) where
  -- `RecordTrafficPoll`
  unfoldable pub record_traffic_poll :
      IncomingPoll → ℕ → Relays → Meter → Result ((ℕ × Option Error) × Meter)
  unfolding valid_poll journal stored_or process_traffic_poll
  record_traffic_poll raw now relays m = do
    p ← valid_poll raw
    fail_if (ltb (16 * 1048576) (size p)) invalid_traffic_poll
    stored ← stored_or digest p m (find_poll p.id m) (journal digest now relays p m)
    process_traffic_poll local_day utc_day free_group plan_groups p.id now stored
