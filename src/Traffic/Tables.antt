-- ===== src/Traffic/Tables.antt =====
-- internal/store/traffic_ledger.go and traffic_ledger_schema.go: the tables of the traffic ledger.
use qing_zhou.Common.{ℕ, String, Bool, true, false, Option, none, some, List}
use qing_zhou.Bucket.{Kind, is_free}
use qing_zhou.Store.{Db}

-- `UsageDelta`
pub record UsageDelta : Type 0 where
  pub up : ℕ
  pub down : ℕ

abbrev pub no_usage : UsageDelta
no_usage = record { up = 0; down = 0 }

pub data CollectionMode : Type 0 where
  reset cumulative : CollectionMode

abbrev pub is_cumulative : CollectionMode → Bool
is_cumulative CollectionMode.cumulative = true
is_cumulative CollectionMode.reset = false

-- `TrafficPoll`; the map is the list of its entries in the order of their names
pub record TrafficPoll : Type 0 where
  pub sequence : ℕ
  pub transition : Bool
  pub id : String
  pub server_id : ℕ
  pub observed_at : ℕ
  pub mode : CollectionMode
  pub epoch : String
  pub baseline : Bool
  pub traffic : List (String × UsageDelta)

-- the column `source_kind`
pub data SourceKind : Type 0 where
  direct_user relay_user relay_link legacy_shared_relay : SourceKind
  ambiguous_identity diagnostic_outbound unknown : SourceKind

abbrev pub is_direct : SourceKind → Bool
is_direct SourceKind.direct_user = true
is_direct _ = false

abbrev pub is_ambiguous : SourceKind → Bool
is_ambiguous SourceKind.ambiguous_identity = true
is_ambiguous _ = false

abbrev pub is_unknown : SourceKind → Bool
is_unknown SourceKind.unknown = true
is_unknown _ = false

abbrev pub same_kind : SourceKind → SourceKind → Bool
same_kind SourceKind.direct_user SourceKind.direct_user = true
same_kind SourceKind.relay_user SourceKind.relay_user = true
same_kind SourceKind.relay_link SourceKind.relay_link = true
same_kind SourceKind.legacy_shared_relay SourceKind.legacy_shared_relay = true
same_kind SourceKind.ambiguous_identity SourceKind.ambiguous_identity = true
same_kind SourceKind.diagnostic_outbound SourceKind.diagnostic_outbound = true
same_kind SourceKind.unknown SourceKind.unknown = true
same_kind _ _ = false

-- the column `quality`
pub data Quality : Type 0 where
  observed baseline out_of_order counter_reset identity_collision : Quality

-- the column `reason` of `traffic_metering_gaps`
pub data GapReason : Type 0 where
  unanchored_baseline out_of_order_snapshot unexpected_counter_reset : GapReason
  process_restart_tail_unknown reset_outcome_unknown : GapReason
  relay_source_mismatch relay_identity_collision legacy_relay_provenance_unknown : GapReason
  transition_reset_uncertain process_changed_during_read : GapReason
  cumulative_transition_incomplete planned_config_restart_tail : GapReason

-- a row of `traffic_poll_bindings`; `bucket_kind` is `none` where the column is empty
pub record TrafficBinding : Type 0 where
  pub poll_id : String
  pub counter_name : String
  pub source_kind : SourceKind
  pub link_id : ℕ
  pub user_id : ℕ
  pub bucket_id : ℕ
  pub package_id : ℕ
  pub bucket_kind : Option Kind

-- a row of `traffic_observations`
pub record Observation : Type 0 where
  pub poll_id : String
  pub counter_name : String
  pub server_id : ℕ
  pub ts : ℕ
  pub source_kind : SourceKind
  pub link_id : ℕ
  pub user_id : ℕ
  pub up : ℕ
  pub down : ℕ
  pub quality : Quality
  pub billable : Bool

-- a row of `traffic_counter_cursors`, the high-water mark of a counter of one process
pub record Cursor : Type 0 where
  pub server_id : ℕ
  pub counter_name : String
  pub epoch : String
  pub up : ℕ
  pub down : ℕ
  pub observed_at : ℕ
  pub sequence : ℕ

-- a row of `traffic_metering_gaps`
pub record MeteringGap : Type 0 where
  pub server_id : ℕ
  pub ts : ℕ
  pub reason : GapReason
  pub poll_id : String

-- a row of `traffic_samples`, and of `server_user_traffic_samples` with its server
pub record Sample : Type 0 where
  pub server_id : ℕ
  pub user_id : ℕ
  pub ts : ℕ
  pub up : ℕ
  pub down : ℕ

-- a row of `traffic_daily`
pub record DailyUsage : Type 0 where
  pub day : String
  pub user_id : ℕ
  pub bucket_id : ℕ
  pub package_id : ℕ
  pub up : ℕ
  pub down : ℕ

-- a row of `machine_traffic_daily`
pub record MachineDay : Type 0 where
  pub day : String
  pub server_id : ℕ
  pub source_kind : SourceKind
  pub link_id : ℕ
  pub user_id : ℕ
  pub up : ℕ
  pub down : ℕ

-- a row of `traffic_polls`
pub record PollRow : Type 0 where
  pub poll : TrafficPoll
  pub digest : String
  pub done : Bool

-- a row of `traffic_metering_state`
pub record MeteringState : Type 0 where
  pub server_id : ℕ
  pub mode : CollectionMode
  pub epoch : String
  pub last_sequence : ℕ
  pub last_success : ℕ
  pub last_attempt : ℕ
  pub failures : ℕ
  pub status : String

-- the store with the tables of the ledger
pub record Meter : Type 0 where
  pub db : Db
  pub traffic_samples : List Sample
  pub server_samples : List Sample
  pub traffic_daily : List DailyUsage
  pub machine_daily : List MachineDay
  pub polls : List PollRow
  pub bindings : List TrafficBinding
  pub observations : List Observation
  pub cursors : List Cursor
  pub states : List MeteringState
  pub gaps : List MeteringGap
  pub sequence : ℕ

abbrev pub max_int64 : ℕ
max_int64 = 9223372036854775807

abbrev pub is_free_kind : Option Kind → Bool
is_free_kind none = false
is_free_kind (some k) = is_free k
