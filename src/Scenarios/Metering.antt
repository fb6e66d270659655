-- ===== src/Scenarios/Metering.antt =====
-- Polls of a node on the tables of `Scenarios`.
use mathlib.Core.Option.{some-injective}
use qing_zhou.Common.{
  All, map, if◌then◌else◌, ℕ, ◌+◌, ◌≡◌, refl, subst, String, true, false, Option, none, some, List,
  [], ◌∷◌, ◌==◌, ◌&&◌, ◌≢◌, ap, str_eq, arith,
}
use qing_zhou.Common.Int.{pos}
use qing_zhou.Result.{Result, Error, ok, err, ok_or, invalid_traffic_poll}
use qing_zhou.Bucket.{Bucket, Kind, can_carry}
use qing_zhou.Store.{Db}
use qing_zhou.Names.{canonical_stats_identity, route_identity_name, credential_alias_stats_name}
use qing_zhou.Names.Peeling.{canonical_stats_identity-names}
use qing_zhou.Ownership.{account_meter_bucket}
use qing_zhou.Ownership.Owners.{Node, user_owned_nodes}
use qing_zhou.Ownership.Entitled.{IsOwner, user_owned_nodes-IsOwner}
use qing_zhou.Traffic.Tables.{
  TrafficPoll, CollectionMode, SourceKind, TrafficBinding, Meter, is_direct,
}
use qing_zhou.Traffic.Identity.{process_traffic_identity}
use qing_zhou.Traffic.Relays.{Relays}
use qing_zhou.Traffic.Recording.{IncomingPoll, record_traffic_poll}
use qing_zhou.Traffic.Debits.{row_up, row_down}
use qing_zhou.Traffic.Counting.{Steps, IsCounted, Steps-IsCounted}
use qing_zhou.Traffic.Replay.{record_traffic_poll-once}
use qing_zhou.Scenarios.{alice, bob, head, pool_row, shop}

-- alice's plan with most of its quota left; her login is one account for all of her rows
abbrev metered : Bucket
metered = record head { used_up = 10; used_down = 20 }

abbrev served : Db
served = record shop {
  users = record alice { proxy_username = "qz_alice" } ∷ bob ∷ [];
  user_plans = metered ∷ record pool_row { user_id = 1 } ∷ record head { id = 5; user_id = 2 } ∷ [];
}

abbrev ledger : Meter
ledger = record {
  db = served;
  traffic_samples = [];
  server_samples = [];
  traffic_daily = [];
  machine_daily = [];
  polls = [];
  bindings = [];
  observations = [];
  cursors = [];
  states = [];
  gaps = [];
  sequence = 4;
}

abbrev no_relays : Relays
no_relays = record {
  links = [];
  generations = [];
  users = [];
  inbounds = [];
  legacy = [];
  namespace_epochs = [];
}

abbrev day_of : ℕ → String
day_of at = "2026-01-01"

abbrev groups_of_plan : ℕ → List ℕ
groups_of_plan package_id = []

abbrev text_size : TrafficPoll → ℕ
text_size p = 200

abbrev text_digest : TrafficPoll → String
text_digest p = p.id

abbrev reported : IncomingPoll
reported = record {
  sequence = pos 0;
  transition = false;
  id = "p1";
  server_id = pos 3;
  observed_at = pos 1000;
  mode = "cumulative";
  epoch = "e1";
  baseline = false;
  traffic = ("qz_alice", pos 5, pos 7) ∷ [];
}

abbrev recorded : IncomingPoll → Meter → Result ((ℕ × Option Error) × Meter)
recorded raw m =
    record_traffic_poll day_of day_of 1 groups_of_plan text_size text_digest raw 1000 no_relays m

abbrev after_poll : Meter
after_poll = (ok_or ((0, none), ledger) (recorded reported ledger)).1

recorded_once : recorded reported ledger ≡ ok ((1, none), after_poll)
unfolding record_traffic_poll account_meter_bucket can_carry
recorded_once = refl

recorded_usage : row_up 1 after_poll + row_down 1 after_poll ≡ 42
unfolding record_traffic_poll account_meter_bucket can_carry
recorded_usage = refl

recorded_invalid : recorded (record reported { mode = "delta" }) ledger ≡ err invalid_traffic_poll
unfolding record_traffic_poll account_meter_bucket can_carry
recorded_invalid = refl

record_traffic_poll-once_example :
    record_traffic_poll day_of day_of 1 groups_of_plan text_size text_digest reported 2000 no_relays
      after_poll
    ≡ ok ((0, none), after_poll)
record_traffic_poll-once_example =
    record_traffic_poll-once day_of day_of 1 groups_of_plan text_size text_digest reported 1000 2000
      no_relays no_relays ledger after_poll 1 recorded_once

canonical_stats_identity-names_example :
    (canonical_stats_identity "qz_bob" ≡ ("qz_bob", 0))
    × (canonical_stats_identity (route_identity_name "qz_bob" 9) ≡ ("qz_bob", 0))
    × (canonical_stats_identity (credential_alias_stats_name "qz_bob" 5) ≡ ("qz_bob", 5))
    × (canonical_stats_identity (route_identity_name (credential_alias_stats_name "qz_bob" 5) 9)
        ≡ ("qz_bob", 5))
canonical_stats_identity-names_example =
    canonical_stats_identity-names "qz_bob" 5 9 not_empty
      (refl, (refl, (refl, (refl, (refl, (refl, tt)))))) (omega arith) (omega arith) (omega arith)
      (omega arith)
  where
    not_empty : ◌≢◌ {A = String} "qz_bob" ""
    not_empty e = let clash = ap (λ (s : String). str_eq s "") e in cc

-- two snapshots of the same counter and one of another user's, whose owners are known
abbrev snapshot : String → ℕ → ℕ → ℕ → TrafficPoll
snapshot id sequence up down = record {
  sequence = sequence;
  transition = false;
  id = id;
  server_id = 3;
  observed_at = 1000;
  mode = CollectionMode.cumulative;
  epoch = "e1";
  baseline = false;
  traffic =
      ("qz_alice", record { up = up; down = down }) ∷ ("qz_bob", record { up = 9; down = 9 }) ∷ [];
}

abbrev bound_to : String → String → ℕ → ℕ → TrafficBinding
bound_to poll_id name user_id bucket_id = record {
  poll_id = poll_id;
  counter_name = name;
  source_kind = SourceKind.direct_user;
  link_id = 0;
  user_id = user_id;
  bucket_id = bucket_id;
  package_id = 7;
  bucket_kind = some Kind.plan;
}

abbrev bound_ledger : Meter
bound_ledger = record ledger {
  bindings =
      bound_to "s1" "qz_alice" 1 1 ∷ bound_to "s2" "qz_bob" 2 5 ∷ bound_to "s2" "qz_alice" 1 1 ∷ [];
}

abbrev processed : String → ℕ → ℕ → ℕ → String → Meter → Meter
processed id sequence up down name m =
    (ok_or (0, m)
      (process_traffic_identity day_of day_of (snapshot id sequence up down) name m m)).1

abbrev after_first : Meter
after_first = processed "s1" 1 5 7 "qz_alice" bound_ledger

abbrev after_other : Meter
after_other = processed "s2" 2 8 8 "qz_bob" after_first

abbrev after_second : Meter
after_second = processed "s2" 2 8 8 "qz_alice" after_other

counted_twice : row_up 1 after_second + row_down 1 after_second ≡ 46
unfolding process_traffic_identity
counted_twice = refl

-- a binding that a LIMIT 1 found is the one that stands there
own_row :
    (b found : TrafficBinding)
    → some found ≡ some b
    → (is_direct found.source_kind && 1 == found.bucket_id) ≡ true
    → (is_direct b.source_kind && 1 == b.bucket_id) ≡ true
own_row b found e h =
    subst (λ x. (is_direct x.source_kind && 1 == x.bucket_id) ≡ true) (some-injective _ _ e) h

other_row :
    (b found : TrafficBinding)
    → some found ≡ some b
    → (is_direct found.source_kind && 1 == found.bucket_id) ≡ false
    → (is_direct b.source_kind && 1 == b.bucket_id) ≡ false
other_row b found e h =
    subst (λ x. (is_direct x.source_kind && 1 == x.bucket_id) ≡ false) (some-injective _ _ e) h

counting : Steps day_of day_of 3 "qz_alice" "e1" 1 bound_ledger after_second
unfolding process_traffic_identity
counting =
    Steps.count (snapshot "s1" 1 5 7) bound_ledger 1
      (record {
        at_server = refl;
        at_epoch = refl;
        cumulative = refl;
        anchored = refl;
        mark = refl;
        bucket = λ b e. own_row b (bound_to "s1" "qz_alice" 1 1) e refl;
      })
      refl
      (Steps.pass_by (snapshot "s2" 2 8 8) "qz_bob" after_first 1
        (record { counter = refl; bucket = λ b e. other_row b (bound_to "s2" "qz_bob" 2 5) e refl })
        refl
        (Steps.count (snapshot "s2" 2 8 8) after_other 1
          (record {
            at_server = refl;
            at_epoch = refl;
            cumulative = refl;
            anchored = refl;
            mark = refl;
            bucket = λ b e. own_row b (bound_to "s2" "qz_alice" 1 1) e refl;
          })
          refl Steps.stay))

Steps-IsCounted_example : IsCounted 3 "qz_alice" "e1" 1 bound_ledger after_second
Steps-IsCounted_example =
    Steps-IsCounted day_of day_of 3 "qz_alice" "e1" 1 bound_ledger after_second counting

-- a node of the group of alice's plan, one that is off, and one of another group
abbrev gold_groups : ℕ → List ℕ
gold_groups package_id = if package_id == 7 then 2 ∷ [] else []

abbrev nodes : List Node
nodes =
    record {
      id = 31;
      type = "self_built";
      enabled = true;
      route_upstream_broken = false;
      group_ids = 1 ∷ 2 ∷ [];
    }
    ∷ record {
      id = 32;
      type = "self_built";
      enabled = false;
      route_upstream_broken = false;
      group_ids = 2 ∷ [];
    }
    ∷ record {
      id = 33;
      type = "self_built";
      enabled = true;
      route_upstream_broken = false;
      group_ids = 5 ∷ [];
    }
    ∷ []

owned_nodes : map (λ e. e.0) (user_owned_nodes 1 gold_groups 1 1000 3 nodes served) ≡ (31 ∷ [])
unfolding user_owned_nodes can_carry
owned_nodes = refl

user_owned_nodes-IsOwner_example :
    All
      (IsOwner 1 gold_groups 1000 (metered ∷ record pool_row { user_id = 1 } ∷ []) nodes)
      (user_owned_nodes 1 gold_groups 1 1000 3 nodes served)
user_owned_nodes-IsOwner_example = user_owned_nodes-IsOwner 1 gold_groups 1 1000 3 nodes served
