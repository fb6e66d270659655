-- ===== src/Traffic/Binding.antt =====
-- internal/store/traffic_ledger_binding.go and traffic_ledger_batch.go: whose traffic a name reports,
-- with `resolveStatsIdentity` of userplans.go. The owner of a name is frozen when the poll is stored;
-- the rows of one poll stand in the order of its names.
use qing_zhou.Common.{
  ℕ, String, Bool, true, false, not, ◌&&◌, ◌||◌, Option, none, some, List, [], ◌∷◌, ◌++◌, ◌==◌,
  str_eq, any, first, last, if◌then◌else◌,
}
use qing_zhou.Bucket.{Bucket, is_plan, is_queued, usable_expr}
use qing_zhou.Store.{User, PlanIdentity, Db}
use qing_zhou.Names.{canonical_stats_identity}
use qing_zhou.Traffic.Tables.{TrafficPoll, SourceKind, GapReason, Meter, UsageDelta}
use qing_zhou.Traffic.Identity.{note_gap}
use qing_zhou.Traffic.Relays.{
  Relays, RelayUser, Owner, owner_of, relay_observation_identity, is_separated, hop_owner,
}

abbrev pub named : String → String → Bool
named column name = not (str_eq column "") && str_eq column name

-- the plan row of an identity of a line: the usable one, or else the latest, among those in service
unfoldable pub line_bucket : ℕ → PlanIdentity → Db → Option Bucket
line_bucket now i db =
    let mine = λ (b : Bucket).
      b.user_id == i.user_id
      && (b.package_id == i.package_id && (is_plan b.kind && not (is_queued b.status))) in
    elim (last (λ (b : Bucket). mine b && usable_expr now b) db.user_plans) [
      | some b ↦ some b
      | none ↦ last mine db.user_plans
    ]

-- the join over the identities; at most one has the name
unfoldable pub line_row : ℕ → String → List PlanIdentity → Db → Option Bucket
unfolding line_bucket
line_row now name [] db = none
line_row now name (i ∷ is) db =
    let rest = line_row now name is db in
    if str_eq i.client_name name || named i.proxy_username name
    then elim (line_bucket now i db) [ some b ↦ some b | none ↦ rest ]
    else rest

-- `resolveStatsIdentity` for the names of rows
unfoldable pub resolve_stats_identity : ℕ → String → Db → Option Bucket
unfolding line_row
resolve_stats_identity now name db = elim (line_row now name db.plan_identities db) [
  | some b ↦ some b
  | none ↦
      first (λ (b : Bucket). str_eq b.client_name name || named b.proxy_username name) db.user_plans
]

-- `accountUserID`
abbrev pub account_user : String → Db → Option User
account_user name db = first (λ (u : User). named u.proxy_username name) db.users

-- the customer that a canonical name belongs to
unfoldable pub customer_owner : ℕ → String → Db → Owner
unfolding resolve_stats_identity
customer_owner now name db = elim (resolve_stats_identity now name db) [
  | some b ↦ record (owner_of SourceKind.direct_user 0 b.user_id none) {
    bucket_id = b.id;
    package_id = b.package_id;
    bucket_kind = some b.kind;
  }
  | none ↦ elim (account_user name db) [
    | some u ↦ owner_of SourceKind.direct_user 0 u.id none
    | none ↦ owner_of SourceKind.unknown 0 0 none
  ]
]

-- a customer holds the name of a shared relay
unfoldable pub is_customer_name : String → Db → Bool
is_customer_name name db =
    any (λ (u : User). named u.proxy_username name || str_eq u.client_name name) db.users
    || (any (λ (b : Bucket). named b.proxy_username name || str_eq b.client_name name) db.user_plans
        || any (λ (i : PlanIdentity). named i.proxy_username name || str_eq i.client_name name)
            db.plan_identities)

abbrev pub is_shared_relay : SourceKind → Bool
is_shared_relay SourceKind.legacy_shared_relay = true
is_shared_relay _ = false

unfoldable pub collided : String → Db → Owner → Owner
unfolding is_customer_name
collided name db o =
    if is_shared_relay o.kind && is_customer_name name db
    then owner_of SourceKind.ambiguous_identity o.link_id 0
        (some GapReason.relay_identity_collision)
    else o

-- the owner of a name that is no user's hop
unfoldable pub plain_owner : TrafficPoll → String → ℕ → Relays → Db → Owner
unfolding relay_observation_identity customer_owner collided canonical_stats_identity
plain_owner p name now t db =
    let customer = customer_owner now (canonical_stats_identity name).0 db in
    if is_separated p name t
    then customer
    else elim (relay_observation_identity p.server_id name t) [
      | none ↦ customer
      | some o ↦ collided name db o
    ]

-- `bindTrafficIdentity`, and what `bindTrafficIdentities` writes for a user's hop
unfoldable pub owner_of_name : TrafficPoll → String → ℕ → Relays → Db → Owner
unfolding hop_owner plain_owner
owner_of_name p name now t db =
    elim (first (λ (r : RelayUser). str_eq r.identity_name name) t.users) [
      | some r ↦ hop_owner p r t
      | none ↦ plain_owner p name now t db
    ]

unfoldable pub bind_identity : TrafficPoll → ℕ → Relays → String × UsageDelta → Meter → Meter
unfolding owner_of_name note_gap
bind_identity p now t (name, _) m =
    let o = owner_of_name p name now t m.db in
    let noted = note_gap p o.gap m in
    record noted {
      bindings =
          noted.bindings
          ++ record {
            poll_id = p.id;
            counter_name = name;
            source_kind = o.kind;
            link_id = o.link_id;
            user_id = o.user_id;
            bucket_id = o.bucket_id;
            package_id = o.package_id;
            bucket_kind = o.bucket_kind;
          }
            ∷ [];
    }

-- `bindTrafficIdentities`
unfoldable pub bind_identities :
    TrafficPoll → ℕ → Relays → List (String × UsageDelta) → Meter → Meter
unfolding bind_identity
bind_identities p now t [] m = m
bind_identities p now t (e ∷ es) m = bind_identities p now t es (bind_identity p now t e m)
