-- ===== src/Grants.antt =====
-- internal/store/userplans.go and periods.go: how an order becomes a row of `user_plans`: the queued
-- row of a plan, and the pool that traffic packages top up. The user's protocol credential
-- (`ensureUserProtocolCredential`) is random and is not modelled.
pub mod Pool
use Prim.Native.String.{◌++◌ as text_append}
use qing_zhou.Common.{
  ℕ, ◌+◌, ◌-◌, String, Bool, true, false, not, ◌&&◌, Option, none, some, List, [], ◌∷◌, ◌++◌, ltb,
  ◌==◌, str_eq, any, first, last, update_where, if◌then◌else◌,
}
use qing_zhou.Common.Int.{pos}
use qing_zhou.Bucket.{Bucket, Kind, Status, is_plan, is_pool, is_retired, used}
use qing_zhou.Package.{Package, PackageType, is_plan_type, period_days, period_quota}
use qing_zhou.Common.Decimal.{format_int}
use qing_zhou.Lines.{effective_queue_key}
use qing_zhou.Queue.{in_line, advance_user_queues}
use qing_zhou.Store.{Db, PlanIdentity}

abbrev text3 : String → String → String → String
text3 a b c = text_append a (text_append b c)

-- `ensurePlanIdentity`
unfoldable pub ensure_plan_identity : ℕ → ℕ → String → Db → Db
unfolding format_int
ensure_plan_identity user_id package_id username db =
    if any (λ (i : PlanIdentity). i.user_id == user_id && i.package_id == package_id)
      db.plan_identities
    then db
    else (let row : PlanIdentity = record {
      user_id = user_id;
      package_id = package_id;
      client_name = text3 "qz_" username (text_append "_s" (format_int package_id));
      proxy_username = "";
    } in
        record db { plan_identities = db.plan_identities ++ row ∷ [] })

-- `queueAutoRenew`: the setting of the line's newest row that is not retired, on for a new line
unfoldable pub queue_auto_renew : ℕ → String → List Bucket → Bool
queue_auto_renew user_id key rows =
    elim (last (λ b. in_line user_id key b && not (is_retired b.status)) rows) [
      | none ↦ true
      | some b ↦ b.auto_renew
    ]

-- `queueAdvanceOverride`, where `none` is -1
unfoldable pub queue_advance_override : ℕ → String → List Bucket → Option ℕ
queue_advance_override user_id key rows =
    elim (last (λ b. in_line user_id key b && (not (is_retired b.status) && ltb 0 b.period_days))
      rows) [ none ↦ none | some b ↦ b.advance_override ]

-- the fields that a Go struct literal leaves at their zero values
abbrev pub blank : Bucket
blank = record {
  id = 0;
  user_id = 0;
  kind = Kind.plan;
  package_id = 0;
  queue_key = "";
  name = "";
  client_name = "";
  client_uuid = "";
  client_secret = "";
  traffic_limit = 0;
  used_up = 0;
  used_down = 0;
  expiry_at = pos 0;
  last_online_at = 0;
  order_id = 0;
  created_at = 0;
  updated_at = 0;
  status = Status.active;
  duration_days = 0;
  auto_renew = false;
  proxy_username = "";
  proxy_password = "";
  proxy_expires_at = 0;
  period_days = 0;
  period_quota = 0;
  period_start = 0;
  period_base = 0;
  advance_override = none;
  allow_advance = false;
  life_used_up = 0;
  life_used_down = 0;
}

-- `insertBucket`, with `advanceOverrideOrDefault`: only a periodic row keeps an override
unfoldable pub insert_bucket : Bucket → ℕ → Db → Db
insert_bucket b now db =
    let row = record b {
      id = db.next_plan_id;
      created_at = if b.created_at == 0 then now else b.created_at;
      updated_at = now;
      advance_override = if ltb 0 b.period_days then b.advance_override else none;
    } in
    record db { user_plans = db.user_plans ++ row ∷ []; next_plan_id = db.next_plan_id + 1 }

-- the row that `enqueuePlanBucket` inserts
unfoldable pub queued_bucket : ℕ → String → Package → ℕ → ℕ → List Bucket → Bucket
unfolding effective_queue_key format_int queue_auto_renew queue_advance_override period_quota
queued_bucket user_id username pkg order_id now rows =
    let key = effective_queue_key pkg.id pkg.queue_key in
    let row = record blank {
      user_id = user_id;
      kind = Kind.plan;
      package_id = pkg.id;
      name = pkg.name;
      queue_key = key;
      client_name = text3 "qz_" username (text_append "_p" (format_int order_id));
      traffic_limit = pkg.traffic_bytes;
      status = Status.queued;
      expiry_at = pos 0;
      duration_days = pkg.duration_days;
      auto_renew = queue_auto_renew user_id key rows;
      order_id = order_id;
      created_at = now;
      advance_override = none;
    } in
    if is_plan_type pkg.type && pkg.monthly_reset
    then record row {
      period_days = period_days;
      period_quota = period_quota pkg;
      traffic_limit = period_quota pkg;
      period_base = period_quota pkg;
      advance_override = queue_advance_override user_id key rows;
    }
    else row

-- `enqueuePlanBucket`
unfoldable pub enqueue_plan_bucket : ℕ → String → Package → ℕ → ℕ → Db → Db
unfolding ensure_plan_identity queued_bucket insert_bucket
enqueue_plan_bucket user_id username pkg order_id now db =
    let identified = ensure_plan_identity user_id pkg.id username db in
    insert_bucket (queued_bucket user_id username pkg order_id now db.user_plans) now identified

abbrev pub is_pool_of : ℕ → Bucket → Bool
is_pool_of user_id b = b.user_id == user_id && is_pool b.kind

-- the UPDATE of one row by its id
abbrev pub update_plan : ℕ → (Bucket → Bucket) → Db → Db
update_plan id f db = record db {
  user_plans = update_where (λ (b : Bucket). b.id == id) f db.user_plans;
}

-- `addToPool`
unfoldable pub add_to_pool : ℕ → String → ℕ → ℕ → Db → Db
unfolding insert_bucket
add_to_pool user_id username add_bytes now db = elim (first (is_pool_of user_id) db.user_plans) [
  | none ↦
      insert_bucket
        (record blank {
          user_id = user_id;
          kind = Kind.pool;
          name = "通用流量";
          client_name = text3 "qz_" username "_pool";
          traffic_limit = add_bytes;
          created_at = now;
        })
        now db
  | some p ↦
      update_plan p.id
        (λ (b : Bucket). record b { traffic_limit = b.traffic_limit + add_bytes; updated_at = now })
        db
]

-- the new limit of a pool after a refund: not below what is used
unfoldable pub reduced_limit : Bucket → ℕ → ℕ
reduced_limit b bytes =
    if ltb (b.traffic_limit - bytes) (used b) then used b else b.traffic_limit - bytes

-- `subFromPool`
unfoldable pub sub_from_pool : ℕ → ℕ → ℕ → Db → Db
unfolding reduced_limit
sub_from_pool user_id sub_bytes now db = elim (first (is_pool_of user_id) db.user_plans) [
  | none ↦ db
  | some p ↦
      update_plan p.id
        (λ (b : Bucket). record b { traffic_limit = reduced_limit p sub_bytes; updated_at = now })
        db
]

-- the entitlement that an order brings: a plan is queued and the queues advance, traffic goes to the
-- pool
unfoldable pub grant : ℕ → String → Package → PackageType → ℕ → ℕ → Db → Db
unfolding enqueue_plan_bucket advance_user_queues add_to_pool
grant user_id username pkg PackageType.plan order_id now db =
    (advance_user_queues user_id now (enqueue_plan_bucket user_id username pkg order_id now db)).0
grant user_id username pkg PackageType.traffic order_id now db =
    add_to_pool user_id username pkg.traffic_bytes now db
grant user_id username pkg PackageType.other order_id now db = db
