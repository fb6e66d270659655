-- ===== src/Bucket.antt =====
-- internal/store/userplans.go: the metered unit that a user holds (a row of `user_plans`), and the
-- methods of `Bucket`. Byte counts, durations and instants that no code makes negative are natural
-- numbers; `expiry_at` is an integer, since a refund can subtract a duration from 0.
pub mod Service
use qing_zhou.Common.{
  ℕ, ◌+◌, ◌-◌, ◌*◌, String, Bool, true, false, not, ◌&&◌, ◌||◌, Option, ltb, leb, ◌==◌, str_eq,
  if◌then◌else◌,
}
use qing_zhou.Common.Int.{ℤ, pos, negsuc}

-- the column `kind`: "plan", "pool", and `KindFree`
pub data Kind : Type 0 where
  plan pool free : Kind

-- the column `status`: "active", "queued", and `StatusRetired`
pub data Status : Type 0 where
  active queued retired : Status

pub record Bucket : Type 0 where
  pub id : ℕ
  pub user_id : ℕ
  pub kind : Kind
  pub package_id : ℕ
  pub queue_key : String
  pub name : String
  pub client_name : String
  pub client_uuid : String
  pub client_secret : String
  pub traffic_limit : ℕ
  pub used_up : ℕ
  pub used_down : ℕ
  pub expiry_at : ℤ
  pub last_online_at : ℕ
  pub order_id : ℕ
  pub created_at : ℕ
  pub updated_at : ℕ
  pub status : Status
  pub duration_days : ℕ
  pub auto_renew : Bool
  pub proxy_username : String
  pub proxy_password : String
  pub proxy_expires_at : ℕ
  pub period_days : ℕ
  pub period_quota : ℕ
  pub period_start : ℕ
  pub period_base : ℕ
  pub advance_override : Option ℕ  -- `none` is -1, "follow the package"
  pub allow_advance : Bool
  pub life_used_up : ℕ
  pub life_used_down : ℕ

abbrev pub is_plan : Kind → Bool
is_plan Kind.plan = true
is_plan _ = false

abbrev pub is_pool : Kind → Bool
is_pool Kind.pool = true
is_pool _ = false

abbrev pub is_free : Kind → Bool
is_free Kind.free = true
is_free _ = false

abbrev pub is_active : Status → Bool
is_active Status.active = true
is_active _ = false

abbrev pub is_queued : Status → Bool
is_queued Status.queued = true
is_queued _ = false

abbrev pub is_retired : Status → Bool
is_retired Status.retired = true
is_retired _ = false

-- `expiry_at = 0`, which means "never"
abbrev pub is_zero : ℤ → Bool
is_zero (pos e) = e == 0
is_zero (negsuc _) = false

-- `expiry_at > t`
abbrev pub is_after : ℤ → ℕ → Bool
is_after (pos e) t = ltb t e
is_after (negsuc _) t = false

abbrev pub day : ℕ
day = 86400

-- `Bucket.Periodic`
unfoldable pub periodic : Bucket → Bool
periodic b = is_plan b.kind && ltb 0 b.period_days

-- `Bucket.NextResetAt`: 0 when there is no next reset
unfoldable pub next_reset_at : Bucket → ℕ
unfolding periodic
next_reset_at b =
    if not (periodic b) || not (is_active b.status) || b.period_start == 0
    then 0
    else (let next = b.period_start + b.period_days * day in
        if is_after b.expiry_at 0 && not (is_after b.expiry_at next) then 0 else next)

-- `Bucket.ShownQuota`
unfoldable pub shown_quota : Bucket → ℕ
unfolding periodic
shown_quota b = if not (periodic b) || is_queued b.status then b.traffic_limit else b.period_base

-- `Bucket.Used`
abbrev pub used : Bucket → ℕ
used b = b.used_up + b.used_down

-- `Bucket.Advanced`: what this period has borrowed from the next one
unfoldable pub advanced : Bucket → ℕ
unfolding periodic
advanced b =
    if not (periodic b) || not (is_active b.status)
    then 0
    else (if ltb b.period_base (used b) then used b - b.period_base else 0)

-- `Bucket.ProxyName`
unfoldable pub proxy_name : Bucket → String
proxy_name b = if not (str_eq b.proxy_username "") then b.proxy_username else b.client_name

-- `Bucket.ProxySecret`
unfoldable pub proxy_secret : Bucket → String
proxy_secret b = if not (str_eq b.proxy_password "") then b.proxy_password else b.client_secret

-- `Bucket.HasQuota`
unfoldable pub has_quota : Bucket → Bool
has_quota b = ltb 0 b.traffic_limit && ltb (used b) b.traffic_limit

-- `Bucket.NotExpired`
unfoldable pub not_expired : ℕ → Bucket → Bool
not_expired now b = is_zero b.expiry_at || is_after b.expiry_at now

in_service : Kind → ℕ → Bucket → Bool
unfolding has_quota not_expired
in_service Kind.pool now b =
    ltb 0 b.traffic_limit && ltb (used b) b.traffic_limit && not_expired now b
in_service Kind.free now b = true
in_service Kind.plan now b = not_expired now b && has_quota b

-- `Bucket.Active`: whether the bucket can carry traffic now
unfoldable pub can_carry : ℕ → Bucket → Bool
unfolding in_service
can_carry now b = in_service b.kind now b

-- `Bucket.ProxyActive`
unfoldable pub proxy_active : ℕ → Bucket → Bool
unfolding can_carry
proxy_active now b =
    if not (b.proxy_expires_at == 0) && leb b.proxy_expires_at now then false else can_carry now b

-- `usableHeadPredicate`: the row owns the slot of its renewal line
unfoldable pub usable_head : ℕ → Bucket → Bool
usable_head now h =
    is_plan h.kind
    && (is_active h.status
        && ((is_zero h.expiry_at || is_after h.expiry_at now)
            && (ltb 0 h.period_days || (ltb 0 h.traffic_limit && ltb (used h) h.traffic_limit))))

-- `usableExpr`: the same question as the stats attribution and the migration ask it
unfoldable pub usable_expr : ℕ → Bucket → Bool
usable_expr now b =
    is_active b.status
    && ((is_zero b.expiry_at || is_after b.expiry_at now)
        && (ltb 0 b.traffic_limit && ltb (used b) b.traffic_limit))

-- `periodDuePredicate`: the current period of a live row has ended, and the row has time left
unfoldable pub period_due : ℕ → Bucket → Bool
period_due now b =
    is_plan b.kind
    && (is_active b.status
        && (ltb 0 b.period_days
            && (ltb 0 b.period_start
                && (leb (b.period_start + b.period_days * day) now
                    && (is_zero b.expiry_at
                        || is_after b.expiry_at (b.period_start + b.period_days * day))))))
