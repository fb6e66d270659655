-- ===== src/Store.antt =====
-- internal/store: the tables that the modelled code reads and writes, as lists of rows in the order
-- of their ids (each insert takes the next id). A transaction is a function from the tables to a
-- result that holds the new tables: on an error it is rolled back, so no new tables come out.
use qing_zhou.Common.{ℕ, String, List, Option}
use qing_zhou.Common.Int.{ℤ}
use qing_zhou.Result.{Result}
use qing_zhou.Bucket.{Bucket}
use qing_zhou.Package.{Package}

-- `User` of users.go: the columns that the modelled code touches
pub record User : Type 0 where
  pub id : ℕ
  pub username : String
  pub status : String
  pub points : ℕ
  pub traffic_limit : ℕ
  pub used_up : ℕ
  pub used_down : ℕ
  pub expiry_at : ℤ
  pub current_plan_id : Option ℕ
  pub client_name : String
  pub proxy_username : String
  pub last_online_at : ℕ
  pub updated_at : ℕ

pub data OrderStatus : Type 0 where
  success refunded : OrderStatus

-- `Order`; the snapshot is the package as it was sold, which the code stores as JSON
pub record Order : Type 0 where
  pub id : ℕ
  pub user_id : ℕ
  pub package_id : ℕ
  pub package_snapshot : Package
  pub price_points : ℕ
  pub status : OrderStatus
  pub idempotency_key : String
  pub created_at : ℕ
  pub refunded_points : ℕ
  pub refunded_at : ℕ
  pub refunded_traffic : ℕ

-- the texts of the column `type` of `point_transactions`
pub data TxType : Type 0 where
  purchase auto_renew admin_grant refund redeem : TxType
  adjusted : String → TxType

-- `PointTx`
pub record PointTx : Type 0 where
  pub id : ℕ
  pub user_id : ℕ
  pub amount : ℤ
  pub type : TxType
  pub balance_after : ℕ
  pub ref_id : ℕ
  pub operator_id : ℕ
  pub created_at : ℕ

-- `PeriodReset`
pub record PeriodReset : Type 0 where
  pub bucket_id : ℕ
  pub user_id : ℕ
  pub reset_at : ℕ
  pub period_start : ℕ
  pub used : ℕ
  pub quota : ℕ
  pub next_quota : ℕ

-- `PlanIdentity`: the stats identity of a user's line
pub record PlanIdentity : Type 0 where
  pub user_id : ℕ
  pub package_id : ℕ
  pub client_name : String
  pub proxy_username : String

pub record Db : Type 0 where
  pub users : List User
  pub packages : List Package
  pub user_plans : List Bucket
  pub plan_identities : List PlanIdentity
  pub orders : List Order
  pub point_transactions : List PointTx
  pub plan_period_resets : List PeriodReset
  pub package_user_groups : List (ℕ × ℕ)  -- package, group
  pub user_group_members : List (ℕ × ℕ)  -- group, user
  pub next_plan_id : ℕ
  pub next_order_id : ℕ
  pub next_tx_id : ℕ

abbrev pub Tx : Type 0 → Type 0
Tx A = Db → Result (A × Db)
