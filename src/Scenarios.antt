-- ===== src/Scenarios.antt =====
-- Concrete tables of the store, for the tests and for the inputs at which the theorems are applied.
pub mod Purchases
pub mod Refunds
pub mod Queues
pub mod Terms
pub mod Codes
pub mod Nodes
pub mod Metering
pub mod Machines
pub mod Rebuilds
use qing_zhou.Common.{ℕ, String, Bool, true, false, Option, none, some, List, [], ◌∷◌}
use qing_zhou.Common.Int.{ℤ, pos, negsuc}
use qing_zhou.Bucket.{Bucket, Kind, Status}
use qing_zhou.Package.{Package, PackageType, PlanOption}
use qing_zhou.Grants.{blank}
use qing_zhou.Store.{User, Order, OrderStatus, Db}

abbrev pub alice : User
alice = record {
  id = 1;
  username = "alice";
  status = "active";
  points = 500;
  traffic_limit = 0;
  used_up = 0;
  used_down = 0;
  expiry_at = pos 0;
  current_plan_id = none;
  client_name = "";
  proxy_username = "";
  last_online_at = 0;
  updated_at = 0;
}

abbrev pub bob : User
bob = record alice { id = 2; username = "bob"; points = 40 }

-- a plan of 30 days with two pieces in stock
abbrev pub gold : Package
gold = record {
  id = 7;
  type = PackageType.plan;
  name = "gold";
  queue_key = "gold";
  price_points = 120;
  traffic_bytes = 3000;
  duration_days = 30;
  options = [];
  stock = pos 2;
  enabled = true;
  monthly_reset = false;
  monthly_bytes = 0;
  allow_advance = false;
}

abbrev pub quarter : PlanOption
quarter = record { days = 90; price_points = 300; traffic_bytes = 9000; monthly_bytes = 3000 }

-- a plan with a monthly reset and one published duration
abbrev pub monthly : Package
monthly = record gold {
  id = 8;
  queue_key = "";
  options = quarter ∷ [];
  monthly_reset = true;
  monthly_bytes = 3000;
}

-- a traffic package without a limit on its stock
abbrev pub extra : Package
extra = record gold { id = 9; type = PackageType.traffic; stock = negsuc 0; price_points = 50 }

-- alice's head on the line "gold", which has used up its quota, and what waits behind it
abbrev pub head : Bucket
head = record blank {
  id = 1;
  user_id = 1;
  package_id = 7;
  queue_key = "gold";
  traffic_limit = 1000;
  used_up = 600;
  used_down = 400;
  expiry_at = pos 900000;
  order_id = 1;
  duration_days = 30;
}

abbrev pub waiting : Bucket
waiting = record blank {
  id = 2;
  user_id = 1;
  package_id = 7;
  queue_key = "gold";
  traffic_limit = 1000;
  status = Status.queued;
  order_id = 2;
  duration_days = 30;
}

-- bob's row, in its second period
abbrev pub periodical : Bucket
periodical = record blank {
  id = 3;
  user_id = 2;
  package_id = 8;
  queue_key = "pkg:8";
  traffic_limit = 100;
  used_up = 120;
  used_down = 10;
  order_id = 3;
  period_days = 30;
  period_quota = 100;
  period_base = 100;
  period_start = 1000;
}

abbrev pub pool_row : Bucket
pool_row = record blank {
  id = 4;
  user_id = 2;
  kind = Kind.pool;
  traffic_limit = 800;
  used_up = 300;
}

abbrev pub shop : Db
shop = record {
  users = alice ∷ bob ∷ [];
  packages = gold ∷ monthly ∷ extra ∷ [];
  user_plans = head ∷ waiting ∷ periodical ∷ pool_row ∷ [];
  plan_identities = [];
  orders = [];
  point_transactions = [];
  plan_period_resets = [];
  package_user_groups = [];
  user_group_members = [];
  next_plan_id = 5;
  next_order_id = 4;
  next_tx_id = 1;
}

abbrev pub any_order : Order
any_order = record {
  id = 0;
  user_id = 0;
  package_id = 0;
  package_snapshot = gold;
  price_points = 0;
  status = OrderStatus.success;
  idempotency_key = "";
  created_at = 0;
  refunded_points = 0;
  refunded_at = 0;
  refunded_traffic = 0;
}
