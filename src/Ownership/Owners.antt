-- ===== src/Ownership/Owners.antt =====
-- internal/store/singbox.go: which row of a user owns each group, inbound and node, `UserGroupOwners`,
-- `UserOwnedInbounds` and `UserOwnedNodes`. The maps of the code are lists of their entries.
use qing_zhou.Common.{ℕ, String, Bool, not, ◌&&◌, Option, none, some, List, [], ◌∷◌, str_eq, select}
use qing_zhou.Store.{Db}
use qing_zhou.Ownership.{OwnedBucket, user_bucket_order, pick_owner}

-- `SbInbound`, as far as ownership reads it
pub record Inbound : Type 0 where
  pub tag : String
  pub enabled : Bool

-- `Node`, as far as ownership reads it
pub record Node : Type 0 where
  pub id : ℕ
  pub type : String
  pub enabled : Bool
  pub route_upstream_broken : Bool
  pub group_ids : List ℕ

abbrev pub with_entry {ℓ} :
    {K : Type ℓ} → K → Option OwnedBucket → List (K × OwnedBucket) → List (K × OwnedBucket)
with_entry key none rest = rest
with_entry key (some o) rest = (key, o) ∷ rest

-- the loops over what has an owner, with the groups of each
unfoldable pub owners {ℓ κ} :
    {A : Type ℓ} {K : Type κ}
    → (A → K)
    → (A → List ℕ)
    → List OwnedBucket
    → ℕ
    → List A
    → List (K × OwnedBucket)
unfolding pick_owner
owners key groups ord group_count [] = []
owners key groups ord group_count (x ∷ xs) =
    with_entry (key x) (pick_owner ord (groups x) group_count)
      (owners key groups ord group_count xs)

-- a node that is served here and whose route is whole
abbrev pub is_served : Node → Bool
is_served n = n.enabled && (str_eq n.type "self_built" && not n.route_upstream_broken)

module _ (free_group : ℕ) (plan_groups : ℕ → List ℕ) where
  -- `UserGroupOwners`; the groups are those of the table, whose number is the count
  unfoldable pub user_group_owners : ℕ → ℕ → ℕ → List ℕ → Db → List (ℕ × OwnedBucket)
  unfolding owners user_bucket_order
  user_group_owners user_id now group_count groups db =
      owners (λ g. g) (λ g. g ∷ []) (user_bucket_order free_group plan_groups user_id now db)
        group_count groups

  -- `UserOwnedInbounds`; the groups of a tag are read only where there are groups at all
  unfoldable pub user_owned_inbounds :
      (String → List ℕ) → ℕ → ℕ → ℕ → List Inbound → Db → List (String × OwnedBucket)
  unfolding owners user_bucket_order
  user_owned_inbounds groups_of_tag user_id now group_count inbounds db =
      owners (λ (i : Inbound). i.tag) (λ (i : Inbound). groups_of_tag i.tag)
        (user_bucket_order free_group plan_groups user_id now db) group_count
        (select (λ (i : Inbound). i.enabled) inbounds)

  -- `UserOwnedNodes`
  unfoldable pub user_owned_nodes : ℕ → ℕ → ℕ → List Node → Db → List (ℕ × OwnedBucket)
  unfolding owners user_bucket_order
  user_owned_nodes user_id now group_count nodes db =
      owners (λ (n : Node). n.id) (λ (n : Node). n.group_ids)
        (user_bucket_order free_group plan_groups user_id now db) group_count
        (select is_served nodes)
