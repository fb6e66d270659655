-- ===== src/Ownership/Entitled.antt =====
-- internal/store/singbox.go: what a row that owns a node is entitled to.
use mathlib.Core.List.{Memᴰ}
use qing_zhou.Common.{
  ℕ, ◌≡◌, refl, inl, inr, Bool, true, false, Option, none, some, List, [], ◌∷◌, ◌++◌, ltb, ◌==◌,
  any, select, first-All, first-Memᴰ, All, Memᴰ-select, Memᴰ_of_any, Bool-cases, if◌then◌else◌, ◌<◌,
  ◌⊎◌, ◌&&◌, arith, sym, subst, ==_iff, ltb→lt,
}
use qing_zhou.Bucket.{Bucket, is_plan, is_free, is_pool, is_queued, not_expired, can_carry}
use qing_zhou.Store.{Db}
use qing_zhou.Ownership.{
  OwnedBucket, all_plan_groups, groups_of, own, is_live_plan, order_buckets, user_bucket_order,
  pick_owner,
}
use qing_zhou.Ownership.Owners.{Node, with_entry, owners, is_served, user_owned_nodes}
use text.Mathlib.TextEquality.{eq_iff}
use qing_zhou.Ownership.Shares.{IsEntitled, order_buckets-IsEntitled}

-- Who is picked stands in the order, and has one of the groups.
pick_owner-covers {ℓ} :
    (P : OwnedBucket → Type ℓ) (ord : List OwnedBucket) (groups : List ℕ) (group_count : ℕ)
    (o : OwnedBucket)
    → All P ord
    → pick_owner ord groups group_count ≡ some o
    → P o × ((g : ℕ) × Memᴰ g groups × (any (λ h. h == g) o.groups ≡ true))
unfolding pick_owner
pick_owner-covers P ord groups group_count o all h = elim (Bool-cases (group_count == 0)) [
  | inl zero ↦ cc (rw zero at h)
  | inr some_groups ↦
      let picked = rw some_groups at h in
      (
        first-All P (λ (o : OwnedBucket). any (λ g. any (λ h. h == g) o.groups) groups) ord all
            picked,
        Memᴰ_of_any (λ g. any (λ h. h == g) o.groups) groups
            (first-Memᴰ (λ (o : OwnedBucket). any (λ g. any (λ h. h == g) o.groups) groups) ord
              picked).1,
      )
]

owners-All {ℓ κ ι} :
    {A : Type ℓ} {K : Type κ} (P : K × OwnedBucket → Type ι) (key : A → K) (groups : A → List ℕ)
    (ord : List OwnedBucket) (group_count : ℕ) (xs : List A)
    → ((x : A)
        → Memᴰ x xs
        → (o : OwnedBucket) → pick_owner ord (groups x) group_count ≡ some o
        → P (key x, o))
    → All P (owners key groups ord group_count xs)
unfolding owners
owners-All P key groups ord group_count [] h = tt
owners-All P key groups ord group_count (x ∷ xs) h =
    entry (pick_owner ord (groups x) group_count) refl
      (owners-All P key groups ord group_count xs (λ y m. h y (Memᴰ.tail m)))
  where
    entry :
        (o : Option OwnedBucket)
        → pick_owner ord (groups x) group_count ≡ o
        → All P (owners key groups ord group_count xs)
        → All P (with_entry (key x) o (owners key groups ord group_count xs))
    entry none e rest = rest
    entry (some o) e rest = (h x (Memᴰ.head refl) o e, rest)

-- A plan row that opens the groups of its package to the user's grants and pool: not queued, with a
-- limit, and not expired.
abbrev pub IsValidPlan : ℕ → List Bucket → Bucket → Type 0
IsValidPlan now rows r =
    Memᴰ r rows
    × (is_plan r.kind ≡ true)
    × (is_queued r.status ≡ false)
    × (0 < r.traffic_limit)
    × (not_expired now r ≡ true)

-- A row that may carry the traffic of the group, and why.
pub data CarriesGroup (free_group : ℕ) (plan_groups : ℕ → List ℕ) (now : ℕ) (rows : List Bucket)
    (g : ℕ) (b : Bucket) : Type 0 where
  of_package :
      is_plan b.kind ≡ true
      → can_carry now b ≡ true
      → 0 < b.package_id
      → Memᴰ g (plan_groups b.package_id)
      → CarriesGroup free_group plan_groups now rows g b
  of_grant :
      is_plan b.kind ≡ true
      → can_carry now b ≡ true
      → b.package_id ≡ 0
      → ((0 < free_group) × (g ≡ free_group))
        ⊎ ((r : Bucket) × IsValidPlan now rows r × Memᴰ g (plan_groups r.package_id))
      → CarriesGroup free_group plan_groups now rows g b
  of_free :
      is_free b.kind ≡ true
      → 0 < free_group
      → g ≡ free_group
      → CarriesGroup free_group plan_groups now rows g b
  of_pool :
      is_pool b.kind ≡ true
      → can_carry now b ≡ true
      → (r : Bucket) × IsValidPlan now rows r × Memᴰ g (plan_groups r.package_id)
      → CarriesGroup free_group plan_groups now rows g b

Memᴰ_of_test : (g : ℕ) (gs : List ℕ) → any (λ h. h == g) gs ≡ true → Memᴰ g gs
Memᴰ_of_test g gs e =
    let (h, m, t) = Memᴰ_of_any (λ h. h == g) gs e in subst (λ k. Memᴰ k gs) ((==_iff h g).0 t) m

any-append :
    (p : ℕ → Bool) (xs ys : List ℕ)
    → any p (xs ++ ys) ≡ true
    → (any p xs ≡ true) ⊎ (any p ys ≡ true)
any-append p [] ys e = inr e
any-append p (x ∷ xs) ys e = elim (Bool-cases (p x)) [
  | inl t ↦ inl (rw t refl)
  | inr f ↦ elim (any-append p xs ys (rw f at e)) [ inl l ↦ inl (rw f l) | inr r ↦ inr r ]
]

module _ (free_group : ℕ) (plan_groups : ℕ → List ℕ) (now : ℕ) where
  opener_of :
      (g : ℕ) (rows : List Bucket)
      → any (λ h. h == g) (all_plan_groups free_group plan_groups now rows) ≡ true
      → (r : Bucket) × IsValidPlan now rows r × Memᴰ g (plan_groups r.package_id)
  unfolding all_plan_groups
  opener_of g [] e = cc
  opener_of g (b ∷ rows) e =
      elim (Bool-cases (is_live_plan b && (ltb 0 b.traffic_limit && not_expired now b))) [
        | inl valid ↦
            elim (any-append (λ h. h == g) (plan_groups b.package_id)
              (all_plan_groups free_group plan_groups now rows) (rw valid at e)) [
                | inl mine ↦ (
                  b,
                  (
                    Memᴰ.head refl,
                    ground (arith, valid),
                    ground (arith, valid),
                    ground (arith, valid),
                    ground (arith, valid),
                  ),
                  Memᴰ_of_test g (plan_groups b.package_id) mine,
                )
                | inr later ↦ deeper (opener_of g rows later)
              ]
        | inr other ↦ deeper (opener_of g rows (rw other at e))
      ]
    where
      deeper :
          (r : Bucket) × IsValidPlan now rows r × Memᴰ g (plan_groups r.package_id)
          → (r : Bucket) × IsValidPlan now (b ∷ rows) r × Memᴰ g (plan_groups r.package_id)
      deeper (r, (m, one, serving, limited, lasts), n) =
          (r, (Memᴰ.tail m, one, serving, limited, lasts), n)

  free_test : (g : ℕ) → any (λ h. h == g) (free_group ∷ []) ≡ true → g ≡ free_group
  free_test g e = sym ((==_iff free_group g).0 (ground (arith, e)))

  plan-CarriesGroup :
      (rows : List Bucket) (g : ℕ) (b : Bucket)
      → is_live_plan b ≡ true
      → can_carry now b ≡ true
      → any
          (λ h. h == g)
          (groups_of free_group plan_groups (all_plan_groups free_group plan_groups now rows) b)
        ≡ true
      → CarriesGroup free_group plan_groups now rows g b
  unfolding groups_of
  plan-CarriesGroup rows g b live carries e =
      let is_one : is_plan b.kind ≡ true = ground (arith, live) in
      elim (Bool-cases (b.package_id == 0)) [
        | inl grant ↦
            CarriesGroup.of_grant is_one carries ((==_iff b.package_id 0).0 grant)
              (elim (any-append (λ h. h == g) (if ltb 0 free_group then free_group ∷ [] else [])
                (all_plan_groups free_group plan_groups now rows) (rw grant at e)) [
                  | inl own ↦ inl (opened (ltb 0 free_group) refl own)
                  | inr others ↦ inr (opener_of g rows others)
                ])
        | inr sold ↦
            CarriesGroup.of_package is_one carries (ground (arith, sold))
              (Memᴰ_of_test g (plan_groups b.package_id) (rw sold at e))
      ]
    where
      opened :
          (c : Bool)
          → ltb 0 free_group ≡ c
          → any (λ h. h == g) (if c then free_group ∷ [] else []) ≡ true
          → (0 < free_group) × (g ≡ free_group)
      opened true there own = (ltb→lt 0 free_group there, free_test g own)
      opened false there own = cc

  IsEntitled-CarriesGroup :
      (rows : List Bucket) (g : ℕ) (o : OwnedBucket)
      → IsEntitled free_group plan_groups now rows o
      → any (λ h. h == g) o.groups ≡ true
      → Memᴰ o.bucket rows
        × (is_queued o.bucket.status ≡ false)
        × CarriesGroup free_group plan_groups now rows g o.bucket
  IsEntitled-CarriesGroup rows g o (IsEntitled.plan b m live carries) e =
      (m, ground (arith, live), plan-CarriesGroup rows g b live carries e)
  IsEntitled-CarriesGroup rows g o (IsEntitled.free b m live there) e =
      (m, ground (arith, live), CarriesGroup.of_free (ground (arith, live)) there (free_test g e))
  IsEntitled-CarriesGroup rows g o (IsEntitled.pool b m live carries) e = (
    m,
    ground (arith, live),
    CarriesGroup.of_pool (ground (arith, live)) carries (opener_of g rows e),
  )

-- An entry of the nodes: a node that is served, and a row in service that carries one of its groups.
abbrev pub IsOwner : ℕ → (ℕ → List ℕ) → ℕ → List Bucket → List Node → ℕ × OwnedBucket → Type 0
IsOwner free_group plan_groups now rows nodes (id, o) =
    Memᴰ o.bucket rows
    × (is_queued o.bucket.status ≡ false)
    × ((n : Node) × Memᴰ n nodes
        × (n.enabled ≡ true)
        × (n.type ≡ "self_built")
        × (n.route_upstream_broken ≡ false)
        × (n.id ≡ id)
        × ((g : ℕ) × Memᴰ g n.group_ids × CarriesGroup free_group plan_groups now rows g o.bucket))

-- Each node that a user is given is enabled, self-built and on a route that is whole, and it goes to a row
-- of the user that is not queued and may carry one of the node's own groups: a plan that can carry
-- traffic, for the groups of its package, or, for a grant without a package, for the free group and the
-- groups of the user's valid plans; the free row, for the free group alone; a pool that can carry
-- traffic, for the groups of the valid plans. A plan is valid where it is not queued, has a limit and has
-- not expired, used up or not.
pub user_owned_nodes-IsOwner :
    (free_group : ℕ) (plan_groups : ℕ → List ℕ) (user_id now group_count : ℕ) (nodes : List Node)
    (db : Db)
    → All
        (IsOwner free_group plan_groups now
          (select (λ (b : Bucket). b.user_id == user_id) db.user_plans)
          nodes)
        (user_owned_nodes free_group plan_groups user_id now group_count nodes db)
unfolding user_owned_nodes user_bucket_order
user_owned_nodes-IsOwner free_group plan_groups user_id now group_count nodes db =
    let rows = select (λ (b : Bucket). b.user_id == user_id) db.user_plans in
    let ord = order_buckets free_group plan_groups rows now in
    owners-All (IsOwner free_group plan_groups now rows nodes) (λ (n : Node). n.id)
      (λ (n : Node). n.group_ids) ord group_count (select is_served nodes)
      (λ n m o e.
        let (entitled, covers) =
          pick_owner-covers (IsEntitled free_group plan_groups now rows) ord n.group_ids group_count
            o (order_buckets-IsEntitled free_group plan_groups now rows) e in
        let (there, served) = Memᴰ-select is_served nodes m in
        let (g, own, test) = covers in
        let (listed, serving, carries) =
          IsEntitled-CarriesGroup free_group plan_groups now rows g o entitled test in
        (
          listed,
          serving,
          (
            n,
            there,
            ground (arith, served),
            (eq_iff n.type "self_built").0 (ground (arith, served)),
            ground (arith, served),
            refl,
            (g, own, carries),
          ),
        ))
