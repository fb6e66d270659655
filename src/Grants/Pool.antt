-- ===== src/Grants/Pool.antt =====
-- internal/store/userplans.go: the pool that traffic packages top up, and that refunds take back from.
use qing_zhou.Common.{
  ℕ, ◌+◌, ◌-◌, ◌≡◌, refl, String, Option, none, some, List, ◌∙◌, ap, arith, inl, inr, ==_refl, ◌==◌,
  first, update_where, Option-cases, larger, first-snoc, first-update_where,
}
use qing_zhou.Bucket.{Bucket, used}
use qing_zhou.Store.{Db}
use qing_zhou.Grants.{is_pool_of, add_to_pool, sub_from_pool, reduced_limit, insert_bucket}

-- the pool of a user
abbrev pub pool : ℕ → Db → Option Bucket
pool user_id db = first (is_pool_of user_id) db.user_plans

abbrev pub pool_limit : Option Bucket → ℕ
pool_limit none = 0
pool_limit (some p) = p.traffic_limit

abbrev pub pool_used : Option Bucket → ℕ
pool_used none = 0
pool_used (some p) = used p

-- An update of the row that was found, which leaves its user and kind alone, is what is found next.
found-update :
    (user_id : ℕ) (f : Bucket → Bucket) (rows : List Bucket) (p : Bucket)
    → ((b : Bucket) → is_pool_of user_id (f b) ≡ is_pool_of user_id b)
    → first (is_pool_of user_id) rows ≡ some p
    → first (is_pool_of user_id) (update_where (λ (b : Bucket). b.id == p.id) f rows) ≡ some (f p)
found-update user_id f rows p keep e =
    first-update_where (is_pool_of user_id) (λ (b : Bucket). b.id == p.id) f rows p keep
      (==_refl p.id) e

-- Traffic that is added stands in the user's pool: it is on top of the pool's limit, and what is used
-- is as before; a user without a pool has one with this traffic and nothing used.
pub add_to_pool-pool :
    (user_id : ℕ) (username : String) (bytes now : ℕ) (db : Db)
    → (p : Bucket) × (pool user_id (add_to_pool user_id username bytes now db) ≡ some p)
      × (p.traffic_limit ≡ pool_limit (pool user_id db) + bytes)
      × (used p ≡ pool_used (pool user_id db))
unfolding add_to_pool insert_bucket
add_to_pool-pool user_id username bytes now db = elim (Option-cases (pool user_id db)) [
  | inl missing ↦
      rw (add_to_pool, missing)
        (
          _,
          first-snoc (is_pool_of user_id) db.user_plans _ missing (rw (==_refl user_id) refl),
          ground arith,
          ground arith,
        )
  | inr (p, found) ↦
      rw (add_to_pool, found)
        (
          _,
          found-update user_id
              (λ (b : Bucket). record b {
                traffic_limit = b.traffic_limit + bytes;
                updated_at = now;
              })
              db.user_plans p (λ b. refl) found,
          refl,
          refl,
        )
]

-- Traffic that is taken back leaves the pool's limit at what is used, or at what is left of it if that
-- is more; the pool's use is as before, and a user without a pool still has none.
pub sub_from_pool-pool :
    (user_id bytes now : ℕ) (db : Db)
    → (pool_limit (pool user_id (sub_from_pool user_id bytes now db))
        ≡ larger (pool_limit (pool user_id db) - bytes) (pool_used (pool user_id db)))
      × (pool_used (pool user_id (sub_from_pool user_id bytes now db))
          ≡ pool_used (pool user_id db))
unfolding sub_from_pool reduced_limit
sub_from_pool-pool user_id bytes now db = elim (Option-cases (pool user_id db)) [
  | inl missing ↦
      rw (sub_from_pool, missing) (ap pool_limit missing ∙ ground arith, ap pool_used missing)
  | inr (p, found) ↦
      rw (sub_from_pool, found)
        (let kept =
            found-update user_id
              (λ (b : Bucket). record b { traffic_limit = reduced_limit p bytes; updated_at = now })
              db.user_plans p (λ b. refl) found in
          (ap pool_limit kept, ap pool_used kept))
]
