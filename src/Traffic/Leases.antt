-- ===== src/Traffic/Leases.antt =====
-- internal/store/traffic_ledger.go: the lease of a node's counters, `AcquireTrafficLease` and
-- `ReleaseTrafficLease`, which several processes of the panel ask for.
pub mod Holding
pub mod Exclusion
use qing_zhou.Common.{
  ℕ, ◌+◌, ◌<◌, ◌≡◌, ◌≢◌, refl, ap, sym, ◌∙◌, arith, inl, inr, String, Bool, true, false, ◌&&◌, ◌||◌,
  List, [], ◌∷◌, ◌++◌, map, leb, ◌==◌, str_eq, any, update_where, delete_where, All, Distinct,
  Bool-cases, if◌then◌else◌,
}

-- a row of `traffic_collection_leases`
pub record Lease : Type 0 where
  pub server_id : ℕ
  pub owner : String
  pub expires_at : ℕ

abbrev pub leases_of : List Lease → List ℕ
leases_of rows = map (λ (l : Lease). l.server_id) rows

-- the WHERE of the conflict: the lease ran out, or it is the caller's own
abbrev pub is_takeable : ℕ → String → ℕ → Lease → Bool
is_takeable server_id owner now l =
    l.server_id == server_id && (leb l.expires_at now || str_eq l.owner owner)

-- `AcquireTrafficLease`: whether a row was written
unfoldable pub acquire_traffic_lease : ℕ → String → ℕ → List Lease → Bool × List Lease
acquire_traffic_lease server_id owner now rows =
    if any (λ (l : Lease). l.server_id == server_id) rows
    then (
      any (is_takeable server_id owner now) rows,
      update_where (is_takeable server_id owner now)
          (λ (l : Lease). record l { owner = owner; expires_at = now + 60 }) rows,
    )
    else (true, rows ++ record { server_id = server_id; owner = owner; expires_at = now + 60 } ∷ [])

-- `ReleaseTrafficLease`
unfoldable pub release_traffic_lease : ℕ → String → List Lease → List Lease
release_traffic_lease server_id owner =
    delete_where (λ (l : Lease). l.server_id == server_id && str_eq l.owner owner)

-- What another process asks for, before an instant.
pub data Request : Type 0 where
  acquire : (server_id : ℕ) (owner : String) (now : ℕ) → Request
  release : (server_id : ℕ) (owner : String) → Request

abbrev pub request : Request → List Lease → List Lease
request (Request.acquire server_id owner now) rows =
    (acquire_traffic_lease server_id owner now rows).1
request (Request.release server_id owner) rows = release_traffic_lease server_id owner rows

abbrev pub requests : List Request → List Lease → List Lease
requests [] rows = rows
requests (r ∷ rs) rows = requests rs (request r rows)

abbrev pub IsForeign : String → ℕ → Request → Type 0
IsForeign owner until (Request.acquire server_id other now) = (other ≢ owner) × (now < until)
IsForeign owner until (Request.release server_id other) = other ≢ owner
