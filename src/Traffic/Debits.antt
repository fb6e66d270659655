-- ===== src/Traffic/Debits.antt =====
-- internal/store/traffic_ledger.go: what counting a reading writes.
use qing_zhou.Common.{
  ℕ, ◌+◌, ◌≡◌, refl, String, Bool, true, false, ◌&&◌, Option, none, some, List, [], ◌∷◌, ◌∙◌, ap,
  sym, subst, arith, inl, inr, ◌==◌, ==_iff, ==_refl, first, first-update_where, first-Memᴰ,
  update_where, Bool-cases, if◌then◌else◌,
}
use qing_zhou.Result.{
  ok, or_fail, bucket_not_found, counter_overflow, >>=-eq-ok, or_fail-eq-ok, guarded-eq-ok,
  ok-injective,
}
use qing_zhou.Bucket.{Bucket, Kind}
use qing_zhou.Traffic.Tables.{
  UsageDelta, TrafficPoll, TrafficBinding, is_direct, Meter, is_free_kind,
}
use qing_zhou.Traffic.{apply_bucket_usage, safe_apply_bucket_usage, overflows, check_user}
use qing_zhou.Traffic.Identity.{debit, count_usage}

abbrev pub up_of : Option Bucket → ℕ
up_of none = 0
up_of (some b) = b.used_up

abbrev pub down_of : Option Bucket → ℕ
down_of none = 0
down_of (some b) = b.used_down

-- the counters of a row, 0 for a row that is not there
abbrev pub row_up : ℕ → Meter → ℕ
row_up i m = up_of (first (λ (b : Bucket). b.id == i) m.db.user_plans)

abbrev pub row_down : ℕ → Meter → ℕ
row_down i m = down_of (first (λ (b : Bucket). b.id == i) m.db.user_plans)

-- what a debit adds
abbrev pub if_row : Bool → ℕ → ℕ
if_row c n = if c then n else 0

row-update_ne :
    (i k : ℕ) (f : Bucket → Bucket) (rows : List Bucket)
    → ((b : Bucket) → (f b).id ≡ b.id)
    → (i == k) ≡ false
    → first (λ (b : Bucket). b.id == i) (update_where (λ (b : Bucket). b.id == k) f rows)
      ≡ first (λ (b : Bucket). b.id == i) rows
row-update_ne i k f [] keep ne = refl
row-update_ne i k f (b ∷ rows) keep ne = ground (arith, keep b, row-update_ne i k f rows keep ne)

-- An update of the row with an id adds to that row and to no other.
row-update :
    (g : Option Bucket → ℕ) (i k : ℕ) (f : Bucket → Bucket) (n : ℕ) (rows : List Bucket)
    (b : Bucket)
    → ((b : Bucket) → (f b).id ≡ b.id)
    → first (λ (b : Bucket). b.id == k) rows ≡ some b
    → g (some (f b)) ≡ g (some b) + n
    → g (first (λ (b : Bucket). b.id == i) (update_where (λ (b : Bucket). b.id == k) f rows))
      ≡ g (first (λ (b : Bucket). b.id == i) rows) + if_row (i == k) n
row-update g i k f n rows b keep found adds = elim (Bool-cases (i == k)) [
  | inl same ↦
      subst
        (λ j.
          g (first (λ (b : Bucket). b.id == j) (update_where (λ (b : Bucket). b.id == k) f rows))
          ≡ g (first (λ (b : Bucket). b.id == j) rows) + if_row (j == k) n)
        (sym ((==_iff i k).0 same))
        (rw (==_refl k) (ap g updated ∙ adds ∙ ap (λ o. g o + n) (sym found)))
  | inr other ↦ rw other (ap g (row-update_ne i k f rows keep other) ∙ omega arith)
]
  where
    updated :
        first (λ (b : Bucket). b.id == k) (update_where (λ (b : Bucket). b.id == k) f rows)
        ≡ some (f b)
    updated =
        first-update_where (λ (b : Bucket). b.id == k) (λ (b : Bucket). b.id == k) f rows b
          (λ c. ap (λ j. j == k) (keep c)) (first-Memᴰ (λ (b : Bucket). b.id == k) rows found).1
          found

-- The tables that a debit leaves, and the rows that it leaves or raises.
pub record IsDebited (hit : Bool) (k : ℕ) (d : UsageDelta) (m m' : Meter) : Type 0 where
  pub polls : m'.polls ≡ m.polls
  pub bindings : m'.bindings ≡ m.bindings
  pub cursors : m'.cursors ≡ m.cursors
  pub observations : m'.observations ≡ m.observations
  pub ups : (i : ℕ) → row_up i m' ≡ row_up i m + if_row (hit && i == k) d.up
  pub downs : (i : ℕ) → row_down i m' ≡ row_down i m + if_row (hit && i == k) d.down

not-IsDebited : (k : ℕ) (d : UsageDelta) (m : Meter) → IsDebited false k d m m
not-IsDebited k d m = record {
  polls = refl;
  bindings = refl;
  cursors = refl;
  observations = refl;
  ups = λ i. omega arith;
  downs = λ i. omega arith;
}

module _ (local_day utc_day : ℕ → String) where
  apply_bucket_usage-IsDebited :
      (k user_id package_id : ℕ) (kind : Option Kind) (d : UsageDelta) (at : ℕ) (m : Meter)
      (b : Bucket)
      → first (λ (b : Bucket). b.id == k) m.db.user_plans ≡ some b
      → IsDebited true k d m (apply_bucket_usage local_day k user_id package_id kind d at m)
  unfolding apply_bucket_usage
  apply_bucket_usage-IsDebited k user_id package_id kind d at m b found =
      let f = λ (b : Bucket). record b {
        used_up = b.used_up + d.up;
        used_down = b.used_down + d.down;
        last_online_at = at;
        updated_at = at;
      } in
      record {
        polls = refl;
        bindings = refl;
        cursors = refl;
        observations = refl;
        ups = λ i. row-update up_of i k f d.up m.db.user_plans b (λ c. refl) found refl;
        downs = λ i. row-update down_of i k f d.down m.db.user_plans b (λ c. refl) found refl;
      }

  safe_apply-IsDebited :
      (k user_id package_id : ℕ) (kind : Option Kind) (d : UsageDelta) (at : ℕ) (m m' : Meter)
      → safe_apply_bucket_usage local_day k user_id package_id kind d at m ≡ ok m'
      → IsDebited true k d m m'
  unfolding safe_apply_bucket_usage
  safe_apply-IsDebited k user_id package_id kind d at m m' h =
      let (b, kept, h1) =
        >>=-eq-ok (or_fail (first (λ (b : Bucket). b.id == k) m.db.user_plans) bucket_not_found) _
          h in
      let (small, h2) = guarded-eq-ok (overflows b.used_up b.used_down d) counter_overflow _ h1 in
      let (t, checked, h3) = >>=-eq-ok (check_user (is_free_kind kind) user_id d m.db) _ h2 in
      subst (IsDebited true k d m) (ok-injective _ _ h3) (
        apply_bucket_usage-IsDebited k user_id package_id kind d at m b
          (or_fail-eq-ok _ bucket_not_found kept))

  debit-IsDebited :
      (direct : Bool) (p : TrafficPoll) (b : TrafficBinding) (d : UsageDelta) (m m' : Meter)
      → debit local_day utc_day direct p b d m ≡ ok m'
      → IsDebited direct b.bucket_id d m m'
  unfolding debit
  debit-IsDebited false p b d m m' h =
      subst (IsDebited false b.bucket_id d m) (ok-injective _ _ h) (not-IsDebited b.bucket_id d m)
  debit-IsDebited true p b d m m' h =
      let (charged, applied, h1) = >>=-eq-ok _ _ h in
      let e =
        safe_apply-IsDebited b.bucket_id b.user_id b.package_id b.bucket_kind d p.observed_at m
          charged applied in
      subst (IsDebited true b.bucket_id d m) (ok-injective _ _ h1) (record {
        polls = e.polls;
        bindings = e.bindings;
        cursors = e.cursors;
        observations = e.observations;
        ups = e.ups;
        downs = e.downs;
      })

  pub count_usage-IsDebited :
      (some_usage : Bool) (p : TrafficPoll) (b : TrafficBinding) (d : UsageDelta) (m m' : Meter)
      → count_usage local_day utc_day some_usage p b d m ≡ ok m'
      → IsDebited (some_usage && is_direct b.source_kind) b.bucket_id d m m'
  unfolding count_usage
  count_usage-IsDebited false p b d m m' h =
      subst (IsDebited false b.bucket_id d m) (ok-injective _ _ h) (not-IsDebited b.bucket_id d m)
  count_usage-IsDebited true p b d m m' h =
      let (charged, applied, h1) = >>=-eq-ok _ _ h in
      let e = debit-IsDebited (is_direct b.source_kind) p b d m charged applied in
      subst (IsDebited (is_direct b.source_kind) b.bucket_id d m) (ok-injective _ _ h1) (record {
        polls = e.polls;
        bindings = e.bindings;
        cursors = e.cursors;
        observations = e.observations;
        ups = e.ups;
        downs = e.downs;
      })
