-- ===== src/Traffic/Steps.antt =====
-- internal/store/traffic_ledger.go: what the processing of one name writes.
use qing_zhou.Common.{
  ℕ, ◌+◌, ◌≡◌, refl, String, Bool, true, false, ◌&&◌, Option, none, some, [], ◌∷◌, ◌++◌, ◌∙◌, ap,
  subst, ◌==◌, first, if◌then◌else◌,
}
use qing_zhou.Result.{
  ok, or_fail, binding_unavailable, traffic_pending, target_unavailable, >>=-eq-ok, or_fail-eq-ok,
  guarded-eq-ok, ok-injective,
}
use qing_zhou.Bucket.{Bucket}
use qing_zhou.Store.{Db}
use qing_zhou.Traffic.Tables.{
  TrafficPoll, TrafficBinding, GapReason, is_direct, is_cumulative, Meter,
}
use qing_zhou.Traffic.Identity.{
  note_gap, traffic_gap, put_mark, is_pending, is_binding_of, reading_of, has_usage, observation_of,
  process_traffic_identity,
}
use qing_zhou.Traffic.Debits.{up_of, down_of, row_up, row_down, if_row, count_usage-IsDebited}

-- A gap is noted in its own table.
pub record IsNoted (m m' : Meter) : Type 0 where
  pub db : m'.db ≡ m.db
  pub polls : m'.polls ≡ m.polls
  pub bindings : m'.bindings ≡ m.bindings
  pub cursors : m'.cursors ≡ m.cursors
  pub observations : m'.observations ≡ m.observations

pub IsNoted-refl : (m : Meter) → IsNoted m m
IsNoted-refl m = record {
  db = refl;
  polls = refl;
  bindings = refl;
  cursors = refl;
  observations = refl;
}

pub IsNoted-if :
    (c : Bool) (m a b : Meter) → IsNoted m a → IsNoted m b → IsNoted m (if c then a else b)
IsNoted-if true m a b h k = h
IsNoted-if false m a b h k = k

pub traffic_gap-IsNoted :
    (p : TrafficPoll) (reason : GapReason) (m : Meter) → IsNoted m (traffic_gap p reason m)
unfolding traffic_gap
traffic_gap-IsNoted p reason m =
    IsNoted-if _ m m _ (IsNoted-refl m)
      (record { db = refl; polls = refl; bindings = refl; cursors = refl; observations = refl })

pub note_gap-IsNoted :
    (p : TrafficPoll) (reason : Option GapReason) (m : Meter) → IsNoted m (note_gap p reason m)
unfolding note_gap
note_gap-IsNoted p none m = IsNoted-refl m
note_gap-IsNoted p (some reason) m = traffic_gap-IsNoted p reason m

-- What the processing of a name has written, where it went through.
pub record IsProcessed (p : TrafficPoll) (name : String) (batch m m' : Meter) : Type 0 where
  pub binding : TrafficBinding
  pub bound : first (is_binding_of p name) batch.bindings ≡ some binding
  pub polls : m'.polls ≡ m.polls
  pub bindings : m'.bindings ≡ m.bindings
  pub cursors : m'.cursors ≡ put_mark p name (reading_of p name batch).mark m.cursors
  pub observations :
      m'.observations
      ≡ m.observations ++ observation_of p name binding (reading_of p name batch) ∷ []
  pub ups :
      (i : ℕ)
      → row_up i m'
        ≡ row_up i m
          + if_row
              ((has_usage (reading_of p name batch).delta && is_direct binding.source_kind)
                && i == binding.bucket_id)
              (reading_of p name batch).delta.up
  pub downs :
      (i : ℕ)
      → row_down i m'
        ≡ row_down i m
          + if_row
              ((has_usage (reading_of p name batch).delta && is_direct binding.source_kind)
                && i == binding.bucket_id)
              (reading_of p name batch).delta.down

row_up-same : (i n : ℕ) (a b : Meter) → a.db ≡ b.db → row_up i a + n ≡ row_up i b + n
row_up-same i n a b same =
    ap (λ (t : Db). up_of (first (λ (r : Bucket). r.id == i) t.user_plans) + n) same

row_down-same : (i n : ℕ) (a b : Meter) → a.db ≡ b.db → row_down i a + n ≡ row_down i b + n
row_down-same i n a b same =
    ap (λ (t : Db). down_of (first (λ (r : Bucket). r.id == i) t.user_plans) + n) same

module _ (local_day utc_day : ℕ → String) where
  pub process_traffic_identity-IsProcessed :
      (p : TrafficPoll) (name : String) (batch m : Meter) (n : ℕ) (m' : Meter)
      → process_traffic_identity local_day utc_day p name batch m ≡ ok (n, m')
      → IsProcessed p name batch m m'
  unfolding process_traffic_identity
  process_traffic_identity-IsProcessed p name batch m n m' h =
      let (clear, h1) =
        guarded-eq-ok (is_cumulative p.mode && is_pending p name batch) traffic_pending _ h in
      let r = reading_of p name batch in
      let noted = note_gap p r.gap m in
      let marked = record noted { cursors = put_mark p name r.mark noted.cursors } in
      let g = note_gap-IsNoted p r.gap m in
      let (b, kept, h2) =
        >>=-eq-ok (or_fail (first (is_binding_of p name) batch.bindings) binding_unavailable) _
          h1 in
      let (target, h3) =
        guarded-eq-ok (is_direct b.source_kind && b.bucket_id == 0) target_unavailable _ h2 in
      let (counted, done, h4) = >>=-eq-ok _ _ h3 in
      let d =
        count_usage-IsDebited local_day utc_day (has_usage r.delta) p b r.delta marked counted
          done in
      let same : record counted {
        observations = counted.observations ++ observation_of p name b r ∷ [];
      }
          ≡ m' =
        ap (λ x. x.1) (ok-injective _ _ h4) in
      subst (IsProcessed p name batch m) same (record {
        binding = b;
        bound = or_fail-eq-ok _ binding_unavailable kept;
        polls = d.polls ∙ g.polls;
        bindings = d.bindings ∙ g.bindings;
        cursors = d.cursors ∙ ap (put_mark p name r.mark) g.cursors;
        observations =
            ap (λ os. os ++ observation_of p name b r ∷ []) (d.observations ∙ g.observations);
        ups = λ i. d.ups i ∙ row_up-same i _ marked m g.db;
        downs = λ i. d.downs i ∙ row_down-same i _ marked m g.db;
      })
