-- ===== src/Traffic/Counting.antt =====
-- internal/store/traffic_ledger.go: what the snapshots of a counter add up to. A step stands for a name
-- of a poll that went through; one that fails is rolled back to its savepoint and is no step.
use qing_zhou.Common.{
  ℕ, ◌+◌, ◌≤◌, ◌≡◌, String, Bool, true, false, ◌&&◌, Option, some, ◌∙◌, ap, subst, arith, ◌==◌,
  str_eq, first,
}
use qing_zhou.Result.{ok}
use qing_zhou.Traffic.Tables.{
  UsageDelta, TrafficPoll, TrafficBinding, Cursor, is_direct, is_cumulative, Meter,
}
use qing_zhou.Traffic.Identity.{
  is_cursor, is_binding_of, has_usage, reading_of, process_traffic_identity,
}
use qing_zhou.Traffic.Debits.{row_up, row_down, if_row}
use qing_zhou.Traffic.Marks.{
  put_mark-other, mark_up, mark_down, IsLevel, reading_of-IsLevel, put_mark-marked_up,
  put_mark-marked_down,
}
use qing_zhou.Traffic.Steps.{IsProcessed, process_traffic_identity-IsProcessed}

-- the high-water mark of a counter of one process of a node
abbrev pub mark_of : ℕ → String → String → Meter → Option Cursor
mark_of server_id name epoch m = first (is_cursor server_id name epoch) m.cursors

-- A name whose rows are others: its counter is not the one that is followed, and it spends another row.
pub record IsAside (server_id : ℕ) (name epoch : String) (i : ℕ) (p : TrafficPoll) (other : String)
    (batch : Meter) : Type 0 where
  pub counter : (p.server_id == server_id && (str_eq other name && str_eq p.epoch epoch)) ≡ false
  pub bucket :
      (b : TrafficBinding)
      → first (is_binding_of p other) batch.bindings ≡ some b
      → (is_direct b.source_kind && i == b.bucket_id) ≡ false

-- A name of a poll that reads the counter for the row.
pub record IsReading (server_id : ℕ) (name epoch : String) (i : ℕ) (p : TrafficPoll)
    (batch m : Meter) : Type 0 where
  pub at_server : p.server_id ≡ server_id
  pub at_epoch : p.epoch ≡ epoch
  pub cumulative : is_cumulative p.mode ≡ true
  pub anchored : p.baseline ≡ false
  pub mark : mark_of server_id name epoch batch ≡ mark_of server_id name epoch m
  pub bucket :
      (b : TrafficBinding)
      → first (is_binding_of p name) batch.bindings ≡ some b
      → (is_direct b.source_kind && i == b.bucket_id) ≡ true

module _ (local_day utc_day : ℕ → String) where
  -- The steps of a ledger that reads one counter for one row, among the names of other counters.
  pub data Steps (server_id : ℕ) (name epoch : String) (i : ℕ) : Meter → Meter → Type 0 where
    stay : {m : Meter} → Steps server_id name epoch i m m
    count :
        {m m' end : Meter} (p : TrafficPoll) (batch : Meter) (n : ℕ)
        → IsReading server_id name epoch i p batch m
        → process_traffic_identity local_day utc_day p name batch m ≡ ok (n, m')
        → Steps server_id name epoch i m' end
        → Steps server_id name epoch i m end
    pass_by :
        {m m' end : Meter} (p : TrafficPoll) (other : String) (batch : Meter) (n : ℕ)
        → IsAside server_id name epoch i p other batch
        → process_traffic_identity local_day utc_day p other batch m ≡ ok (n, m')
        → Steps server_id name epoch i m' end
        → Steps server_id name epoch i m end

-- What the row of a counter gains is what the counter's mark gains.
pub record IsCounted (server_id : ℕ) (name epoch : String) (i : ℕ) (m m' : Meter) : Type 0 where
  pub up :
      row_up i m' + mark_up (mark_of server_id name epoch m)
      ≡ row_up i m + mark_up (mark_of server_id name epoch m')
  pub down :
      row_down i m' + mark_down (mark_of server_id name epoch m)
      ≡ row_down i m + mark_down (mark_of server_id name epoch m')
  pub up_rises :
      mark_up (mark_of server_id name epoch m) ≤ mark_up (mark_of server_id name epoch m')
  pub down_rises :
      mark_down (mark_of server_id name epoch m) ≤ mark_down (mark_of server_id name epoch m')

counted_up :
    (d : UsageDelta) (direct here : Bool)
    → (direct && here) ≡ true
    → if_row ((has_usage d && direct) && here) d.up ≡ d.up
counted_up d direct here hit = ground arith

counted_down :
    (d : UsageDelta) (direct here : Bool)
    → (direct && here) ≡ true
    → if_row ((has_usage d && direct) && here) d.down ≡ d.down
counted_down d direct here hit = ground arith

passed_by :
    (has direct here : Bool) (n : ℕ)
    → (direct && here) ≡ false
    → if_row ((has && direct) && here) n ≡ 0
passed_by has direct here n miss = ground arith

count-IsCounted :
    (name : String) (i : ℕ) (p : TrafficPoll) (batch m m' : Meter)
    → IsReading p.server_id name p.epoch i p batch m
    → IsProcessed p name batch m m'
    → IsCounted p.server_id name p.epoch i m m'
count-IsCounted name i p batch m m' r q =
    let level : IsLevel (mark_of p.server_id name p.epoch m) (reading_of p name batch) =
      subst (λ c. IsLevel c (reading_of p name batch)) r.mark
        (reading_of-IsLevel p name batch r.cumulative r.anchored) in
    let up =
      ap (λ rows. mark_up (first (is_cursor p.server_id name p.epoch) rows)) q.cursors
      ∙ put_mark-marked_up p name (reading_of p name batch).mark m.cursors
      ∙ level.up in
    let down =
      ap (λ rows. mark_down (first (is_cursor p.server_id name p.epoch) rows)) q.cursors
      ∙ put_mark-marked_down p name (reading_of p name batch).mark m.cursors
      ∙ level.down in
    let hit = r.bucket q.binding q.bound in
    let row =
      q.ups i ∙ ap (λ k. row_up i m + k) (counted_up (reading_of p name batch).delta _ _ hit) in
    let row_d =
      q.downs i
      ∙ ap (λ k. row_down i m + k) (counted_down (reading_of p name batch).delta _ _ hit) in
    record {
      up = omega (arith, up, row);
      down = omega (arith, down, row_d);
      up_rises = omega (arith, up);
      down_rises = omega (arith, down);
    }

reading-IsCounted :
    (server_id : ℕ) (name epoch : String) (i : ℕ) (p : TrafficPoll) (batch m m' : Meter)
    → IsReading server_id name epoch i p batch m
    → IsProcessed p name batch m m'
    → IsCounted server_id name epoch i m m'
reading-IsCounted server_id name epoch i p batch m m' r q =
    subst (λ s. IsReading s name epoch i p batch m → IsCounted s name epoch i m m') r.at_server
      (subst (λ e. IsReading p.server_id name e i p batch m → IsCounted p.server_id name e i m m')
        r.at_epoch (λ own. count-IsCounted name i p batch m m' own q))
      r

pass_by-IsCounted :
    (server_id : ℕ) (name epoch : String) (i : ℕ) (p : TrafficPoll) (other : String)
    (batch m m' : Meter)
    → IsAside server_id name epoch i p other batch
    → IsProcessed p other batch m m'
    → IsCounted server_id name epoch i m m'
pass_by-IsCounted server_id name epoch i p other batch m m' r q =
    let same : mark_of server_id name epoch m' ≡ mark_of server_id name epoch m =
      ap (first (is_cursor server_id name epoch)) q.cursors
      ∙ put_mark-other server_id name epoch p other (reading_of p other batch).mark m.cursors
          r.counter in
    let miss = r.bucket q.binding q.bound in
    let row =
      q.ups i
      ∙ ap (λ k. row_up i m + k)
          (passed_by (has_usage (reading_of p other batch).delta) _ _ _ miss) in
    let row_d =
      q.downs i
      ∙ ap (λ k. row_down i m + k)
          (passed_by (has_usage (reading_of p other batch).delta) _ _ _ miss) in
    let up = ap mark_up same in
    let down = ap mark_down same in
    record {
      up = omega (arith, row, up);
      down = omega (arith, row_d, down);
      up_rises = omega (arith, up);
      down_rises = omega (arith, down);
    }

IsCounted-then :
    (server_id : ℕ) (name epoch : String) (i : ℕ) (a b c : Meter)
    → IsCounted server_id name epoch i a b
    → IsCounted server_id name epoch i b c
    → IsCounted server_id name epoch i a c
IsCounted-then server_id name epoch i a b c h k = record {
  up = omega (arith, h.up, k.up);
  down = omega (arith, h.down, k.down);
  up_rises = omega (arith, h.up_rises, k.up_rises);
  down_rises = omega (arith, h.down_rises, k.down_rises);
}

-- Whatever the order of the snapshots, and whichever of them repeat, come late or fall back: over any
-- run of names that went through, what a row has gained is what the high-water mark of its counter has
-- gained, up and down, and the mark never falls. The polls that read the counter are cumulative ones
-- without a baseline, and they bind its name to the row; between them stand names of other counters,
-- which are bound to other rows or to no customer.
pub Steps-IsCounted :
    (local_day utc_day : ℕ → String) (server_id : ℕ) (name epoch : String) (i : ℕ) (m m' : Meter)
    → Steps local_day utc_day server_id name epoch i m m'
    → IsCounted server_id name epoch i m m'
Steps-IsCounted local_day utc_day server_id name epoch i m _ Steps.stay = record {
  up = omega arith;
  down = omega arith;
  up_rises = omega arith;
  down_rises = omega arith;
}
Steps-IsCounted local_day utc_day server_id name epoch i m end
      (Steps.count {m' = m'} p batch n r h rest) =
    IsCounted-then server_id name epoch i m m' end
      (reading-IsCounted server_id name epoch i p batch m m' r
        (process_traffic_identity-IsProcessed local_day utc_day p name batch m n m' h))
      (Steps-IsCounted local_day utc_day server_id name epoch i m' end rest)
Steps-IsCounted local_day utc_day server_id name epoch i m end
      (Steps.pass_by {m' = m'} p other batch n r h rest) =
    IsCounted-then server_id name epoch i m m' end
      (pass_by-IsCounted server_id name epoch i p other batch m m' r
        (process_traffic_identity-IsProcessed local_day utc_day p other batch m n m' h))
      (Steps-IsCounted local_day utc_day server_id name epoch i m' end rest)
