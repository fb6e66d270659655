-- ===== src/Traffic/Marks.antt =====
-- internal/store/traffic_ledger.go: the high-water marks of the counters.
use text.Mathlib.TextPositions.{eq_refl}
use text.Mathlib.TextEquality.{eq_iff}
use qing_zhou.Common.{
  ◌||◌, ◌-◌, ℕ, ◌+◌, ◌≡◌, refl, String, Bool, true, false, ◌&&◌, Option, none, some, List, [], ◌∷◌,
  ◌++◌, ap, arith, inl, inr, ◌==◌, ==_iff, ==_refl, str_eq, any, first, first-snoc, first_of_any,
  update_where, ltb, leb, Bool-cases,
}
use qing_zhou.Traffic.Tables.{is_cumulative, UsageDelta, TrafficPoll, Cursor, Meter}
use qing_zhou.Traffic.Identity.{
  Reading, usage_of, cursor_of, reading_of, read_counter, is_cursor, is_cursor_of, mark_row,
  put_mark,
}

first-written :
    (p : Cursor → Bool) (r : Cursor) (rows : List Cursor)
    → any p rows ≡ true
    → p r ≡ true
    → first p (update_where p (λ _. r) rows) ≡ some r
first-written p r [] e t = cc
first-written p r (c ∷ rows) e t = ground (arith, first-written p r rows)

first-written_other :
    (p q : Cursor → Bool) (r : Cursor) (rows : List Cursor)
    → ((c : Cursor) → q c ≡ true → p c ≡ false)
    → p r ≡ false
    → first p (update_where q (λ _. r) rows) ≡ first p rows
first-written_other p q r [] apart t = refl
first-written_other p q r (c ∷ rows) apart t =
    ground (arith, apart c, first-written_other p q r rows apart t)

first-snoc_other :
    (p : Cursor → Bool) (r : Cursor) (rows : List Cursor)
    → p r ≡ false
    → first p (rows ++ r ∷ []) ≡ first p rows
first-snoc_other p r [] t = rw t refl
first-snoc_other p r (c ∷ rows) t = ground (arith, first-snoc_other p r rows t)

is_cursor_own :
    (p : TrafficPoll) (name : String) (d : UsageDelta)
    → is_cursor_of p name (mark_row p name d) ≡ true
is_cursor_own p name d = rw (==_refl p.server_id, eq_refl name, eq_refl p.epoch) refl

-- The mark that is written is the mark that is found.
pub put_mark-same :
    (p : TrafficPoll) (name : String) (d : UsageDelta) (rows : List Cursor)
    → first (is_cursor_of p name) (put_mark p name (some d) rows) ≡ some (mark_row p name d)
unfolding put_mark
put_mark-same p name d rows = elim (Bool-cases (any (is_cursor_of p name) rows)) [
  | inl there ↦
      rw there (
        first-written (is_cursor_of p name) (mark_row p name d) rows there (is_cursor_own p name d))
  | inr absent ↦ rw absent (
      first-snoc (is_cursor_of p name) rows (mark_row p name d)
        (first_of_any (is_cursor_of p name) rows absent) (is_cursor_own p name d))
]

and-eq-true : (a b : Bool) → (a && b) ≡ true → (a ≡ true) × (b ≡ true)
and-eq-true true b h = (refl, h)
and-eq-true false b h = cc

-- A row of one counter is no row of another one.
cursors_apart :
    (s : ℕ) (n e : String) (p : TrafficPoll) (name : String) (c : Cursor)
    → (p.server_id == s && (str_eq name n && str_eq p.epoch e)) ≡ false
    → is_cursor_of p name c ≡ true
    → is_cursor s n e c ≡ false
cursors_apart s n e p name c other own =
    let (here, own1) = and-eq-true _ _ own in
    let (named, since) = and-eq-true _ _ own1 in
    rw
      (
        (==_iff c.server_id p.server_id).0 here,
        (eq_iff c.counter_name name).0 named,
        (eq_iff c.epoch p.epoch).0 since,
      )
      other

-- The marks of the other counters stay.
pub put_mark-other :
    (s : ℕ) (n e : String) (p : TrafficPoll) (name : String) (mark : Option UsageDelta)
    (rows : List Cursor)
    → (p.server_id == s && (str_eq name n && str_eq p.epoch e)) ≡ false
    → first (is_cursor s n e) (put_mark p name mark rows) ≡ first (is_cursor s n e) rows
unfolding put_mark
put_mark-other s n e p name none rows other = refl
put_mark-other s n e p name (some d) rows other =
    elim (Bool-cases (any (is_cursor_of p name) rows)) [
      | inl there ↦ rw there (
          first-written_other (is_cursor s n e) (is_cursor_of p name) (mark_row p name d) rows
            (λ c own. cursors_apart s n e p name c other own) other)
      | inr absent ↦ rw absent (first-snoc_other (is_cursor s n e) (mark_row p name d) rows other)
    ]

-- the counters of a mark, 0 before the first one
abbrev pub mark_up : Option Cursor → ℕ
mark_up none = 0
mark_up (some c) = c.up

abbrev pub mark_down : Option Cursor → ℕ
mark_down none = 0
mark_down (some c) = c.down

-- the counters of the mark that a reading leaves
abbrev pub marked_up : Option UsageDelta → Option Cursor → ℕ
marked_up none c = mark_up c
marked_up (some d) c = d.up

abbrev pub marked_down : Option UsageDelta → Option Cursor → ℕ
marked_down none c = mark_down c
marked_down (some d) c = d.down

or-eq-false : (a b : Bool) → (a || b) ≡ false → (a ≡ false) × (b ≡ false)
or-eq-false true b h = cc
or-eq-false false b h = (refl, h)

grown : (a b : ℕ) → ltb a b ≡ false → a ≡ b + (a - b)
grown a b h = ground arith

-- What a reading counts is what its mark rises by.
pub record IsLevel (c : Option Cursor) (r : Reading) : Type 0 where
  pub up : marked_up r.mark c ≡ mark_up c + r.delta.up
  pub down : marked_down r.mark c ≡ mark_down c + r.delta.down

pub read_counter-IsLevel :
    (p : TrafficPoll) (raw : UsageDelta) (c : Option Cursor)
    → p.baseline ≡ false
    → IsLevel c (read_counter p raw c)
unfolding read_counter
read_counter-IsLevel p raw none fresh = rw fresh (record { up = omega arith; down = omega arith })
read_counter-IsLevel p raw (some c) fresh = elim (Bool-cases (leb p.sequence c.sequence)) [
  | inl late ↦ rw late (record { up = omega arith; down = omega arith })
  | inr next ↦ elim (Bool-cases (ltb raw.up c.up || ltb raw.down c.down)) [
    | inl fell ↦ rw (next, fell) (record { up = omega arith; down = omega arith })
    | inr rose ↦
        let (wide, deep) = or-eq-false _ _ rose in
        rw (next, rose) (record { up = grown raw.up c.up wide; down = grown raw.down c.down deep })
  ]
]

pub put_mark-marked_up :
    (p : TrafficPoll) (name : String) (mark : Option UsageDelta) (rows : List Cursor)
    → mark_up (first (is_cursor_of p name) (put_mark p name mark rows))
      ≡ marked_up mark (first (is_cursor_of p name) rows)
unfolding put_mark
put_mark-marked_up p name none rows = refl
put_mark-marked_up p name (some d) rows = ap mark_up (put_mark-same p name d rows)

pub put_mark-marked_down :
    (p : TrafficPoll) (name : String) (mark : Option UsageDelta) (rows : List Cursor)
    → mark_down (first (is_cursor_of p name) (put_mark p name mark rows))
      ≡ marked_down mark (first (is_cursor_of p name) rows)
unfolding put_mark
put_mark-marked_down p name none rows = refl
put_mark-marked_down p name (some d) rows = ap mark_down (put_mark-same p name d rows)

-- What a cumulative poll counts is what the mark rises by.
pub reading_of-IsLevel :
    (p : TrafficPoll) (name : String) (batch : Meter)
    → is_cumulative p.mode ≡ true
    → p.baseline ≡ false
    → IsLevel (cursor_of p name batch) (reading_of p name batch)
unfolding reading_of
reading_of-IsLevel p name batch cumulative anchored =
    rw cumulative
      (read_counter-IsLevel p (usage_of name p.traffic) (cursor_of p name batch) anchored)
