-- ===== src/Queue/Due.antt =====
-- internal/store/userplans.go: the rows that are due (`queueDuePredicate`) around an advance.
use mathlib.Core.List.{Memᴰ}
use mathlib.Core.List.Memᴰ as Memᴰ
use text.Mathlib.TextEquality.{eq_iff}
use qing_zhou.Common.{
  ℕ, ◌<◌, ◌≡◌, refl, sym, subst, ap, ◌∙◌, String, Bool, true, false, ◌&&◌, List, [], ◌∷◌, ◌==◌, ltb,
  Distinct, Pointwise-Memᴰ, All, All-Memᴰ, All-of_Memᴰ, any, any_of_Memᴰ, any-update_where,
  select-Memᴰ, Memᴰ-select, arith, inl, inr, Bool-cases, str_eq,
}
use qing_zhou.Bucket.{Bucket, Kind, Status, is_plan, is_queued, usable_head}
use qing_zhou.Package.{Package}
use qing_zhou.Lines.{distinct, contains_key}
use qing_zhou.Store.{Db}
use qing_zhou.Queue.{
  advance_line, advance_lines, is_running, refresh_period_limits, borrowable_limit, queued_lines,
  advance_user_queues, queue_due,
}
use qing_zhou.Queue.Line.{Keeps, IsKept}
use qing_zhou.Queue.Kept.{
  ids, is_waiting, ids-Keeps, advance_line-Keeps, advanced_rows, user_plans-advance,
  advanced_rows-Keeps,
}
use qing_zhou.Queue.Progress.{
  owns_slot, IsSettled, IsReady, advance_line-IsSettled, advance_line-keeps_IsSettled,
  advance_line-IsReady,
}

Memᴰ_of_contains_key : (k : String) (ks : List String) → contains_key k ks ≡ true → Memᴰ k ks
Memᴰ_of_contains_key k [] e = cc
Memᴰ_of_contains_key k (j ∷ ks) e = elim (Bool-cases (str_eq j k)) [
  | inl t ↦ Memᴰ.head (sym ((eq_iff j k).0 t))
  | inr f ↦ Memᴰ.tail (Memᴰ_of_contains_key k ks (rw f at e))
]

Memᴰ-distinct : (ks : List String) {k : String} → Memᴰ k ks → Memᴰ k (distinct ks)
unfolding distinct
Memᴰ-distinct [] m = elim m [ ]
Memᴰ-distinct (j ∷ ks) (Memᴰ.head e) = elim (Bool-cases (contains_key j (distinct ks))) [
  | inl t ↦ rw t (rw e (Memᴰ_of_contains_key j (distinct ks) t))
  | inr f ↦ rw f (Memᴰ.head e)
]
Memᴰ-distinct (j ∷ ks) (Memᴰ.tail m) = elim (Bool-cases (contains_key j (distinct ks))) [
  | inl t ↦ rw t (Memᴰ-distinct ks m)
  | inr f ↦ rw f (Memᴰ.tail (Memᴰ-distinct ks m))
]

Distinct-of_ids :
    (rows rows' : List Bucket) → ids rows' ≡ ids rows → Distinct (ids rows) → Distinct (ids rows')
Distinct-of_ids rows rows' e d = rw e d

-- The borrowable limit of a periodic row does not decide who owns a slot.
limit_owns :
    (user_id now limit : ℕ) (key : String) (b : Bucket)
    → is_running b ≡ true
    → owns_slot user_id now key (record b { traffic_limit = limit }) ≡ owns_slot user_id now key b
unfolding usable_head
limit_owns user_id now limit key b t = ground arith

Memᴰ_of_distinct : (ks : List String) {k : String} → Memᴰ k (distinct ks) → Memᴰ k ks
unfolding distinct
Memᴰ_of_distinct [] m = elim m [ ]
Memᴰ_of_distinct (j ∷ ks) {k} m = elim (Bool-cases (contains_key j (distinct ks))) [
  | inl t ↦ Memᴰ.tail (Memᴰ_of_distinct ks (rw t at m))
  | inr f ↦ below (λ n. Memᴰ_of_distinct ks n) (rw f at m)
]
  where
    below : (Memᴰ k (distinct ks) → Memᴰ k ks) → Memᴰ k (j ∷ distinct ks) → Memᴰ k (j ∷ ks)
    below deeper (Memᴰ.head e) = Memᴰ.head e
    below deeper (Memᴰ.tail n) = Memᴰ.tail (deeper n)

module _ (user_id now : ℕ) where
  advance_lines-keeps_IsSettled :
      (keys : List String) (key : String) (rows : List Bucket)
      → Distinct (ids rows)
      → All IsReady rows
      → IsSettled user_id now key rows
      → IsSettled user_id now key (advance_lines user_id now keys rows).0
  unfolding advance_lines
  advance_lines-keeps_IsSettled [] key rows d ready s = s
  advance_lines-keeps_IsSettled (k ∷ keys) key rows d ready s =
      let rows' = (advance_line user_id now k rows).0 in
      advance_lines-keeps_IsSettled keys key rows'
        (rw (ids-Keeps user_id rows rows' (advance_line-Keeps user_id now k rows d)) d)
        (advance_line-IsReady user_id now k rows ready)
        (advance_line-keeps_IsSettled user_id now k key rows d ready s)

  advance_lines-IsSettled :
      (keys : List String) (rows : List Bucket)
      → Distinct (ids rows)
      → All IsReady rows
      → All (λ key. IsSettled user_id now key (advance_lines user_id now keys rows).0) keys
  unfolding advance_lines
  advance_lines-IsSettled [] rows d ready = tt
  advance_lines-IsSettled (k ∷ keys) rows d ready =
      let rows' = (advance_line user_id now k rows).0 in
      let d' : Distinct (ids rows') =
        rw (ids-Keeps user_id rows rows' (advance_line-Keeps user_id now k rows d)) d in
      let ready' = advance_line-IsReady user_id now k rows ready in
      (
        advance_lines-keeps_IsSettled keys k rows' d' ready'
            (advance_line-IsSettled user_id now k rows ready),
        advance_lines-IsSettled keys rows' d' ready',
      )

  refresh-IsSettled :
      (packages : List Package) (key : String) (rows : List Bucket)
      → IsSettled user_id now key rows
      → IsSettled user_id now key (refresh_period_limits packages user_id rows)
  unfolding refresh_period_limits
  refresh-IsSettled packages key rows s =
      let running = λ (b : Bucket). is_running b && b.user_id == user_id in
      let limited = λ (b : Bucket). record b { traffic_limit = borrowable_limit packages rows b } in
      rw
        (
          any-update_where (owns_slot user_id now key) running limited rows (λ b t.
              limit_owns user_id now (borrowable_limit packages rows b) key b (ground (arith, t))),
          any-update_where (is_waiting user_id key) running limited rows (λ b t. refl),
        )
        s

  -- a queued row's line is one that the loop visits
  Memᴰ-queued_lines :
      (rows : List Bucket) {b : Bucket}
      → Memᴰ b rows
      → b.user_id ≡ user_id
      → b.kind ≡ Kind.plan
      → b.status ≡ Status.queued
      → 0 < b.package_id
      → Memᴰ b.queue_key (queued_lines user_id rows)
  unfolding queued_lines
  Memᴰ-queued_lines rows m u k s p =
      Memᴰ-distinct _ (Memᴰ.map (λ (b : Bucket). b.queue_key) (select-Memᴰ _ rows m (ground arith)))

  queued_of_stage :
      (b c : Bucket) → IsKept b c → c.status ≡ Status.queued → b.status ≡ Status.queued
  queued_of_stage b c r s = let f = r.forward in ground arith

  -- A row that still waits after the advance has a row in service before it.
  pub advanced-owned :
      (packages : List Package) (rows : List Bucket) {c : Bucket}
      → Distinct (ids rows)
      → All IsReady rows
      → Memᴰ c (advanced_rows packages user_id now rows)
      → c.user_id ≡ user_id
      → c.kind ≡ Kind.plan
      → c.status ≡ Status.queued
      → 0 < c.package_id
      → any (owns_slot user_id now c.queue_key) (advanced_rows packages user_id now rows) ≡ true
  advanced-owned packages rows {c} d ready m u k s p =
      let keys = queued_lines user_id rows in
      let rows' = (advance_lines user_id now keys rows).0 in
      let final = advanced_rows packages user_id now rows in
      let (b, n, kept) =
        Pointwise-Memᴰ (Keeps user_id) rows final (advanced_rows-Keeps packages user_id now rows d)
          m in
      let r = kept.0 in
      let at_key =
        Memᴰ-queued_lines rows n (sym r.user_id ∙ u) (sym r.kind ∙ k) (queued_of_stage b c r s)
          (subst (λ x. 0 < x) r.package_id p) in
      let settled = All-Memᴰ _ keys (advance_lines-IsSettled keys rows d ready) at_key in
      let settled' =
        subst (λ key. IsSettled user_id now key final) (sym r.queue_key)
          (refresh-IsSettled packages b.queue_key rows' settled) in
      owned settled' (
        any_of_Memᴰ (is_waiting user_id c.queue_key) final m
          (ground (arith, eq_iff c.queue_key c.queue_key)))
    where
      owned :
          IsSettled user_id now c.queue_key (advanced_rows packages user_id now rows)
          → any (is_waiting user_id c.queue_key) (advanced_rows packages user_id now rows) ≡ true
          → any (owns_slot user_id now c.queue_key) (advanced_rows packages user_id now rows) ≡ true
      owned (inl o) w = o
      owned (inr none_waits) w = cc

  owned_not_due :
      (rows : List Bucket) (c : Bucket)
      → c.user_id ≡ user_id
      → (c.kind ≡ Kind.plan
          → c.status ≡ Status.queued
          → 0 < c.package_id
          → any (owns_slot user_id now c.queue_key) rows ≡ true)
      → queue_due now rows c ≡ false
  unfolding queue_due
  owned_not_due rows c u h =
      elim (Bool-cases (is_plan c.kind && (is_queued c.status && ltb 0 c.package_id))) [
        | inl t ↦ rw u (rw (h (ground arith) (ground arith) (ground arith)) (ground arith))
        | inr f ↦ ground arith
      ]

  line_visited :
      (rows : List Bucket) {key : String}
      → Memᴰ key (queued_lines user_id rows)
      → (c : Bucket) × Memᴰ c rows
        × (c.queue_key ≡ key)
        × (c.user_id ≡ user_id)
        × (c.kind ≡ Kind.plan)
        × (c.status ≡ Status.queued)
        × (0 < c.package_id)
  unfolding queued_lines
  line_visited rows m =
      let (c, n, e) = Memᴰ.of_map (λ (b : Bucket). b.queue_key) _ (Memᴰ_of_distinct _ m) in
      let (n', t) = Memᴰ-select _ rows n in
      (c, n', e, ground (arith, t), ground (arith, t), ground (arith, t), ground (arith, t))

  lines_at_rest :
      (keys : List String) (rows : List Bucket)
      → All (λ key. any (owns_slot user_id now key) rows ≡ true) keys
      → advance_lines user_id now keys rows ≡ (rows, false)
  unfolding advance_lines advance_line
  lines_at_rest [] rows a = refl
  lines_at_rest (k ∷ keys) rows a = rw (a.0, lines_at_rest keys rows a.1)

changed-advance :
    (user_id now : ℕ) (db : Db)
    → (advance_user_queues user_id now db).1
      ≡ (advance_lines user_id now (queued_lines user_id db.user_plans) db.user_plans).1
unfolding advance_user_queues
changed-advance user_id now db = refl

-- Where ids are distinct and every queued row brings a quota, an advance leaves no row of the user
-- due: none waits in a line whose slot is free.
pub advance_user_queues_settles :
    (user_id now : ℕ) (db : Db)
    → Distinct (ids db.user_plans)
    → All IsReady db.user_plans
    → let rows = (advance_user_queues user_id now db).0.user_plans in
      All (λ c. c.user_id ≡ user_id → queue_due now rows c ≡ false) rows
advance_user_queues_settles user_id now db d ready = rw user_plans-advance (
    All-of_Memᴰ _ (advanced_rows db.packages user_id now db.user_plans) λ c m u.
      owned_not_due user_id now (advanced_rows db.packages user_id now db.user_plans) c u
        (advanced-owned user_id now db.packages db.user_plans d ready m u))

-- Where ids are distinct and every queued row brings a quota, a second advance at the same instant
-- reports that it promoted nothing.
pub advance_user_queues_again :
    (user_id now : ℕ) (db : Db)
    → Distinct (ids db.user_plans)
    → All IsReady db.user_plans
    → (advance_user_queues user_id now (advance_user_queues user_id now db).0).1 ≡ false
advance_user_queues_again user_id now db d ready =
    let rows = advanced_rows db.packages user_id now db.user_plans in
    let rest = lines_at_rest user_id now (queued_lines user_id rows) rows (
      All-of_Memᴰ _ (queued_lines user_id rows) λ key m.
        let (c, n, e, u, k, s, p) = line_visited user_id now rows m in
        subst (λ x. any (owns_slot user_id now x) rows ≡ true) e
          (advanced-owned user_id now db.packages db.user_plans d ready n u k s p)) in
    rw (changed-advance, user_plans-advance) (ap (λ (r : List Bucket × Bool). r.1) rest)
