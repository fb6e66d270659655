-- ===== src/Traffic/Replay.antt =====
-- internal/store/traffic_ledger.go: a poll that has gone through is reported again.
use qing_zhou.Common.{
  ltb, any, ◌==◌, ◌*◌, ℕ, ◌≡◌, refl, String, true, false, Option, none, some, List, [], ◌∷◌, ◌++◌,
  ◌∙◌, ap, sym, subst, inl, inr, str_eq, first, first-snoc, first-update_where, first-Memᴰ,
  Bool-cases,
}
use text.Mathlib.TextPositions.{eq_refl}
use text.Mathlib.TextEquality.{eq_iff}
use qing_zhou.Result.{
  ok, ok-injective, >>=-eq-ok, guarded-eq-ok, invalid_traffic_poll, duplicate_row,
}
use qing_zhou.Traffic.Tables.{TrafficPoll, PollRow, Meter}
use qing_zhou.Traffic.Relays.{Relays}
use qing_zhou.Traffic.Polls.{process_traffic_poll}
use qing_zhou.Traffic.Recording.{
  IncomingPoll, valid_poll, find_poll, numbered_poll, journal, stored_or, record_traffic_poll,
}
use qing_zhou.Traffic.Kept.{process_pending-polls, journal-polls, numbered_poll-id}

-- A poll is stored under an id with a digest, and is done.
abbrev IsDone : String → String → Meter → Type 0
IsDone id digest m =
    (row : PollRow) × (find_poll id m ≡ some row) × (row.digest ≡ digest) × (row.done ≡ true)

module _ (local_day utc_day : ℕ → String) (free_group : ℕ) (plan_groups : ℕ → List ℕ) where
  -- The row of a poll that has gone through: its digest is kept, and it is done.
  process_traffic_poll-IsDone :
      (id : String) (now : ℕ) (m : Meter) (row : PollRow) (n : ℕ) (m' : Meter)
      → find_poll id m ≡ some row
      → process_traffic_poll local_day utc_day free_group plan_groups id now m ≡ ok ((n, none), m')
      → IsDone id row.digest m'
  unfolding process_traffic_poll
  process_traffic_poll-IsDone id now m row n m' found h =
      let ran = ok-injective _ _ (rw found at h) in
      elim (Bool-cases row.done) [
        | inl done ↦
            subst (IsDone id row.digest) (ap (λ x. x.1) (rw done at ran)) (row, found, refl, done)
        | inr waits ↦
            let polls =
              process_pending-polls local_day utc_day free_group plan_groups row.poll now m n m'
                (rw waits at ran) in
            let own =
              (eq_iff row.poll.id id).0
                (first-Memᴰ (λ (r : PollRow). str_eq r.poll.id id) m.polls found).1 in
            (
              record row { done = true },
              ap (first (λ (r : PollRow). str_eq r.poll.id id)) polls
                  ∙ first-update_where (λ (r : PollRow). str_eq r.poll.id id)
                      (λ (r : PollRow). str_eq r.poll.id row.poll.id)
                      (λ (r : PollRow). record r { done = true }) m.polls row (λ r. refl)
                      (eq_refl row.poll.id) found,
              refl,
              refl,
            )
      ]

  process_traffic_poll-again :
      (id digest : String) (now : ℕ) (m : Meter)
      → IsDone id digest m
      → process_traffic_poll local_day utc_day free_group plan_groups id now m ≡ ok ((0, none), m)
  unfolding process_traffic_poll
  process_traffic_poll-again id digest now m (row, found, same, done) = rw (found, done) refl

-- The row under which a poll stands once it was stored, now or before.
stored_or-row :
    (digest : TrafficPoll → String) (p : TrafficPoll) (m j stored : Meter) (o : Option PollRow)
    → find_poll p.id m ≡ o
    → j.polls ≡ m.polls ++ record { poll = numbered_poll p m; digest = digest p; done = false } ∷ []
    → stored_or digest p m o j ≡ ok stored
    → (row : PollRow) × (find_poll p.id stored ≡ some row) × (row.digest ≡ digest p)
unfolding stored_or
stored_or-row digest p m j stored none absent polls h =
    let new : PollRow = record { poll = numbered_poll p m; digest = digest p; done = false } in
    let (unused, h1) =
      guarded-eq-ok (any (λ (r : PollRow). r.poll.sequence == (numbered_poll p m).sequence) m.polls)
        duplicate_row _ h in
    (
      new,
      ap (λ (x : Meter). find_poll p.id x) (sym (ok-injective j stored h1))
          ∙ ap (first (λ (r : PollRow). str_eq r.poll.id p.id)) polls
          ∙ first-snoc (λ (r : PollRow). str_eq r.poll.id p.id) m.polls new absent
              ((eq_iff (numbered_poll p m).id p.id).1 (numbered_poll-id p m)),
      refl,
    )
stored_or-row digest p m j stored (some row) found polls h =
    elim (Bool-cases (str_eq row.digest (digest p))) [
      | inl same ↦ (
        row,
        ap (λ (x : Meter). find_poll p.id x) (sym (ok-injective m stored (rw same at h))) ∙ found,
        (eq_iff row.digest (digest p)).0 same,
      )
      | inr other ↦ cc (rw other at h)
    ]

module _ (local_day utc_day : ℕ → String) (free_group : ℕ) (plan_groups : ℕ → List ℕ)
    (size : TrafficPoll → ℕ) (digest : TrafficPoll → String) where
  record_traffic_poll-again :
      (raw : IncomingPoll) (now : ℕ) (t : Relays) (p : TrafficPoll) (m : Meter)
      → valid_poll raw ≡ ok p
      → ltb (16 * 1048576) (size p) ≡ false
      → IsDone p.id (digest p) m
      → record_traffic_poll local_day utc_day free_group plan_groups size digest raw now t m
        ≡ ok ((0, none), m)
  unfolding record_traffic_poll stored_or
  record_traffic_poll-again raw now t p m valid small (row, found, same, done) =
      rw (valid, small, found, (eq_iff row.digest (digest p)).1 same)
        (process_traffic_poll-again local_day utc_day free_group plan_groups p.id (digest p) now m
          (row, found, same, done))

-- A poll that went through, whatever it took to get there, is counted once: reported again, at any time
-- and whatever the relay tables hold by then, it makes no debit, reports no error and leaves every
-- table as it is.
pub record_traffic_poll-once :
    (local_day utc_day : ℕ → String) (free_group : ℕ) (plan_groups : ℕ → List ℕ)
    (size : TrafficPoll → ℕ) (digest : TrafficPoll → String) (raw : IncomingPoll) (now later : ℕ)
    (t u : Relays) (m m' : Meter) (n : ℕ)
    → record_traffic_poll local_day utc_day free_group plan_groups size digest raw now t m
      ≡ ok ((n, none), m')
    → record_traffic_poll local_day utc_day free_group plan_groups size digest raw later u m'
      ≡ ok ((0, none), m')
unfolding record_traffic_poll
record_traffic_poll-once local_day utc_day free_group plan_groups size digest raw now later t u m m'
      n h =
    let (p, valid, h1) = >>=-eq-ok (valid_poll raw) _ h in
    let (small, h2) = guarded-eq-ok (ltb (16 * 1048576) (size p)) invalid_traffic_poll _ h1 in
    let (stored, kept, h3) =
      >>=-eq-ok (stored_or digest p m (find_poll p.id m) (journal digest now t p m)) _ h2 in
    let (row, found, same) =
      stored_or-row digest p m (journal digest now t p m) stored (find_poll p.id m) refl
        (journal-polls digest now t p m) kept in
    let done =
      process_traffic_poll-IsDone local_day utc_day free_group plan_groups p.id now stored row n m'
        found h3 in
    record_traffic_poll-again local_day utc_day free_group plan_groups size digest raw later u p m'
      valid small (subst (λ d. IsDone p.id d m') same done)
