-- ===== src/Traffic/Kept.antt =====
-- internal/store/traffic_ledger.go: what its steps leave of the table of polls.
use qing_zhou.Common.{
  ℕ, ◌+◌, ◌≡◌, refl, String, Bool, true, false, map, select, ◌&&◌, Option, none, some, List, [],
  ◌∷◌, ◌++◌, ◌∙◌, ap, sym, ◌==◌, str_eq, any, update_where, if◌then◌else◌,
}
use qing_zhou.Result.{Result, Error, ok, err, no_rows}
use qing_zhou.Ownership.{OwnedBucket, account_meter_bucket}
use qing_zhou.Traffic.Tables.{
  UsageDelta, TrafficPoll, PollRow, GapReason, TrafficBinding, Observation, Meter,
}
use qing_zhou.Traffic.Relays.{Relays}
use qing_zhou.Traffic.Identity.{first_failure, try_identity, process_traffic_identity}
use qing_zhou.Traffic.Binding.{bind_identity, bind_identities}
use qing_zhou.Traffic.Polls.{
  freeze, distinct_ids, is_open_account, freeze_targets, note_restart, each_identity,
  process_pending, close_poll,
}
use qing_zhou.Traffic.Recording.{numbered_poll, journal}
use qing_zhou.Traffic.Steps.{
  IsNoted-refl, IsNoted-if, process_traffic_identity-IsProcessed, note_gap-IsNoted,
  traffic_gap-IsNoted,
}

bind_identity-polls :
    (p : TrafficPoll) (now : ℕ) (t : Relays) (e : String × UsageDelta) (m : Meter)
    → (bind_identity p now t e m).polls ≡ m.polls
unfolding bind_identity
bind_identity-polls p now t (name, d) m = (note_gap-IsNoted p _ m).polls

bind_identities-polls :
    (p : TrafficPoll) (now : ℕ) (t : Relays) (es : List (String × UsageDelta)) (m : Meter)
    → (bind_identities p now t es m).polls ≡ m.polls
unfolding bind_identities
bind_identities-polls p now t [] m = refl
bind_identities-polls p now t (e ∷ es) m =
    bind_identities-polls p now t es (bind_identity p now t e m) ∙ bind_identity-polls p now t e m

pub numbered_poll-id : (p : TrafficPoll) (m : Meter) → (numbered_poll p m).id ≡ p.id
unfolding numbered_poll
numbered_poll-id p m = keeps (p.sequence == 0)
  where
    keeps : (c : Bool) → (if c then record p { sequence = m.sequence + 1 } else p).id ≡ p.id
    keeps true = refl
    keeps false = refl

-- What is stored is the poll, not done yet, after those that were.
pub journal-polls :
    (digest : TrafficPoll → String) (now : ℕ) (t : Relays) (p : TrafficPoll) (m : Meter)
    → (journal digest now t p m).polls
      ≡ m.polls ++ record { poll = numbered_poll p m; digest = digest p; done = false } ∷ []
unfolding journal
journal-polls digest now t p m =
    bind_identities-polls (numbered_poll p m) now t (numbered_poll p m).traffic _

note_restart-polls : (p : TrafficPoll) (m : Meter) → (note_restart p m).polls ≡ m.polls
unfolding note_restart
note_restart-polls p m =
    (IsNoted-if _ m _ m (traffic_gap-IsNoted p GapReason.process_restart_tail_unknown m)
      (IsNoted-refl m)).polls

chosen-polls :
    (c : Bool) (a b : (ℕ × Option Error) × Meter)
    → b.1.polls ≡ a.1.polls
    → (if c then a else b).1.polls ≡ a.1.polls
chosen-polls true a b h = refl
chosen-polls false a b h = h

-- A poll that is closed without an error is done.
close_poll-polls :
    (p : TrafficPoll) (a : (ℕ × Option Error) × Meter) (n : ℕ) (m' : Meter)
    → close_poll p a ≡ ((n, none), m')
    → m'.polls
      ≡ update_where
          (λ (r : PollRow). str_eq r.poll.id p.id)
          (λ (r : PollRow). record r { done = true })
          a.1.polls
unfolding close_poll
close_poll-polls p ((k, none), m) n m' h = ap (λ x. x.1.polls) (sym h)
close_poll-polls p ((k, some e), m) n m' h = let clash = ap (λ x. x.0.1) h in cc

module _ (local_day utc_day : ℕ → String) (free_group : ℕ) (plan_groups : ℕ → List ℕ) where
  try_identity-polls :
      (p : TrafficPoll) (name : String) (batch : Meter) (a : (ℕ × Option Error) × Meter)
      → (try_identity local_day utc_day p name batch a).1.polls ≡ a.1.polls
  unfolding try_identity
  try_identity-polls p name batch ((applied, failure), m) =
      tried (process_traffic_identity local_day utc_day p name batch m) refl
    where
      tried :
          (r : Result (ℕ × Meter))
          → process_traffic_identity local_day utc_day p name batch m ≡ r
          → (elim r as (λ _. (ℕ × Option Error) × Meter) [
            | ok (n, m') ↦ ((applied + n, failure), m')
            | err e ↦ ((applied, first_failure failure e), m)
          ]).1.polls
            ≡ m.polls
      tried (ok (n, m')) h =
          (process_traffic_identity-IsProcessed local_day utc_day p name batch m n m' h).polls
      tried (err e) h = refl

  each_identity-polls :
      (p : TrafficPoll) (es : List (String × UsageDelta)) (batch : Meter)
      (a : (ℕ × Option Error) × Meter)
      → (each_identity local_day utc_day free_group plan_groups p es batch a).1.polls ≡ a.1.polls
  unfolding each_identity
  each_identity-polls p [] batch a = refl
  each_identity-polls p ((name, d) ∷ es) batch a =
      each_identity-polls p es batch _
      ∙ chosen-polls
          (any (λ (o : Observation). str_eq o.poll_id p.id && str_eq o.counter_name name)
            batch.observations)
          a _ (try_identity-polls p name batch a)

  freeze_targets-polls :
      (poll_id : String) (now : ℕ) (us : List ℕ) (a : Option Error × Meter)
      → (freeze_targets local_day utc_day free_group plan_groups poll_id now us a).1.polls
        ≡ a.1.polls
  unfolding freeze_targets
  freeze_targets-polls poll_id now [] a = refl
  freeze_targets-polls poll_id now (u ∷ us) (failure, m) =
      freeze_targets-polls poll_id now us _
      ∙ kept (account_meter_bucket free_group plan_groups u now m.db)
    where
      kept :
          (o : Option OwnedBucket)
          → (elim o as (λ _. Option Error × Meter) [
            | none ↦ (first_failure failure no_rows, m)
            | some b ↦ (failure, record m { bindings = freeze poll_id u b.bucket m.bindings })
          ]).1.polls
            ≡ m.polls
      kept none = refl
      kept (some b) = refl

  pub process_pending-polls :
      (p : TrafficPoll) (now : ℕ) (m : Meter) (n : ℕ) (m' : Meter)
      → process_pending local_day utc_day free_group plan_groups p now m ≡ ((n, none), m')
      → m'.polls
        ≡ update_where
            (λ (r : PollRow). str_eq r.poll.id p.id)
            (λ (r : PollRow). record r { done = true })
            m.polls
  unfolding process_pending
  process_pending-polls p now m n m' h =
      let users =
        distinct_ids
          (map (λ (b : TrafficBinding). b.user_id) (select (is_open_account p.id) m.bindings)) in
      let frozen =
        freeze_targets local_day utc_day free_group plan_groups p.id now users (none, m) in
      let batch = note_restart p frozen.1 in
      let read =
        each_identity local_day utc_day free_group plan_groups p p.traffic batch
          ((0, frozen.0), batch) in
      close_poll-polls p read n m' h
      ∙ ap
          (update_where (λ (r : PollRow). str_eq r.poll.id p.id)
            (λ (r : PollRow). record r { done = true }))
          (each_identity-polls p p.traffic batch ((0, frozen.0), batch)
            ∙ note_restart-polls p frozen.1
            ∙ freeze_targets-polls p.id now users (none, m))
