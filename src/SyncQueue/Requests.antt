-- ===== src/SyncQueue/Requests.antt =====
-- internal/sbctl/schedule.go: where a request stands, from `schedule` to the rebuild that serves it.
use qing_zhou.Common.{
  ℕ, ◌≡◌, refl, sym, ap, ◌∙◌, arith, inl, inr, String, Bool, true, false, ◌||◌, List, [], ◌∷◌, ◌++◌,
  ◌==◌, ==_refl, any, Bool-cases, if◌then◌else◌,
}
use qing_zhou.SyncQueue.{
  Target, Worker, Scheduler, put_status, mark_pending, enqueue, schedule, Event, step,
}
use qing_zhou.SyncQueue.Working.{IsSound, is_busy}

-- a request for the target waits to be taken
abbrev pub is_asked : Target → Scheduler → Bool
is_asked Target.all_targets s = s.pending_all
is_asked (Target.server id) s = any (λ k. k == id) s.pending_servers

-- the goroutine has taken a request for the target, and its rebuild is still to come
abbrev pub is_held : Target → Worker → Bool
is_held t (Worker.full_pass _ _) = true
is_held t (Worker.counted _ _) = true
is_held (Target.server id) (Worker.each_server ids) = any (λ k. k == id) ids
is_held (Target.server id) (Worker.one_server _ ids) = any (λ k. k == id) ids
is_held _ _ = false

-- the goroutine is in a rebuild of the target
abbrev pub is_rebuilt : Target → Worker → Bool
is_rebuilt t (Worker.rebuilding _ _ _) = true
is_rebuilt (Target.server id) (Worker.one_server k _) = k == id
is_rebuilt _ _ = false

abbrev pub is_awaited : Target → Scheduler → Bool
is_awaited t s = is_asked t s || is_held t s.worker

any-snoc : (id : ℕ) (ids : List ℕ) → any (λ k. k == id) (ids ++ id ∷ []) ≡ true
any-snoc id [] = rw (==_refl id) refl
any-snoc id (k ∷ ids) = ground (arith, any-snoc id ids)

any-append_left :
    (id n : ℕ) (ids : List ℕ)
    → any (λ k. k == id) ids ≡ true
    → any (λ k. k == id) (ids ++ n ∷ []) ≡ true
any-append_left id n [] h = cc
any-append_left id n (k ∷ ids) h = ground (arith, h, any-append_left id n ids)

mark_pending-marks : (t : Target) (s : Scheduler) → is_asked t (mark_pending t s) ≡ true
unfolding mark_pending
mark_pending-marks Target.all_targets s = refl
mark_pending-marks (Target.server id) s = elim (Bool-cases (any (λ k. k == id) s.pending_servers)) [
  | inl there ↦ rw there there
  | inr new ↦ rw new (any-snoc id s.pending_servers)
]

mark_pending-keeps :
    (t u : Target) (s : Scheduler) → is_asked t s ≡ true → is_asked t (mark_pending u s) ≡ true
unfolding mark_pending
mark_pending-keeps Target.all_targets Target.all_targets s h = refl
mark_pending-keeps (Target.server id) Target.all_targets s h = h
mark_pending-keeps t (Target.server n) s h =
    elim (Bool-cases (any (λ k. k == n) s.pending_servers)) [
      | inl there ↦ rw there h
      | inr new ↦ rw new (grown t h)
    ]
  where
    grown :
        (t : Target)
        → is_asked t s ≡ true
        → is_asked t (record s { pending_servers = s.pending_servers ++ n ∷ [] }) ≡ true
    grown Target.all_targets h = h
    grown (Target.server id) h = any-append_left id n s.pending_servers h

mark_pending-worker : (t : Target) (s : Scheduler) → (mark_pending t s).worker ≡ s.worker
unfolding mark_pending
mark_pending-worker Target.all_targets s = refl
mark_pending-worker (Target.server n) s = ground arith

-- What `schedule` leaves pending is what `mark_pending` leaves.
schedule-pending :
    (uuid : String) (now : ℕ) (t u : Target) (s : Scheduler)
    → is_asked t (schedule uuid now u s).1 ≡ is_asked t (mark_pending u s)
unfolding schedule enqueue put_status
schedule-pending uuid now Target.all_targets u s = ground arith
schedule-pending uuid now (Target.server id) u s = elim (Bool-cases s.sched_running) [
  | inl on ↦ rw on refl
  | inr off ↦ rw off refl
]

schedule-running :
    (uuid : String) (now : ℕ) (u : Target) (s : Scheduler)
    → (schedule uuid now u s).1.sched_running ≡ true
unfolding schedule enqueue put_status mark_pending
schedule-running uuid now Target.all_targets s = ground arith
schedule-running uuid now (Target.server id) s = ground arith

worker_then : (c : Bool) (a b : Scheduler) → c ≡ true → (if c then a else b).worker ≡ a.worker
worker_then true a b e = refl
worker_then false a b e = cc

schedule-worker :
    (uuid : String) (now : ℕ) (u : Target) (s : Scheduler)
    → s.sched_running ≡ true
    → (schedule uuid now u s).1.worker ≡ s.worker
unfolding schedule enqueue put_status
schedule-worker uuid now u s on = worker_then s.sched_running _ _ on ∙ mark_pending-worker u s

pub or_true : (a b : Bool) → b ≡ true → (a || b) ≡ true
or_true true b e = refl
or_true false b e = e

pub true_or : (a b : Bool) → a ≡ true → (a || b) ≡ true
true_or true b e = refl
true_or false b e = cc

idle_holds : (t : Target) (w : Worker) → is_busy w ≡ false → is_held t w ≡ false
idle_holds t Worker.idle e = refl
idle_holds t Worker.looking e = cc
idle_holds t (Worker.full_pass _ _) e = cc
idle_holds t (Worker.counted _ _) e = cc
idle_holds t (Worker.rebuilding _ _ _) e = cc
idle_holds t (Worker.reporting _) e = cc
idle_holds t (Worker.copying _ _) e = cc
idle_holds t (Worker.each_server _) e = cc
idle_holds t (Worker.one_server _ _) e = cc

-- A request keeps every target that is awaited.
pub schedule-keeps :
    (uuid : String) (now : ℕ) (t u : Target) (s : Scheduler)
    → IsSound s
    → is_awaited t s ≡ true
    → is_awaited t (schedule uuid now u s).1 ≡ true
schedule-keeps uuid now t u s sound h = elim (Bool-cases (is_asked t s)) [
  | inl waits ↦ true_or _ _ (schedule-pending uuid now t u s ∙ mark_pending-keeps t u s waits)
  | inr taken ↦ or_true _ _ (held (is_held t s.worker) refl (rw taken at h))
]
  where
    held :
        (b : Bool)
        → is_held t s.worker ≡ b
        → b ≡ true
        → is_held t (schedule uuid now u s).1.worker ≡ true
    held b own e = elim (Bool-cases s.sched_running) [
      | inl on ↦ ap (is_held t) (schedule-worker uuid now u s on) ∙ own ∙ e
      | inr off ↦
          (let none = idle_holds t s.worker (sym sound.running ∙ off) in absurd (cc (own, e, none)))
    ]

pub ask-marks :
    (uuid : String) (now : ℕ) (t : Target) (s : Scheduler)
    → (is_asked t (step (Event.ask uuid now t) s) ≡ true)
      × ((step (Event.ask uuid now t) s).sched_running ≡ true)
unfolding step
ask-marks uuid now t s =
    (schedule-pending uuid now t t s ∙ mark_pending-marks t s, schedule-running uuid now t s)
