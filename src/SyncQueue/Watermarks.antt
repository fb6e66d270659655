-- ===== src/SyncQueue/Watermarks.antt =====
-- internal/sbctl/schedule.go: what holds after any run of requests, reports and steps of the goroutine.
use qing_zhou.Common.{
  ℕ, ◌+◌, ◌≤◌, ◌≡◌, refl, sym, ap, subst, ◌∙◌, arith, inl, inr, String, Bool, true, false, List, [],
  ◌∷◌, ◌==◌, str_eq, any, All, Bool-cases, ◌||◌, if◌then◌else◌,
}
use qing_zhou.SyncQueue.{
  Target, SyncState, SyncStatus, blank_status, Worker, Scheduler, new_scheduler, put_status,
  mark_pending, request_of, enqueue, schedule, Event, step, run,
}
use qing_zhou.SyncQueue.Working.{
  IsMarked, is_busy, IsServed, IsCareful, IsSound, IsCareful-later, put_in-marked,
  set_status-IsSound, work-IsSound,
}
use qing_zhou.SyncQueue.Requests.{is_asked, is_rebuilt, is_awaited, ask-marks}
use qing_zhou.SyncQueue.Serving.{step-keeps}

-- What marking a target leaves.
record IsPending (s m : Scheduler) : Type 0 where
  seq : m.status_seq ≡ s.status_seq
  statuses : m.sync_status ≡ s.sync_status
  asked : m.pending_all_revision ≤ s.status_seq + 1

mark_pending-IsPending : (t : Target) (s : Scheduler) → IsSound s → IsPending s (mark_pending t s)
unfolding mark_pending
mark_pending-IsPending Target.all_targets s h = record {
  seq = refl;
  statuses = refl;
  asked = omega arith;
}
mark_pending-IsPending (Target.server id) s h =
    elim (Bool-cases (any (λ k. k == id) s.pending_servers)) [
      | inl there ↦
          rw there (record { seq = refl; statuses = refl; asked = omega (arith, h.asked) })
      | inr new ↦ rw new (record { seq = refl; statuses = refl; asked = omega (arith, h.asked) })
    ]

IsServed-busy :
    (w : Worker) (all : Bool) (servers : List ℕ) → is_busy w ≡ true → IsServed w all servers
IsServed-busy Worker.idle all servers b = cc
IsServed-busy Worker.looking all servers b = tt
IsServed-busy (Worker.full_pass _ _) all servers b = tt
IsServed-busy (Worker.counted _ _) all servers b = tt
IsServed-busy (Worker.rebuilding _ _ _) all servers b = tt
IsServed-busy (Worker.reporting _) all servers b = tt
IsServed-busy (Worker.copying _ _) all servers b = tt
IsServed-busy (Worker.each_server _) all servers b = tt
IsServed-busy (Worker.one_server _ _) all servers b = tt

IsSound-then :
    (c : Bool) (a b : Scheduler)
    → (c ≡ true → IsSound a)
    → (c ≡ false → IsSound b)
    → IsSound (if c then a else b)
IsSound-then true a b h k = h refl
IsSound-then false a b h k = k refl

-- What the statuses and the requests are once a target is pending.
record IsEnqueued (m : Scheduler) : Type 0 where
  asked : m.pending_all_revision ≤ m.status_seq
  marked : All (λ (e : Target × SyncStatus). IsMarked m.status_seq e.1) m.sync_status

enqueue-IsEnqueued :
    (now : ℕ) (t : Target) (s : Scheduler)
    → IsSound s
    → IsEnqueued (enqueue now t s) × ((enqueue now t s).status_seq ≡ s.status_seq + 1)
unfolding enqueue put_status
enqueue-IsEnqueued now t s h =
    let m = mark_pending t s in
    let p = mark_pending-IsPending t s h in
    (
      record {
        asked = omega (arith, p.asked, p.seq);
        marked =
            put_in-marked m.status_seq t
              (record blank_status {
                state = SyncState.pending;
                at = now;
                request_revision = request_of t (s.status_seq + 1);
              })
              m.sync_status (inl refl) (rw (p.seq, p.statuses) h.marked);
      },
      ap (λ n. n + 1) p.seq,
    )

enqueue-worker :
    (now : ℕ) (t : Target) (s : Scheduler)
    → ((enqueue now t s).worker ≡ s.worker) × ((enqueue now t s).sched_running ≡ s.sched_running)
unfolding enqueue put_status mark_pending
enqueue-worker now Target.all_targets s = (refl, refl)
enqueue-worker now (Target.server id) s = elim (Bool-cases (any (λ k. k == id) s.pending_servers)) [
  | inl there ↦ rw there (refl, refl)
  | inr new ↦ rw new (refl, refl)
]

schedule-IsSound :
    (uuid : String) (now : ℕ) (t : Target) (s : Scheduler)
    → IsSound s
    → IsSound (schedule uuid now t s).1
unfolding schedule
schedule-IsSound uuid now t s h =
    let m = enqueue now t s in
    let epoch = if str_eq s.sync_epoch "" then uuid else s.sync_epoch in
    let (queued, seq) = enqueue-IsEnqueued now t s h in
    let (same, runs) = enqueue-worker now t s in
    IsSound-then s.sched_running (record m { sync_epoch = epoch })
      (record m { sync_epoch = epoch; sched_running = true; worker = Worker.looking })
      (λ on.
        let busy : is_busy m.worker ≡ true = ap is_busy same ∙ sym h.running ∙ on in
        record {
          running = runs ∙ on ∙ sym busy;
          served = IsServed-busy m.worker m.pending_all m.pending_servers busy;
          asked = queued.asked;
          careful =
              subst (λ w. IsCareful w m.status_seq) (sym same)
                (IsCareful-later s.worker s.status_seq m.status_seq (omega (arith, seq)) h.careful);
          marked = queued.marked;
        })
      (λ off. record {
        running = refl;
        served = tt;
        asked = queued.asked;
        careful = tt;
        marked = queued.marked;
      })

step-IsSound : (e : Event) (s : Scheduler) → IsSound s → IsSound (step e s)
unfolding step
step-IsSound (Event.ask uuid now t) s h = schedule-IsSound uuid now t s h
step-IsSound (Event.go_on outcome now) s h = work-IsSound outcome now s.worker s refl h
step-IsSound (Event.report id state error now) s h =
    set_status-IsSound (Target.server id) state error now s h

run_from : (es : List Event) (s : Scheduler) → IsSound s → IsSound (run es s)
unfolding run
run_from [] s h = h
run_from (e ∷ es) s h = run_from es (step e s) (step-IsSound e s h)

pub run_new : (es : List Event) → IsSound (run es new_scheduler)
run_new es = run_from es new_scheduler (record {
  running = refl;
  served = (refl, refl);
  asked = omega arith;
  careful = tt;
  marked = tt;
})

-- Whatever requests, reports and steps of the goroutine came, in whatever order: the goroutine runs
-- exactly where the flag says so, and where it does not run no target is pending; and every status of a
-- pass that is running, done or failed claims only requests that came before that pass started. A request
-- for a target that comes then is recorded as pending, and the goroutine runs after it. A target that is
-- awaited then, because it is pending or because the goroutine has taken it and its rebuild is still to
-- come, is still awaited after whatever comes next, or the goroutine is then in its rebuild.
pub run-IsSound :
    (es : List Event)
    → IsSound (run es new_scheduler)
      × ((uuid : String) (now : ℕ) (t : Target)
          → (is_asked t (step (Event.ask uuid now t) (run es new_scheduler)) ≡ true)
            × ((step (Event.ask uuid now t) (run es new_scheduler)).sched_running ≡ true))
      × ((e : Event) (t : Target)
          → is_awaited t (run es new_scheduler) ≡ true
          → (is_awaited t (step e (run es new_scheduler))
              || is_rebuilt t (step e (run es new_scheduler)).worker)
            ≡ true)
run-IsSound es = (
  run_new es,
  λ uuid now t. ask-marks uuid now t (run es new_scheduler),
  λ e t h. step-keeps e t (run es new_scheduler) (run_new es) h,
)
