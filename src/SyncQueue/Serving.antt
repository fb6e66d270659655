-- ===== src/SyncQueue/Serving.antt =====
-- internal/sbctl/schedule.go: what the goroutine does with the requests that it takes.
use qing_zhou.Common.{
  ℕ, ◌≡◌, refl, ap, ◌∙◌, arith, inl, inr, String, Bool, true, false, ◌||◌, Option, List, [], ◌∷◌,
  ◌==◌, any, Bool-cases,
}
use qing_zhou.SyncQueue.{
  Target, SyncStatus, Worker, Scheduler, put_status, set_status, schedule, take_work,
  set_status_from_if_untouched, work, Event, step,
}
use qing_zhou.SyncQueue.Working.{IsSound}
use qing_zhou.SyncQueue.Requests.{
  is_asked, is_held, is_rebuilt, is_awaited, true_or, schedule-keeps,
}

taken_by : (t : Target) (s : Scheduler) → is_asked t s ≡ true → is_awaited t (take_work s) ≡ true
unfolding take_work
taken_by Target.all_targets s h = rw h refl
taken_by (Target.server id) s h = some_servers s.pending_servers h
  where
    some_servers :
        (ids : List ℕ)
        → any (λ k. k == id) ids ≡ true
        → is_awaited (Target.server id) (take_work (record s { pending_servers = ids })) ≡ true
    some_servers [] e = cc
    some_servers (k ∷ ids) e = elim (Bool-cases s.pending_all) [
      | inl all ↦ rw all refl
      | inr one ↦ rw one e
    ]

or_assoc :
    (a b c held : Bool)
    → (a || held) ≡ true
    → (held ≡ true → (b || c) ≡ true)
    → ((a || b) || c) ≡ true
or_assoc true b c held h k = refl
or_assoc false b c held h k = k h

pending_of :
    (t : Target) (s u : Scheduler)
    → u.pending_all ≡ s.pending_all
    → u.pending_servers ≡ s.pending_servers
    → is_asked t u ≡ is_asked t s
pending_of Target.all_targets s u all servers = all
pending_of (Target.server id) s u all servers = ap (any (λ k. k == id)) servers

-- A step that leaves the queue passes on what is held, or is about to rebuild it.
passed_on :
    (t : Target) (held : Bool) (s u : Scheduler)
    → u.pending_all ≡ s.pending_all
    → u.pending_servers ≡ s.pending_servers
    → (is_asked t s || held) ≡ true
    → (held ≡ true → (is_held t u.worker || is_rebuilt t u.worker) ≡ true)
    → (is_awaited t u || is_rebuilt t u.worker) ≡ true
passed_on t held s u all servers h k =
    or_assoc (is_asked t u) (is_held t u.worker) (is_rebuilt t u.worker) held
      (ap (λ b. b || held) (pending_of t s u all servers) ∙ h) k

untouched :
    (id since : ℕ) (st : SyncStatus) (s : Scheduler)
    → ((set_status_from_if_untouched id st since s).pending_all ≡ s.pending_all)
      × ((set_status_from_if_untouched id st since s).pending_servers ≡ s.pending_servers)
unfolding set_status_from_if_untouched put_status
untouched id since st s = (ground arith, ground arith)

one_of :
    (t : Target) (k : ℕ) (ids : List ℕ)
    → is_held t (Worker.each_server (k ∷ ids)) ≡ true
    → (is_held t (Worker.one_server k ids) || is_rebuilt t (Worker.one_server k ids)) ≡ true
one_of Target.all_targets k ids h = cc
one_of (Target.server id) k ids h = ground (arith, h)

next_of :
    (t : Target) (k : ℕ) (ids : List ℕ)
    → is_held t (Worker.one_server k ids) ≡ true
    → (is_held t (Worker.each_server ids) || is_rebuilt t (Worker.each_server ids)) ≡ true
next_of Target.all_targets k ids h = cc
next_of (Target.server id) k ids h = true_or _ _ h

none_of : (t : Target) → is_held t (Worker.each_server []) ≡ false
none_of Target.all_targets = refl
none_of (Target.server id) = refl

-- A step of the goroutine keeps every target that is awaited, or is about to rebuild it.
work-keeps :
    (outcome : Option String) (now : ℕ) (t : Target) (w : Worker) (s : Scheduler)
    → (is_asked t s || is_held t w) ≡ true
    → s.worker ≡ w
    → (is_awaited t (work outcome now w s) || is_rebuilt t (work outcome now w s).worker) ≡ true
unfolding work put_status set_status
work-keeps outcome now t Worker.idle s h at =
    true_or (is_awaited t s) (is_rebuilt t s.worker) (ap (λ w. is_asked t s || is_held t w) at ∙ h)
work-keeps outcome now t Worker.looking s h at =
    true_or (is_awaited t (take_work s)) (is_rebuilt t (take_work s).worker)
      (taken_by t s (ground (arith, h)))
work-keeps outcome now t (Worker.full_pass request servers) s h at =
    passed_on t true s (work outcome now (Worker.full_pass request servers) s) refl refl h
      (λ e. refl)
work-keeps outcome now t (Worker.counted request before) s h at =
    passed_on t true s (work outcome now (Worker.counted request before) s) refl refl h (λ e. refl)
work-keeps outcome now t (Worker.rebuilding request started before) s h at =
    passed_on t false s (work outcome now (Worker.rebuilding request started before) s) refl refl h
      (λ e. absurd (cc))
work-keeps outcome now t (Worker.reporting before) s h at =
    passed_on t false s (work outcome now (Worker.reporting before) s) refl refl h
      (λ e. absurd (cc))
work-keeps outcome now t (Worker.copying st []) s h at =
    passed_on t false s (work outcome now (Worker.copying st []) s) refl refl h (λ e. absurd (cc))
work-keeps outcome now t (Worker.copying st ((id, since) ∷ rest)) s h at =
    let (all, servers) = untouched id since st s in
    passed_on t false s (work outcome now (Worker.copying st ((id, since) ∷ rest)) s) all servers h
      (λ e. absurd (cc))
work-keeps outcome now t (Worker.each_server []) s h at =
    passed_on t (is_held t (Worker.each_server [])) s (work outcome now (Worker.each_server []) s)
      refl refl h (λ e. absurd (cc (e, none_of t)))
work-keeps outcome now t (Worker.each_server (k ∷ ids)) s h at =
    passed_on t (is_held t (Worker.each_server (k ∷ ids))) s
      (work outcome now (Worker.each_server (k ∷ ids)) s) refl refl h (one_of t k ids)
work-keeps outcome now t (Worker.one_server k ids) s h at =
    passed_on t (is_held t (Worker.one_server k ids)) s
      (work outcome now (Worker.one_server k ids) s) refl refl h (next_of t k ids)

pub step-keeps :
    (e : Event) (t : Target) (s : Scheduler)
    → IsSound s
    → is_awaited t s ≡ true
    → (is_awaited t (step e s) || is_rebuilt t (step e s).worker) ≡ true
unfolding step set_status put_status
step-keeps (Event.ask uuid now u) t s sound h =
    true_or (is_awaited t (schedule uuid now u s).1) _ (schedule-keeps uuid now t u s sound h)
step-keeps (Event.go_on outcome now) t s sound h = work-keeps outcome now t s.worker s h refl
step-keeps (Event.report id state error now) t s sound h =
    passed_on t (is_held t s.worker) s (set_status (Target.server id) state error now s) refl refl h
      (λ e. true_or _ _ e)
