-- ===== src/SyncQueue/Ending.antt =====
-- internal/sbctl/schedule.go: the goroutine, from any state to its end.
use qing_zhou.Common.{
  ℕ, zero, ◌≡◌, refl, ap, subst, ◌∙◌, inl, inr, String, false, not, ◌&&◌, Option, List, [],
  Bool-cases,
}
use qing_zhou.SyncQueue.{Worker, Scheduler, is_none_left, take_work, work}
use qing_zhou.SyncQueue.{Event, new_scheduler, run}
use qing_zhou.SyncQueue.Working.{IsServed, IsSound, is_busy}
use qing_zhou.SyncQueue.Watermarks.{run_new}
use qing_zhou.SyncQueue.Draining.{
  work_on, IsAtRest, IsQueue, Ends, Ends-step, copying-Ends, servers-Ends, server-Ends,
  reporting-Ends, rebuilding-Ends, counted-Ends, full_pass-Ends,
}

module _ (outcome : Scheduler → Option String) (clock : Scheduler → ℕ) where
  none_waiting-Ends :
      (s : Scheduler) → s.worker ≡ Worker.looking → IsQueue false [] s → Ends outcome clock s
  unfolding work take_work work_on
  none_waiting-Ends s at q = Ends-step outcome clock s Worker.looking at (
    zero,
    rw (q.all, q.servers) (record { worker = refl; running = refl; all = refl; servers = refl }),
  )

  looking-Ends : (s : Scheduler) → s.worker ≡ Worker.looking → Ends outcome clock s
  unfolding work take_work work_on
  looking-Ends s at = Ends-step outcome clock s Worker.looking at taken
    where
      taken : Ends outcome clock (take_work s)
      taken = elim (Bool-cases (not s.pending_all && is_none_left s.pending_servers)) [
        | inl nothing ↦
            rw nothing (zero, record { worker = refl; running = refl; all = refl; servers = refl })
        | inr something ↦ elim (Bool-cases s.pending_all) [
          | inl wanted ↦
              rw (something, wanted)
                (full_pass-Ends outcome clock false [] none_waiting-Ends s.pending_all_revision
                  s.pending_servers _ refl (record { all = refl; servers = refl }))
          | inr one ↦
              rw (something, one)
                (servers-Ends outcome clock false [] none_waiting-Ends s.pending_servers _ refl
                  (record { all = refl; servers = refl }))
        ]
      ]

  sound-Ends : (w : Worker) (s : Scheduler) → s.worker ≡ w → IsSound s → Ends outcome clock s
  unfolding work_on
  sound-Ends Worker.idle s at h =
      let served = subst (λ w. IsServed w s.pending_all s.pending_servers) at h.served in
      (
        zero,
        record {
          worker = at;
          running = h.running ∙ ap is_busy at;
          all = served.0;
          servers = served.1;
        },
      )
  sound-Ends Worker.looking s at h = looking-Ends s at
  sound-Ends (Worker.full_pass request servers) s at h =
      full_pass-Ends outcome clock s.pending_all s.pending_servers (λ t a q. looking-Ends t a)
        request servers s at (record { all = refl; servers = refl })
  sound-Ends (Worker.counted request before) s at h =
      counted-Ends outcome clock s.pending_all s.pending_servers (λ t a q. looking-Ends t a) request
        before s at (record { all = refl; servers = refl })
  sound-Ends (Worker.rebuilding request started before) s at h =
      rebuilding-Ends outcome clock s.pending_all s.pending_servers (λ t a q. looking-Ends t a)
        request started before s at (record { all = refl; servers = refl })
  sound-Ends (Worker.reporting before) s at h =
      reporting-Ends outcome clock s.pending_all s.pending_servers (λ t a q. looking-Ends t a)
        before s at (record { all = refl; servers = refl })
  sound-Ends (Worker.copying st before) s at h =
      copying-Ends outcome clock s.pending_all s.pending_servers (λ t a q. looking-Ends t a) st
        before s at (record { all = refl; servers = refl })
  sound-Ends (Worker.each_server ids) s at h =
      servers-Ends outcome clock s.pending_all s.pending_servers (λ t a q. looking-Ends t a) ids s
        at (record { all = refl; servers = refl })
  sound-Ends (Worker.one_server id ids) s at h =
      server-Ends outcome clock s.pending_all s.pending_servers (λ t a q. looking-Ends t a) id ids s
        at (record { all = refl; servers = refl })

-- After any run of requests, reports and steps: where nothing more comes, the goroutine needs finitely
-- many steps, whichever rebuilds fail and whatever the clock says, until it is gone and nothing is
-- pending.
pub run-ends :
    (outcome : Scheduler → Option String) (clock : Scheduler → ℕ) (es : List Event)
    → (n : ℕ) × IsAtRest (work_on outcome clock n (run es new_scheduler))
run-ends outcome clock es =
    let s = run es new_scheduler in sound-Ends outcome clock s.worker s refl (run_new es)
