-- ===== src/SyncQueue/Draining.antt =====
-- internal/sbctl/schedule.go: one pass of the goroutine, to its end.
use qing_zhou.Common.{
  ℕ, zero, suc, ◌+◌, ◌≡◌, refl, sym, subst, inl, inr, String, Bool, false, Option, List, [], ◌∷◌,
  ◌==◌, Bool-cases,
}
use qing_zhou.SyncQueue.{
  Target, SyncState, SyncStatus, Worker, Scheduler, status_in, put_status, set_status, status_seqs,
  set_status_from_if_untouched, outcome_state, outcome_error, work,
}

-- the goroutine alone, for a number of steps; each rebuild fails or not, at its own time
unfoldable pub work_on : (Scheduler → Option String) → (Scheduler → ℕ) → ℕ → Scheduler → Scheduler
unfolding work
work_on outcome clock zero s = s
work_on outcome clock (suc n) s = work_on outcome clock n (work (outcome s) (clock s) s.worker s)

-- Nothing is pending and the goroutine is gone.
pub record IsAtRest (s : Scheduler) : Type 0 where
  pub worker : s.worker ≡ Worker.idle
  pub running : s.sched_running ≡ false
  pub all : s.pending_all ≡ false
  pub servers : s.pending_servers ≡ []

-- What waits.
pub record IsQueue (wanted : Bool) (ids : List ℕ) (s : Scheduler) : Type 0 where
  pub all : s.pending_all ≡ wanted
  pub servers : s.pending_servers ≡ ids

module _ (outcome : Scheduler → Option String) (clock : Scheduler → ℕ) where
  abbrev pub Ends : Scheduler → Type 0
  Ends s = (n : ℕ) × IsAtRest (work_on outcome clock n s)

  -- What ends after a step ends.
  pub Ends-step :
      (s : Scheduler) (w : Worker) → s.worker ≡ w → Ends (work (outcome s) (clock s) w s) → Ends s
  unfolding work_on
  Ends-step s w at (n, rest) = (
    suc n,
    subst (λ v. IsAtRest (work_on outcome clock n (work (outcome s) (clock s) v s))) (sym at) rest,
  )

  -- A pass that has begun leads back to the head of the loop, and leaves what waits there.
  module _ (wanted : Bool) (queue : List ℕ)
      (next : (s : Scheduler) → s.worker ≡ Worker.looking → IsQueue wanted queue s → Ends s) where
    set_status-IsQueue :
        (t : Target) (state : SyncState) (error : String) (now : ℕ) (w : Worker) (s : Scheduler)
        → IsQueue wanted queue s
        → IsQueue wanted queue (record (set_status t state error now s) { worker = w })
    unfolding set_status put_status
    set_status-IsQueue t state error now w s q = record { all = q.all; servers = q.servers }

    copied-IsQueue :
        (id since : ℕ) (st : SyncStatus) (w : Worker) (s : Scheduler)
        → IsQueue wanted queue s
        → IsQueue wanted queue (record (set_status_from_if_untouched id st since s) { worker = w })
    unfolding set_status_from_if_untouched put_status
    copied-IsQueue id since st w s q =
        elim (Bool-cases ((status_in (Target.server id) s.sync_status).revision == since)) [
          | inl same ↦ rw same (record { all = q.all; servers = q.servers })
          | inr touched ↦ rw touched (record { all = q.all; servers = q.servers })
        ]

    looked-Ends :
        (w : Worker) (s : Scheduler)
        → s.worker ≡ w
        → work (outcome s) (clock s) w s ≡ record s { worker = Worker.looking }
        → IsQueue wanted queue s
        → Ends s
    looked-Ends w s at looks q = Ends-step s w at (
        subst Ends (sym looks) (
          next (record s { worker = Worker.looking }) refl
            (record { all = q.all; servers = q.servers })))

    pub copying-Ends :
        (st : SyncStatus) (before : List (ℕ × ℕ)) (s : Scheduler)
        → s.worker ≡ Worker.copying st before
        → IsQueue wanted queue s
        → Ends s
    unfolding work
    copying-Ends st [] s at q = looked-Ends (Worker.copying st []) s at refl q
    copying-Ends st ((id, since) ∷ rest) s at q =
        Ends-step s (Worker.copying st ((id, since) ∷ rest)) at (
          copying-Ends st rest
            (record (set_status_from_if_untouched id st since s) {
              worker = Worker.copying st rest;
            })
            refl (copied-IsQueue id since st (Worker.copying st rest) s q))

    pub servers-Ends :
        (ids : List ℕ) (s : Scheduler)
        → s.worker ≡ Worker.each_server ids
        → IsQueue wanted queue s
        → Ends s
    unfolding work
    servers-Ends [] s at q = looked-Ends (Worker.each_server []) s at refl q
    servers-Ends (id ∷ ids) s at q =
        let begun = record (set_status (Target.server id) SyncState.running "" (clock s) s) {
          worker = Worker.one_server id ids;
        } in
        Ends-step s (Worker.each_server (id ∷ ids)) at (
          Ends-step begun (Worker.one_server id ids) refl (
            servers-Ends ids (work (outcome begun) (clock begun) (Worker.one_server id ids) begun)
              refl
              (set_status-IsQueue (Target.server id) (outcome_state (outcome begun))
                (outcome_error (outcome begun)) (clock begun) (Worker.each_server ids) begun
                (set_status-IsQueue (Target.server id) SyncState.running "" (clock s)
                  (Worker.one_server id ids) s q))))

    pub server-Ends :
        (id : ℕ) (ids : List ℕ) (s : Scheduler)
        → s.worker ≡ Worker.one_server id ids
        → IsQueue wanted queue s
        → Ends s
    unfolding work
    server-Ends id ids s at q = Ends-step s (Worker.one_server id ids) at (
        servers-Ends ids (work (outcome s) (clock s) (Worker.one_server id ids) s) refl (
          set_status-IsQueue (Target.server id) (outcome_state (outcome s))
            (outcome_error (outcome s)) (clock s) (Worker.each_server ids) s q))

    pub reporting-Ends :
        (before : List (ℕ × ℕ)) (s : Scheduler)
        → s.worker ≡ Worker.reporting before
        → IsQueue wanted queue s
        → Ends s
    unfolding work
    reporting-Ends before s at q =
        let st = status_in Target.all_targets s.sync_status in
        Ends-step s (Worker.reporting before) at (
          copying-Ends st before (record s { worker = Worker.copying st before }) refl
            (record { all = q.all; servers = q.servers }))

    pub rebuilding-Ends :
        (request started : ℕ) (before : List (ℕ × ℕ)) (s : Scheduler)
        → s.worker ≡ Worker.rebuilding request started before
        → IsQueue wanted queue s
        → Ends s
    unfolding work put_status
    rebuilding-Ends request started before s at q =
        Ends-step s (Worker.rebuilding request started before) at (
          reporting-Ends before
            (work (outcome s) (clock s) (Worker.rebuilding request started before) s) refl
            (record { all = q.all; servers = q.servers }))

    pub counted-Ends :
        (request : ℕ) (before : List (ℕ × ℕ)) (s : Scheduler)
        → s.worker ≡ Worker.counted request before
        → IsQueue wanted queue s
        → Ends s
    unfolding work put_status
    counted-Ends request before s at q = Ends-step s (Worker.counted request before) at (
        rebuilding-Ends request (s.status_seq + 1) before
          (work (outcome s) (clock s) (Worker.counted request before) s) refl
          (record { all = q.all; servers = q.servers }))

    pub full_pass-Ends :
        (request : ℕ) (servers : List ℕ) (s : Scheduler)
        → s.worker ≡ Worker.full_pass request servers
        → IsQueue wanted queue s
        → Ends s
    unfolding work
    full_pass-Ends request servers s at q = Ends-step s (Worker.full_pass request servers) at (
        counted-Ends request (status_seqs servers s)
          (work (outcome s) (clock s) (Worker.full_pass request servers) s) refl
          (record { all = q.all; servers = q.servers }))
