-- ===== src/SyncQueue/Working.antt =====
-- internal/sbctl/schedule.go: what a step of the goroutine keeps.
use qing_zhou.Common.{
  ℕ, ◌+◌, ◌≤◌, ◌<◌, ◌≡◌, ◌⊎◌, refl, sym, ap, subst, ◌∙◌, arith, inl, inr, String, Bool, true, false,
  not, ◌&&◌, Option, List, [], ◌∷◌, ◌==◌, All, Bool-cases,
}
use qing_zhou.SyncQueue.{
  Target, SyncState, SyncStatus, blank_status, same_target, Worker, Scheduler, status_in, put_in,
  put_status, set_status, is_none_left, take_work, status_seqs, set_status_from_if_untouched,
  outcome_state, outcome_error, work,
}

-- A pass started after the newest request that it claims, and before it reported.
abbrev pub IsStarted : ℕ → SyncStatus → Type 0
IsStarted end st =
    (st.started_revision ≡ 0)
    ⊎ ((st.request_revision < st.started_revision) × (st.started_revision ≤ end))

abbrev pub IsMarked : ℕ → SyncStatus → Type 0
IsMarked seq st = (st.revision ≤ seq) × IsStarted st.revision st

abbrev pub is_busy : Worker → Bool
is_busy Worker.idle = false
is_busy _ = true

-- Where the goroutine is not there, nothing waits for it.
abbrev pub IsServed : Worker → Bool → List ℕ → Type 0
IsServed Worker.idle all servers = (all ≡ false) × (servers ≡ [])
IsServed _ all servers = Unit

-- What the goroutine remembers of a request came before what it does for it.
abbrev pub IsCareful : Worker → ℕ → Type 0
IsCareful (Worker.full_pass request _) seq = request ≤ seq
IsCareful (Worker.counted request _) seq = request ≤ seq
IsCareful (Worker.rebuilding request started _) seq = (request < started) × (started ≤ seq)
IsCareful (Worker.copying st _) seq = IsMarked seq st
IsCareful _ seq = Unit

pub record IsSound (s : Scheduler) : Type 0 where
  pub running : s.sched_running ≡ is_busy s.worker
  pub served : IsServed s.worker s.pending_all s.pending_servers
  pub asked : s.pending_all_revision ≤ s.status_seq
  pub careful : IsCareful s.worker s.status_seq
  pub marked : All (λ (e : Target × SyncStatus). IsMarked s.status_seq e.1) s.sync_status

pub IsStarted-later : (m n : ℕ) (st : SyncStatus) → m ≤ n → IsStarted m st → IsStarted n st
IsStarted-later m n st le (inl never) = inl never
IsStarted-later m n st le (inr (after, before)) = inr (after, omega (arith, before, le))

pub IsMarked-later : (m n : ℕ) (st : SyncStatus) → m ≤ n → IsMarked m st → IsMarked n st
IsMarked-later m n st le h = (omega (arith, h.0, le), h.1)

pub IsCareful-later : (w : Worker) (m n : ℕ) → m ≤ n → IsCareful w m → IsCareful w n
IsCareful-later Worker.idle m n le h = tt
IsCareful-later Worker.looking m n le h = tt
IsCareful-later (Worker.full_pass request _) m n le h = omega (arith, h, le)
IsCareful-later (Worker.counted request _) m n le h = omega (arith, h, le)
IsCareful-later (Worker.rebuilding request started _) m n le h = (h.0, omega (arith, h.1, le))
IsCareful-later (Worker.reporting _) m n le h = tt
IsCareful-later (Worker.copying st _) m n le h = IsMarked-later m n st le h
IsCareful-later (Worker.each_server _) m n le h = tt
IsCareful-later (Worker.one_server _ _) m n le h = tt

-- A status that is put gets the next revision; the others keep theirs.
pub put_in-marked :
    (seq : ℕ) (t : Target) (st : SyncStatus) (rows : List (Target × SyncStatus))
    → IsStarted (seq + 1) st
    → All (λ (e : Target × SyncStatus). IsMarked seq e.1) rows
    → All
        (λ (e : Target × SyncStatus). IsMarked (seq + 1) e.1)
        (put_in t (record st { revision = seq + 1 }) rows)
unfolding put_in
put_in-marked seq t st [] started h = ((omega arith, started), tt)
put_in-marked seq t st ((u, old) ∷ rows) started h = elim (Bool-cases (same_target u t)) [
  | inl own ↦ rw own ((omega arith, started), later rows h.1)
  | inr other ↦
      rw other (
        IsMarked-later seq (seq + 1) old (omega arith) h.0,
        put_in-marked seq t st rows started h.1,
      )
]
  where
    later :
        (rest : List (Target × SyncStatus))
        → All (λ (e : Target × SyncStatus). IsMarked seq e.1) rest
        → All (λ (e : Target × SyncStatus). IsMarked (seq + 1) e.1) rest
    later [] k = tt
    later ((v, o) ∷ rest) k = (IsMarked-later seq (seq + 1) o (omega arith) k.0, later rest k.1)

status_in-IsMarked :
    (seq : ℕ) (t : Target) (rows : List (Target × SyncStatus))
    → All (λ (e : Target × SyncStatus). IsMarked seq e.1) rows
    → IsMarked seq (status_in t rows)
unfolding status_in
status_in-IsMarked seq t [] h = (omega arith, inl refl)
status_in-IsMarked seq t ((u, st) ∷ rows) h = elim (Bool-cases (same_target u t)) [
  | inl own ↦ rw own h.0
  | inr other ↦ rw other (status_in-IsMarked seq t rows h.1)
]

-- A status is put while the goroutine goes on to where it stands.
put_status-IsSound :
    (t : Target) (st : SyncStatus) (w : Worker) (s : Scheduler)
    → IsStarted (s.status_seq + 1) st
    → IsSound s
    → is_busy w ≡ is_busy s.worker
    → IsServed w s.pending_all s.pending_servers
    → IsCareful w (s.status_seq + 1)
    → IsSound (record (put_status t st s) { worker = w })
unfolding put_status
put_status-IsSound t st w s started h busy served careful = record {
  running = h.running ∙ sym busy;
  served = served;
  asked = omega (arith, h.asked);
  careful = careful;
  marked = put_in-marked s.status_seq t st s.sync_status started h.marked;
}

pub set_status-IsSound :
    (t : Target) (state : SyncState) (error : String) (now : ℕ) (s : Scheduler)
    → IsSound s
    → IsSound (set_status t state error now s)
unfolding set_status
set_status-IsSound t state error now s h =
    put_status-IsSound t (record blank_status { state = state; error = error; at = now }) s.worker s
      (inl refl) h refl h.served
      (IsCareful-later s.worker s.status_seq (s.status_seq + 1) (omega arith) h.careful)

-- A step that leaves the queue and the statuses.
moved-IsSound :
    (w : Worker) (s : Scheduler)
    → IsSound s
    → is_busy w ≡ is_busy s.worker
    → IsServed w s.pending_all s.pending_servers
    → IsCareful w s.status_seq
    → IsSound (record s { worker = w })
moved-IsSound w s h busy served careful = record {
  running = h.running ∙ sym busy;
  served = served;
  asked = h.asked;
  careful = careful;
  marked = h.marked;
}

take_work-IsSound : (s : Scheduler) → s.worker ≡ Worker.looking → IsSound s → IsSound (take_work s)
unfolding take_work
take_work-IsSound s at h = elim (Bool-cases (not s.pending_all && is_none_left s.pending_servers)) [
  | inl nothing ↦ rw nothing (record {
    running = refl;
    served = (refl, refl);
    asked = omega arith;
    careful = tt;
    marked = h.marked;
  })
  | inr something ↦ elim (Bool-cases s.pending_all) [
    | inl all ↦
        rw (something, all)
          (record {
            running = h.running ∙ ap is_busy at;
            served = tt;
            asked = omega arith;
            careful = h.asked;
            marked = h.marked;
          })
    | inr one ↦
        rw (something, one)
          (record {
            running = h.running ∙ ap is_busy at;
            served = tt;
            asked = omega arith;
            careful = tt;
            marked = h.marked;
          })
  ]
]

copied-IsSound :
    (id since : ℕ) (st : SyncStatus) (rest : List (ℕ × ℕ)) (s : Scheduler)
    → IsSound s
    → true ≡ is_busy s.worker
    → IsMarked s.status_seq st
    → IsSound
        (record (set_status_from_if_untouched id st since s) { worker = Worker.copying st rest })
unfolding set_status_from_if_untouched
copied-IsSound id since st rest s h busy marked =
    elim (Bool-cases ((status_in (Target.server id) s.sync_status).revision == since)) [
      | inl same ↦ rw same (
          put_status-IsSound (Target.server id) st (Worker.copying st rest) s
            (IsStarted-later st.revision (s.status_seq + 1) st (omega (arith, marked.0)) marked.1) h
            busy tt (IsMarked-later s.status_seq (s.status_seq + 1) st (omega arith) marked))
      | inr touched ↦ rw touched (moved-IsSound (Worker.copying st rest) s h busy tt marked)
    ]

pub work-IsSound :
    (outcome : Option String) (now : ℕ) (w : Worker) (s : Scheduler)
    → s.worker ≡ w
    → IsSound s
    → IsSound (work outcome now w s)
unfolding work set_status
work-IsSound outcome now Worker.idle s at h = h
work-IsSound outcome now Worker.looking s at h = take_work-IsSound s at h
work-IsSound outcome now (Worker.full_pass request servers) s at h =
    moved-IsSound (Worker.counted request (status_seqs servers s)) s h (sym (ap is_busy at)) tt
      (subst (λ x. IsCareful x s.status_seq) at h.careful)
work-IsSound outcome now (Worker.counted request before) s at h =
    let known = subst (λ x. IsCareful x s.status_seq) at h.careful in
    put_status-IsSound Target.all_targets
      (record blank_status {
        state = SyncState.running;
        at = now;
        request_revision = request;
        started_revision = s.status_seq + 1;
      })
      (Worker.rebuilding request (s.status_seq + 1) before) s
      (inr (omega (arith, known), omega arith)) h (sym (ap is_busy at)) tt
      (omega (arith, known), omega arith)
work-IsSound outcome now (Worker.rebuilding request started before) s at h =
    let known = subst (λ x. IsCareful x s.status_seq) at h.careful in
    put_status-IsSound Target.all_targets
      (record blank_status {
        state = outcome_state outcome;
        error = outcome_error outcome;
        at = now;
        request_revision = request;
        started_revision = started;
      })
      (Worker.reporting before) s (inr (known.0, omega (arith, known.1))) h (sym (ap is_busy at)) tt
      tt
work-IsSound outcome now (Worker.reporting before) s at h =
    moved-IsSound (Worker.copying (status_in Target.all_targets s.sync_status) before) s h
      (sym (ap is_busy at)) tt
      (status_in-IsMarked s.status_seq Target.all_targets s.sync_status h.marked)
work-IsSound outcome now (Worker.copying st []) s at h =
    moved-IsSound Worker.looking s h (sym (ap is_busy at)) tt tt
work-IsSound outcome now (Worker.copying st ((id, since) ∷ rest)) s at h =
    copied-IsSound id since st rest s h (sym (ap is_busy at))
      (subst (λ x. IsCareful x s.status_seq) at h.careful)
work-IsSound outcome now (Worker.each_server []) s at h =
    moved-IsSound Worker.looking s h (sym (ap is_busy at)) tt tt
work-IsSound outcome now (Worker.each_server (id ∷ ids)) s at h =
    put_status-IsSound (Target.server id)
      (record blank_status { state = SyncState.running; at = now }) (Worker.one_server id ids) s
      (inl refl) h (sym (ap is_busy at)) tt tt
work-IsSound outcome now (Worker.one_server id ids) s at h =
    put_status-IsSound (Target.server id)
      (record blank_status {
        state = outcome_state outcome;
        error = outcome_error outcome;
        at = now;
      })
      (Worker.each_server ids) s (inl refl) h (sym (ap is_busy at)) tt tt
