-- ===== src/SyncQueue.antt =====
-- internal/sbctl/schedule.go: the queue of configuration rebuilds. Every step is one stretch of code
-- under the lock; what other goroutines do in between is a step of its own. The rebuild of a machine
-- itself, its clock and the texts of its errors are arguments.
pub mod Working
pub mod Requests
pub mod Serving
pub mod Watermarks
pub mod Draining
pub mod Ending
use qing_zhou.Common.{
  ℕ, ◌+◌, String, Bool, true, false, not, ◌&&◌, ◌||◌, Option, none, some, List, [], ◌∷◌, ◌++◌, map,
  ◌==◌, str_eq, any, first, update_where, if◌then◌else◌,
}

-- a target: every machine (-1 in the code), or one, 0 for the local one
pub data Target : Type 0 where
  all_targets : Target
  server : ℕ → Target

abbrev pub same_target : Target → Target → Bool
same_target Target.all_targets Target.all_targets = true
same_target (Target.server a) (Target.server b) = a == b
same_target _ _ = false

pub data SyncState : Type 0 where
  unknown pending running done failed : SyncState

-- `SyncStatus`
pub record SyncStatus : Type 0 where
  pub state : SyncState
  pub error : String
  pub at : ℕ
  pub revision : ℕ
  pub request_revision : ℕ
  pub started_revision : ℕ

abbrev pub blank_status : SyncStatus
blank_status = record {
  state = SyncState.unknown;
  error = "";
  at = 0;
  revision = 0;
  request_revision = 0;
  started_revision = 0;
}

-- `SyncTicket`
pub record SyncTicket : Type 0 where
  pub epoch : String
  pub revision : ℕ

-- where the goroutine of `drain` stands
pub data Worker : Type 0 where
  idle looking : Worker
  full_pass : (request : ℕ) (servers : List ℕ) → Worker
  counted : (request : ℕ) (before : List (ℕ × ℕ)) → Worker
  rebuilding : (request started : ℕ) (before : List (ℕ × ℕ)) → Worker
  reporting : (before : List (ℕ × ℕ)) → Worker
  copying : (st : SyncStatus) (before : List (ℕ × ℕ)) → Worker
  each_server : (servers : List ℕ) → Worker
  one_server : (id : ℕ) (servers : List ℕ) → Worker

-- the fields of `Controller` under `schedMu`, and the goroutine
pub record Scheduler : Type 0 where
  pub pending_all : Bool
  pub pending_all_revision : ℕ
  pub pending_servers : List ℕ
  pub sched_running : Bool
  pub status_seq : ℕ
  pub sync_status : List (Target × SyncStatus)
  pub sync_epoch : String
  pub worker : Worker

abbrev pub new_scheduler : Scheduler
new_scheduler = record {
  pending_all = false;
  pending_all_revision = 0;
  pending_servers = [];
  sched_running = false;
  status_seq = 0;
  sync_status = [];
  sync_epoch = "";
  worker = Worker.idle;
}

-- the zero value stands for a target without a status
unfoldable pub status_in : Target → List (Target × SyncStatus) → SyncStatus
status_in t [] = blank_status
status_in t ((u, st) ∷ rest) = if same_target u t then st else status_in t rest

unfoldable pub put_in :
    Target → SyncStatus → List (Target × SyncStatus) → List (Target × SyncStatus)
put_in t st [] = (t, st) ∷ []
put_in t st ((u, old) ∷ rest) =
    let later = put_in t st rest in if same_target u t then (t, st) ∷ rest else (u, old) ∷ later

-- `putStatusLocked`
unfoldable pub put_status : Target → SyncStatus → Scheduler → Scheduler
unfolding put_in
put_status t st s = record s {
  status_seq = s.status_seq + 1;
  sync_status = put_in t (record st { revision = s.status_seq + 1 }) s.sync_status;
}

-- `setStatus`
unfoldable pub set_status : Target → SyncState → String → ℕ → Scheduler → Scheduler
unfolding put_status
set_status t state error now =
    put_status t (record blank_status { state = state; error = error; at = now })

-- what `schedule` marks as pending
unfoldable pub mark_pending : Target → Scheduler → Scheduler
mark_pending Target.all_targets s = record s {
  pending_all = true;
  pending_all_revision = s.status_seq + 1;
}
mark_pending (Target.server id) s =
    if any (λ k. k == id) s.pending_servers
    then s
    else record s { pending_servers = s.pending_servers ++ id ∷ [] }

abbrev pub request_of : Target → ℕ → ℕ
request_of Target.all_targets revision = revision
request_of (Target.server _) revision = 0

-- the target is pending, and says so
unfoldable pub enqueue : ℕ → Target → Scheduler → Scheduler
unfolding put_status mark_pending
enqueue now t s =
    put_status t
      (record blank_status {
        state = SyncState.pending;
        at = now;
        request_revision = request_of t (s.status_seq + 1);
      })
      (mark_pending t s)

-- `schedule`: the goroutine is started where none runs
unfoldable pub schedule : String → ℕ → Target → Scheduler → SyncTicket × Scheduler
unfolding enqueue
schedule uuid now t s =
    let revision = s.status_seq + 1 in
    let epoch = if str_eq s.sync_epoch "" then uuid else s.sync_epoch in
    let marked = enqueue now t s in
    (
      record { epoch = epoch; revision = revision },
      if s.sched_running
          then record marked { sync_epoch = epoch }
          else record marked { sync_epoch = epoch; sched_running = true; worker = Worker.looking },
    )

abbrev pub is_none_left : List ℕ → Bool
is_none_left [] = true
is_none_left (_ ∷ _) = false

-- the head of the loop of `drain`
unfoldable pub take_work : Scheduler → Scheduler
take_work s =
    let taken = record s { pending_all = false; pending_all_revision = 0; pending_servers = [] } in
    if not s.pending_all && is_none_left s.pending_servers
    then record taken { sched_running = false; worker = Worker.idle }
    else if s.pending_all
    then record taken { worker = Worker.full_pass s.pending_all_revision s.pending_servers }
    else record taken { worker = Worker.each_server s.pending_servers }

-- `statusSeqs`
unfoldable pub status_seqs : List ℕ → Scheduler → List (ℕ × ℕ)
unfolding status_in
status_seqs ids s = map (λ id. (id, (status_in (Target.server id) s.sync_status).revision)) ids

-- `setStatusFromIfUntouched`
unfoldable pub set_status_from_if_untouched : ℕ → SyncStatus → ℕ → Scheduler → Scheduler
unfolding status_in put_status
set_status_from_if_untouched id st since s =
    if (status_in (Target.server id) s.sync_status).revision == since
    then put_status (Target.server id) st s
    else s

abbrev pub outcome_state : Option String → SyncState
outcome_state none = SyncState.done
outcome_state (some _) = SyncState.failed

abbrev pub outcome_error : Option String → String
outcome_error none = ""
outcome_error (some e) = e

-- the next step of the goroutine; `outcome` is the error of the rebuild that it waits for, if any
unfoldable pub work : Option String → ℕ → Worker → Scheduler → Scheduler
unfolding take_work status_seqs put_status set_status status_in set_status_from_if_untouched
work outcome now Worker.idle s = s
work outcome now Worker.looking s = take_work s
work outcome now (Worker.full_pass request servers) s = record s {
  worker = Worker.counted request (status_seqs servers s);
}
work outcome now (Worker.counted request before) s =
    let started = s.status_seq + 1 in
    record (put_status Target.all_targets
      (record blank_status {
        state = SyncState.running;
        at = now;
        request_revision = request;
        started_revision = started;
      })
      s) { worker = Worker.rebuilding request started before }
work outcome now (Worker.rebuilding request started before) s =
    record (put_status Target.all_targets
      (record blank_status {
        state = outcome_state outcome;
        error = outcome_error outcome;
        at = now;
        request_revision = request;
        started_revision = started;
      })
      s) { worker = Worker.reporting before }
work outcome now (Worker.reporting before) s = record s {
  worker = Worker.copying (status_in Target.all_targets s.sync_status) before;
}
work outcome now (Worker.copying st []) s = record s { worker = Worker.looking }
work outcome now (Worker.copying st ((id, since) ∷ rest)) s =
    record (set_status_from_if_untouched id st since s) { worker = Worker.copying st rest }
work outcome now (Worker.each_server []) s = record s { worker = Worker.looking }
work outcome now (Worker.each_server (id ∷ ids)) s =
    record (set_status (Target.server id) SyncState.running "" now s) {
      worker = Worker.one_server id ids;
    }
work outcome now (Worker.one_server id ids) s =
    record (set_status (Target.server id) (outcome_state outcome) (outcome_error outcome) now s) {
      worker = Worker.each_server ids;
    }

-- what may happen next: a request, a step of the goroutine, or the report of a machine during a rebuild
pub data Event : Type 0 where
  ask : (uuid : String) (now : ℕ) (t : Target) → Event
  go_on : (outcome : Option String) (now : ℕ) → Event
  report : (id : ℕ) (state : SyncState) (error : String) (now : ℕ) → Event

unfoldable pub step : Event → Scheduler → Scheduler
unfolding schedule work set_status
step (Event.ask uuid now t) s = (schedule uuid now t s).1
step (Event.go_on outcome now) s = work outcome now s.worker s
step (Event.report id state error now) s = set_status (Target.server id) state error now s

unfoldable pub run : List Event → Scheduler → Scheduler
unfolding step
run [] s = s
run (e ∷ es) s = run es (step e s)
