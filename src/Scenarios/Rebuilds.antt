-- ===== src/Scenarios/Rebuilds.antt =====
-- The queue of rebuilds: two requests at once, one during the pass, and a machine that failed; and the
-- intervals of the loops that ask for them.
use qing_zhou.Common.{String, ◌||◌, false, arith, ℕ, some, ◌≡◌, refl, true, none, List, [], ◌∷◌}
use qing_zhou.Common.Int.{pos, negsuc}
use qing_zhou.Intervals.{stats, controller}
use qing_zhou.Intervals.Bounds.{IsMinutes, controller_bounds}
use qing_zhou.Common.Int.{ltb_ℤ}
use qing_zhou.SyncQueue.{Target, SyncState, new_scheduler, Event, step, run}
use qing_zhou.SyncQueue.Requests.{is_asked, is_awaited, is_rebuilt}
use qing_zhou.SyncQueue.Working.{IsSound}
use qing_zhou.SyncQueue.Draining.{work_on, IsAtRest}
use qing_zhou.SyncQueue.Ending.{run-ends}
use qing_zhou.SyncQueue.Watermarks.{run-IsSound}

abbrev saved_twice : List Event
saved_twice =
    Event.ask "u1" 10 Target.all_targets
    ∷ Event.ask "u2" 11 (Target.server 4)
    ∷ Event.go_on none 12
    ∷ Event.go_on none 12
    ∷ Event.go_on none 13
    ∷ Event.ask "u3" 14 Target.all_targets
    ∷ Event.report 4 SyncState.failed "ssh" 15
    ∷ Event.go_on none 16
    ∷ []

saved_seq : (run saved_twice new_scheduler).status_seq ≡ 6
unfolding run
saved_seq = refl

saved_again : (run saved_twice new_scheduler).pending_all ≡ true
unfolding run
saved_again = refl

run-IsSound_example :
    IsSound (run saved_twice new_scheduler)
    × ((uuid : String) (now : ℕ) (t : Target)
        → (is_asked t (step (Event.ask uuid now t) (run saved_twice new_scheduler)) ≡ true)
          × ((step (Event.ask uuid now t) (run saved_twice new_scheduler)).sched_running ≡ true))
    × ((e : Event) (t : Target)
        → is_awaited t (run saved_twice new_scheduler) ≡ true
        → (is_awaited t (step e (run saved_twice new_scheduler))
            || is_rebuilt t (step e (run saved_twice new_scheduler)).worker)
          ≡ true)
run-IsSound_example = run-IsSound saved_twice

run-ends_example :
    (n : ℕ) × IsAtRest (work_on (λ s. some "down") (λ s. 20) n (run saved_twice new_scheduler))
run-ends_example = run-ends (λ s. some "down") (λ s. 20) saved_twice

-- "90s" becomes two minutes
ninety_seconds : stats (some (pos 90000000000)) none ≡ pos 120000000000
unfolding stats
ninety_seconds = refl

-- the rounding of the largest duration leaves the int64
largest_duration : stats (some (pos 9223372036854775807)) none ≡ negsuc 9223371993709551615
unfolding stats
largest_duration = refl

controller_bounds_example :
    IsMinutes 1 60 (controller (some (pos 90000000000)) none none (some "30")).0
    × IsMinutes 10 1440 (controller (some (pos 90000000000)) none none (some "30")).1
    × (ltb_ℤ
          (controller (some (pos 90000000000)) none none (some "30")).1
          (controller (some (pos 90000000000)) none none (some "30")).0
        ≡ false)
controller_bounds_example =
    controller_bounds (some (pos 90000000000)) none none (some "30") (omega arith) tt
