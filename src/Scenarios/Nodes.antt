-- ===== src/Scenarios/Nodes.antt =====
-- The circuit breaker of a node and the limiter of a client.
use qing_zhou.Common.{◌≤◌, ◌≡◌, refl, true, [], ◌∷◌, larger, inl, arith}
use qing_zhou.Circuit.{Policy, Circuit, new_circuit, record_restart}
use qing_zhou.RateLimit.{entry_of, Limiter, allow}
use qing_zhou.RateLimit.Windows.{allowed, allow-window}

abbrev policy : Policy
policy = record { enabled = true; window = 600; threshold = 3 }

abbrev restarted : Circuit
restarted = (record_restart 4 120 policy (record_restart 4 100 policy new_circuit).1).1

-- the third restart within the window opens the circuit
third_opens : (record_restart 4 130 policy restarted).0 ≡ (true, 3)
unfolding record_restart
third_opens = refl

abbrev limiter : Limiter
limiter = record { entries = []; max = 2; window = 60 }

allow-window_example :
    ((allow "10.0.0.1" 100 limiter).0 ≡ true)
    × (allowed "10.0.0.1" (100 ∷ 101 ∷ 102 ∷ 150 ∷ []) limiter ≤ larger 1 2)
unfolding entry_of
allow-window_example =
    allow-window "10.0.0.1" 100 (101 ∷ 102 ∷ 150 ∷ []) limiter (inl refl)
      (omega arith, (omega arith, (omega arith, tt)))
