-- ===== src/Circuit.antt =====
-- internal/sbctl/restartcircuit.go: the circuit breaker that stops pushing configuration to a node that
-- keeps restarting. The two Go maps are functions of the server's id; times are numbers of nanoseconds.
pub mod Opening
use qing_zhou.Common.{
  ℕ, zero, suc, ◌+◌, ◌-◌, ◌*◌, Bool, true, false, not, ◌&&◌, ◌||◌, List, [], ◌∷◌, ◌++◌, ltb, leb,
  ◌==◌, length, select, larger, if◌then◌else◌,
}

-- `RestartCircuitPolicy`
pub record Policy : Type 0 where
  pub enabled : Bool
  pub window : ℕ
  pub threshold : ℕ

-- `restartCircuit`
pub record Circuit : Type 0 where
  pub hist : ℕ → List ℕ
  pub tripped : ℕ → Bool

-- `newRestartCircuit`
abbrev pub new_circuit : Circuit
new_circuit = record { hist = λ _. []; tripped = λ _. false }

-- an assignment to one key of a map
abbrev pub put {ℓ} : {A : Type ℓ} → ℕ → A → (ℕ → A) → ℕ → A
put k v m j = if j == k then v else m j

abbrev drop : ℕ → List ℕ → List ℕ
drop zero xs = xs
drop (suc n) [] = []
drop (suc n) (x ∷ xs) = drop n xs

-- `kept[len(kept)-max:]`
unfoldable pub newest : ℕ → List ℕ → List ℕ
newest max kept = if ltb max (length kept) then drop (length kept - max) kept else kept

-- the restarts that are not before the cutoff
unfoldable pub in_window : ℕ → ℕ → List ℕ → List ℕ
in_window window now h = select (λ at. not (ltb at (now - window))) h

-- the bound of a history
abbrev pub history_max : ℕ → ℕ
history_max threshold = larger (threshold * 2) 16

record_kept : ℕ → Policy → List ℕ → Circuit → (Bool × ℕ) × Circuit
record_kept server p kept g =
    let count = length kept in
    let stored = record g { hist = put server kept g.hist } in
    if leb p.threshold count && not (g.tripped server)
    then ((true, count), record stored { tripped = put server true g.tripped })
    else ((false, count), stored)

-- `record`: whether the circuit opened and the count
unfoldable pub record_restart : ℕ → ℕ → Policy → Circuit → (Bool × ℕ) × Circuit
unfolding record_kept newest in_window
record_restart server now p g =
    if not p.enabled || (p.window == 0 || p.threshold == 0)
    then ((false, 0), g)
    else record_kept server p
        (newest (history_max p.threshold) (in_window p.window now (g.hist server ++ now ∷ []))) g

-- `isOpen`
abbrev pub is_open : ℕ → Circuit → Bool
is_open server g = g.tripped server

-- `close`
unfoldable pub close : ℕ → Circuit → Bool × Circuit
close server g =
    (g.tripped server, record { hist = put server [] g.hist; tripped = put server false g.tripped })
