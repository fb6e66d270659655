-- ===== src/Circuit/Opening.antt =====
-- internal/sbctl/restartcircuit.go: when the circuit of a server opens.
use qing_zhou.Common.{ℕ, ◌≡◌, Bool, false, not, ◌&&◌, ◌||◌, List, leb, ◌==◌, length}
use qing_zhou.Circuit.{Policy, Circuit, is_open}

-- what is recorded about a history that is given
abbrev Recorded : ℕ → Policy → List ℕ → Circuit → (Bool × ℕ) × Circuit → Type 0
Recorded server p kept g r =
    (r.0.0 ≡ (leb p.threshold (length kept) && not (g.tripped server)))
    × (is_open server r.1 ≡ (leb p.threshold (length kept) || g.tripped server))
    × (r.1.hist server ≡ kept)
    × ((j : ℕ) → (j == server) ≡ false → (r.1.hist j ≡ g.hist j) × (r.1.tripped j ≡ g.tripped j))
