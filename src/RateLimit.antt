-- ===== src/RateLimit.antt =====
-- internal/api/ratelimit.go: the fixed-window limiter. The Go map is an association list with one entry
-- for each key.
pub mod Windows
use qing_zhou.Common.{
  ℕ, ◌+◌, ◌-◌, String, Bool, true, false, not, ◌&&◌, Option, none, some, List, [], ◌∷◌, ltb, leb,
  str_eq, if◌then◌else◌,
}

-- `rlEntry`
pub record Entry : Type 0 where
  pub count : ℕ
  pub reset : ℕ

-- `rateLimiter`
pub record Limiter : Type 0 where
  pub entries : List (String × Entry)
  pub max : ℕ
  pub window : ℕ

-- m[key]
unfoldable pub entry_of : String → List (String × Entry) → Option Entry
entry_of key [] = none
entry_of key ((k, e) ∷ m) = if str_eq k key then some e else entry_of key m

-- m[key] = e
unfoldable pub put_entry : String → Entry → List (String × Entry) → List (String × Entry)
put_entry key e [] = (key, e) ∷ []
put_entry key e ((k, d) ∷ m) =
    let rest = put_entry key e m in if str_eq k key then (k, e) ∷ m else (k, d) ∷ rest

fresh_entry : String → ℕ → Limiter → Bool × Limiter
unfolding put_entry
fresh_entry key now rl = (
  true,
  record rl { entries = put_entry key (record { count = 1; reset = now + rl.window }) rl.entries },
)

allow_entry : String → ℕ → Limiter → Option Entry → Bool × Limiter
unfolding fresh_entry put_entry
allow_entry key now rl none = fresh_entry key now rl
allow_entry key now rl (some e) =
    if leb e.reset now
    then fresh_entry key now rl
    else if leb rl.max e.count
    then (false, rl)
    else (
      true,
      record rl {
        entries = put_entry key (record { count = e.count + 1; reset = e.reset }) rl.entries;
      },
    )

-- `allow`
unfoldable pub allow : String → ℕ → Limiter → Bool × Limiter
unfolding allow_entry entry_of
allow key now rl = allow_entry key now rl (entry_of key rl.entries)

abbrev sweep_entries : ℕ → List (String × Entry) → List (String × Entry)
sweep_entries now [] = []
sweep_entries now ((k, e) ∷ m) =
    let rest = sweep_entries now m in if leb e.reset now then rest else (k, e) ∷ rest

-- `sweep`
unfoldable pub sweep : ℕ → Limiter → Limiter
sweep now rl = record rl { entries = sweep_entries now rl.entries }
