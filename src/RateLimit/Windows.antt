-- ===== src/RateLimit/Windows.antt =====
-- internal/api/ratelimit.go: what a key gets within one window.
use text.Mathlib.TextEquality.{eq_iff}
use qing_zhou.Common.{
  ℕ, ◌+◌, ◌-◌, ◌≤◌, ◌<◌, ◌≡◌, refl, String, true, false, none, some, List, [], ◌∷◌, leb, str_eq,
  if◌then◌else◌, All, arith, Bool-cases, inl, inr, ap, larger, ◌⊎◌,
}
use qing_zhou.RateLimit.{Entry, Limiter, entry_of, put_entry, fresh_entry, allow_entry, allow}

put-entry_of :
    (key : String) (e : Entry) (m : List (String × Entry))
    → entry_of key (put_entry key e m) ≡ some e
unfolding entry_of put_entry
put-entry_of key e [] = rw ((eq_iff key key).1 refl) refl
put-entry_of key e ((k, d) ∷ m) = elim (Bool-cases (str_eq k key)) [
  | inl same ↦ rw (same, same) refl
  | inr other ↦ rw (other, other) (put-entry_of key e m)
]

-- how many of the requests of a key, at the times given, are let through
abbrev pub allowed : String → List ℕ → Limiter → ℕ
allowed key [] rl = 0
allowed key (now ∷ ts) rl =
    let rest = allowed key ts (allow key now rl).1 in
    if (allow key now rl).0 then rest + 1 else rest

-- a running window lets through what is left of it
running-allowed :
    (key : String) (ts : List ℕ) (e : Entry) (rl : Limiter)
    → entry_of key rl.entries ≡ some e
    → All (λ (t : ℕ). t < e.reset) ts
    → allowed key ts rl ≤ rl.max - e.count
unfolding allow allow_entry
running-allowed key [] e rl found early = omega arith
running-allowed key (now ∷ ts) e rl found early =
    let late : leb e.reset now ≡ false = ground (arith, early.0) in
    elim (Bool-cases (leb rl.max e.count)) [
      | inl full ↦ rw (allow, found, late, full) (running-allowed key ts e rl found early.1)
      | inr left ↦
          (let e' : Entry = record { count = e.count + 1; reset = e.reset } in
            let rl' : Limiter = record rl { entries = put_entry key e' rl.entries } in
            let rest = running-allowed key ts e' rl' (put-entry_of key e' rl.entries) early.1 in
            rw (allow, found, late, left) (ground (arith, left, rest)))
    ]

-- a request that starts a window, and those that follow while it runs
started-allowed :
    (key : String) (now : ℕ) (ts : List ℕ) (rl : Limiter)
    → allow key now rl ≡ fresh_entry key now rl
    → All (λ (t : ℕ). t < now + rl.window) ts
    → allowed key (now ∷ ts) rl ≤ larger 1 rl.max
unfolding fresh_entry
started-allowed key now ts rl starts early =
    let e : Entry = record { count = 1; reset = now + rl.window } in
    let rl' : Limiter = record rl { entries = put_entry key e rl.entries } in
    let rest = running-allowed key ts e rl' (put-entry_of key e rl.entries) early in
    rw starts (ground (arith, rest))

-- A request of a key that has no running window is let through and starts one. Of this request and
-- those of the key that come before the window ends, at most `max` are let through, or the one if
-- `max` is 0.
pub allow-window :
    (key : String) (now : ℕ) (ts : List ℕ) (rl : Limiter)
    → (entry_of key rl.entries ≡ none)
      ⊎ ((e : Entry) × (entry_of key rl.entries ≡ some e) × (e.reset ≤ now))
    → All (λ (t : ℕ). t < now + rl.window) ts
    → ((allow key now rl).0 ≡ true) × (allowed key (now ∷ ts) rl ≤ larger 1 rl.max)
unfolding allow allow_entry
allow-window key now ts rl (inl missing) early =
    let starts : allow key now rl ≡ fresh_entry key now rl = rw (allow, missing) refl in
    (unfold fresh_entry in ap (λ r. r.0) starts, started-allowed key now ts rl starts early)
allow-window key now ts rl (inr (e, found, over)) early =
    let ended : leb e.reset now ≡ true = ground (arith, over) in
    let starts : allow key now rl ≡ fresh_entry key now rl = rw (allow, found, ended) refl in
    (unfold fresh_entry in ap (λ r. r.0) starts, started-allowed key now ts rl starts early)
