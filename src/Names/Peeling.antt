-- ===== src/Names/Peeling.antt =====
-- internal/store/credentials.go: peeling the suffixes off a name.
use Prim.Native.Char.{Char, code}
use Prim.Native.String.{◌++◌ as text_append}
use text.Mathlib.TextEquality.{eq_iff}
use text.Mathlib.TextLemmas.{nil-append, cons-append, append-nil}
use qing_zhou.Common.{
  ℕ, zero, suc, ◌/◌, ◌%◌, ◌≤◌, ◌<◌, ◌≡◌, ◌≢◌, refl, String, false, none, some, ◌∙◌, ap, sym, arith,
  inl, inr, ltb, ◌==◌, str_eq, Bool-cases, ==_refl,
}
use qing_zhou.Common.Decimal.{format_int, parse_int-format_int, max_int64, decimal, digit}
use qing_zhou.Names.Search.{split_last, strip_prefix}
use qing_zhou.Names.{
  route_identity_name, credential_alias_stats_name, peel, base_route_identity, peeled,
  base_credential_alias_identity, canonical_stats_identity,
}

-- A text without the `~` that both markers start with.
abbrev pub HasNoTilde : String → Type 0
HasNoTilde String.[] = Unit
HasNoTilde (String.◌∷◌ c s) = ((126 == code c) ≡ false) × HasNoTilde s

digit-HasNoTilde : (d : ℕ) (rest : String) → HasNoTilde rest → HasNoTilde (digit d rest)
unfolding digit
digit-HasNoTilde d rest h = ground arith

decimal-HasNoTilde :
    (fuel n : ℕ) (rest : String) → HasNoTilde rest → HasNoTilde (decimal fuel n rest)
unfolding decimal
decimal-HasNoTilde zero n rest h = digit-HasNoTilde (n % 10) rest h
decimal-HasNoTilde (suc fuel) n rest h = elim (Bool-cases (ltb n 10)) [
  | inl small ↦ rw small (digit-HasNoTilde n rest h)
  | inr large ↦ rw large (decimal-HasNoTilde fuel (n / 10) _ (digit-HasNoTilde (n % 10) rest h))
]

append-HasNoTilde : (s t : String) → HasNoTilde s → HasNoTilde t → HasNoTilde (text_append s t)
append-HasNoTilde String.[] t h k = rw (nil-append t) k
append-HasNoTilde (String.◌∷◌ c s) t h k = rw (cons-append c s t) (h.0, append-HasNoTilde s t h.1 k)

-- No marker is found where there is no `~`.
split_plain : (m s : String) → HasNoTilde s → split_last (String.◌∷◌ "~" m) s ≡ none
unfolding split_last
split_plain m String.[] h = refl
split_plain m (String.◌∷◌ c s) h = rw (split_plain m s h.1) (rw h.0 refl)

split_later :
    (marker : String) (c : Char) (s before after : String)
    → split_last marker s ≡ some (before, after)
    → split_last marker (String.◌∷◌ c s) ≡ some (String.◌∷◌ c before, after)
unfolding split_last
split_later marker c s before after e = rw e refl

split_skip :
    (m : String) (c : Char) (s : String)
    → (126 == code c) ≡ false
    → split_last (String.◌∷◌ "~" m) s ≡ none
    → split_last (String.◌∷◌ "~" m) (String.◌∷◌ c s) ≡ none
unfolding split_last
split_skip m c s h e = rw e (rw h refl)

split_found :
    (marker : String) (c : Char) (s after : String)
    → split_last marker s ≡ none
    → strip_prefix marker (String.◌∷◌ c s) ≡ some after
    → split_last marker (String.◌∷◌ c s) ≡ some ("", after)
unfolding split_last
split_found marker c s after e f = rw e (rw f refl)

split_front :
    (marker : String) (base s before after : String)
    → split_last marker s ≡ some (before, after)
    → split_last marker (text_append base s) ≡ some (text_append base before, after)
split_front marker String.[] s before after e = rw (nil-append s, nil-append before) e
split_front marker (String.◌∷◌ c base) s before after e =
    rw (cons-append c base s, cons-append c base before)
      (split_later marker c (text_append base s) (text_append base before) after
        (split_front marker base s before after e))

split_behind :
    (m base s : String)
    → HasNoTilde base
    → split_last (String.◌∷◌ "~" m) s ≡ none
    → split_last (String.◌∷◌ "~" m) (text_append base s) ≡ none
unfolding split_last
split_behind m String.[] s h e = rw (nil-append s) e
split_behind m (String.◌∷◌ c base) s h e =
    rw (cons-append c base s)
      (split_skip m c (text_append base s) h.0 (split_behind m base s h.1 e))

strip-append : (m s : String) → strip_prefix m (text_append m s) ≡ some s
unfolding strip_prefix
strip-append String.[] s = rw (nil-append s) refl
strip-append (String.◌∷◌ c m) s = rw (cons-append c m s) (rw (==_refl (code c)) (strip-append m s))

split_marker :
    (m s : String)
    → HasNoTilde m
    → HasNoTilde s
    → split_last (String.◌∷◌ "~" m) (text_append (String.◌∷◌ "~" m) s) ≡ some ("", s)
unfolding split_last
split_marker m s h k = rw (cons-append "~" m s) (
    split_found (String.◌∷◌ "~" m) "~" (text_append m s) s
      (split_plain m (text_append m s) (append-HasNoTilde m s h k)) (strip-append m s))

-- a marker, and a positive number in the range of int64
module _ (m : String) (plain : HasNoTilde m) (n : ℕ) (lower : 0 < n) (upper : n ≤ max_int64) where
  abbrev marked : String → String
  marked base = text_append base (text_append (String.◌∷◌ "~" m) (format_int n))

  digits_plain : HasNoTilde (format_int n)
  unfolding format_int
  digits_plain = decimal-HasNoTilde n n "" tt

  split_marked :
      (base : String) → split_last (String.◌∷◌ "~" m) (marked base) ≡ some (base, format_int n)
  split_marked base =
      split_front (String.◌∷◌ "~" m) base _ "" (format_int n)
        (split_marker m (format_int n) plain digits_plain)
      ∙ ap (λ b. some (b, format_int n)) (append-nil base)

  peel_marked : (base : String) → base ≢ "" → peel (String.◌∷◌ "~" m) (marked base) ≡ some (base, n)
  unfolding peel peeled
  peel_marked base named =
      let there : str_eq base "" ≡ false = elim (Bool-cases (str_eq base "")) [
        | inl empty ↦ elim (named ((eq_iff base "").0 empty)) [ ]
        | inr kept ↦ kept
      ] in
      rw (split_marked base) (rw (there, parse_int-format_int n upper) (ground arith))

strip_route : (d : String) → strip_prefix "~qzr" (text_append "~qza" d) ≡ none
unfolding strip_prefix
strip_route d =
    rw
      (cons-append "~" "qza" d, cons-append "q" "za" d, cons-append "z" "a" d, cons-append "a" "" d)
      refl

split_miss :
    (marker : String) (c : Char) (s : String)
    → split_last marker s ≡ none
    → strip_prefix marker (String.◌∷◌ c s) ≡ none
    → split_last marker (String.◌∷◌ c s) ≡ none
unfolding split_last
split_miss marker c s e f = rw e (rw f refl)

-- A base and an alias are no route.
alias_is_no_route :
    (base : String) (n : ℕ)
    → HasNoTilde base
    → split_last "~qzr" (text_append base (text_append "~qza" (format_int n))) ≡ none
unfolding format_int
alias_is_no_route base n h =
    let d = decimal n n "" in
    let plain = decimal-HasNoTilde n n "" tt in
    split_behind "qzr" base (text_append "~qza" d) h (
      rw (cons-append "~" "qza" d) (
        split_miss "~qzr" "~" (text_append "qza" d)
          (split_plain "qzr" (text_append "qza" d)
            (append-HasNoTilde "qza" d (refl, (refl, (refl, tt))) plain))
          (ap (strip_prefix "~qzr") (sym (cons-append "~" "qza" d)) ∙ strip_route d)))

peel_nothing : (marker name : String) → split_last marker name ≡ none → peel marker name ≡ none
unfolding peel peeled
peel_nothing marker name e = rw e refl

route_none : (name : String) → peel "~qzr" name ≡ none → base_route_identity name ≡ name
unfolding base_route_identity
route_none name e = rw (e, base_route_identity) refl

route_some :
    (name base : String) (n : ℕ)
    → peel "~qzr" name ≡ some (base, n)
    → base_route_identity name ≡ base
unfolding base_route_identity
route_some name base n e = rw (e, base_route_identity) refl

alias_none :
    (name : String) → peel "~qza" name ≡ none → base_credential_alias_identity name ≡ (name, 0)
unfolding base_credential_alias_identity
alias_none name e = rw (e, base_credential_alias_identity) refl

alias_some :
    (name base : String) (n : ℕ)
    → peel "~qza" name ≡ some (base, n)
    → base_credential_alias_identity name ≡ (base, n)
unfolding base_credential_alias_identity
alias_some name base n e = rw (e, base_credential_alias_identity) refl

append-ne-nil : (base s : String) → base ≢ "" → text_append base s ≢ ""
append-ne-nil String.[] s named e = named refl
append-ne-nil (String.◌∷◌ c base) s named e = cc (sym (cons-append c base s) ∙ e)

-- A name without `~` that is not empty, with an alias, a route, both in this order, or neither, and
-- positive numbers in the range of int64: the statistics get back the name and the alias, 0 for none.
pub canonical_stats_identity-names :
    (base : String) (alias_id node_id : ℕ)
    → base ≢ ""
    → HasNoTilde base
    → 0 < alias_id
    → alias_id ≤ max_int64
    → 0 < node_id
    → node_id ≤ max_int64
    → (canonical_stats_identity base ≡ (base, 0))
      × (canonical_stats_identity (route_identity_name base node_id) ≡ (base, 0))
      × (canonical_stats_identity (credential_alias_stats_name base alias_id) ≡ (base, alias_id))
      × (canonical_stats_identity
            (route_identity_name (credential_alias_stats_name base alias_id) node_id)
          ≡ (base, alias_id))
unfolding canonical_stats_identity route_identity_name credential_alias_stats_name
canonical_stats_identity-names base a n named plain pa ba pn bn =
    let aliased = credential_alias_stats_name base a in
    let no_alias = alias_none base (peel_nothing "~qza" base (split_plain "qza" base plain)) in
    let is_alias =
      alias_some aliased base a (peel_marked "qza" (refl, (refl, (refl, tt))) a pa ba base named) in
    (
      ap base_credential_alias_identity
            (route_none base (peel_nothing "~qzr" base (split_plain "qzr" base plain)))
          ∙ no_alias,
      ap base_credential_alias_identity (
            route_some (route_identity_name base n) base n
              (peel_marked "qzr" (refl, (refl, (refl, tt))) n pn bn base named))
          ∙ no_alias,
      ap base_credential_alias_identity
            (route_none aliased (peel_nothing "~qzr" aliased (alias_is_no_route base a plain)))
          ∙ is_alias,
      ap base_credential_alias_identity (
            route_some (route_identity_name aliased n) aliased n (
              peel_marked "qzr" (refl, (refl, (refl, tt))) n pn bn aliased
                (append-ne-nil base _ named)))
          ∙ is_alias,
    )
