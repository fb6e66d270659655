-- ===== src/Names/Search.antt =====
-- The searches in texts that the names of the statistics are read by.
use Prim.Native.Char.{code}
use qing_zhou.Common.{ℕ, List, [], ◌∷◌, String, Option, none, some, ◌==◌, if◌then◌else◌}

-- `strings.TrimPrefix` where the prefix is there
unfoldable pub strip_prefix : String → String → Option String
strip_prefix String.[] s = some s
strip_prefix (String.◌∷◌ c p) String.[] = none
strip_prefix (String.◌∷◌ c p) (String.◌∷◌ d s) = if code c == code d then strip_prefix p s else none

-- what stands before and after the last occurrence of a marker, `strings.LastIndex`
unfoldable pub split_last : String → String → Option (String × String)
unfolding strip_prefix
split_last marker String.[] = none
split_last marker (String.◌∷◌ c s) = elim (split_last marker s) [
  | some (before, after) ↦ some (String.◌∷◌ c before, after)
  | none ↦ elim (strip_prefix marker (String.◌∷◌ c s)) [
    | none ↦ none
    | some after ↦ some ("", after)
  ]
]

-- `strings.Split` by one character
unfoldable pub split_on : ℕ → String → List String
split_on c String.[] = "" ∷ []
split_on c (String.◌∷◌ d s) = elim (split_on c s) [
  | [] ↦ []
  | w ∷ ws ↦ if code d == c then "" ∷ w ∷ ws else String.◌∷◌ d w ∷ ws
]
