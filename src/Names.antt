-- ===== src/Names.antt =====
-- internal/store/noderoute.go and credentials.go: the names under which nodes report traffic. A route
-- and a credential alias each hang a marker and a number on the name of a row, and the statistics peel
-- them off again. `strings` and `strconv` are read as they are documented.
pub mod Search
pub mod Peeling
use Prim.Native.Char.{Char, code}
use Prim.Native.String.{◌++◌ as text_append}
use qing_zhou.Common.{
  ℕ, String, Bool, true, false, ◌&&◌, Option, none, some, ltb, ◌==◌, str_eq, if◌then◌else◌,
}
use qing_zhou.Common.Int.{ℤ, pos, negsuc}
use qing_zhou.Common.Decimal.{format_int, parse_int}
use qing_zhou.Names.Search.{split_last}

-- `routeIdentityName`
unfoldable pub route_identity_name : String → ℕ → String
unfolding format_int
route_identity_name base node_id = text_append base (text_append "~qzr" (format_int node_id))

-- `credentialAliasStatsName`
unfoldable pub credential_alias_stats_name : String → ℕ → String
unfolding format_int
credential_alias_stats_name base alias_id =
    text_append base (text_append "~qza" (format_int alias_id))

abbrev pub positive : Option ℤ → Option ℕ
positive none = none
positive (some (negsuc _)) = none
positive (some (pos n)) = if n == 0 then none else some n

unfoldable pub peeled : Option (String × String) → Option (String × ℕ)
unfolding parse_int
peeled none = none
peeled (some (before, after)) =
    if str_eq before ""
    then none
    else elim (positive (parse_int after)) [ none ↦ none | some n ↦ some (before, n) ]

-- what a marker and a number hang on; a malformed ending is none
unfoldable pub peel : String → String → Option (String × ℕ)
unfolding peeled split_last
peel marker name = peeled (split_last marker name)

-- `baseRouteIdentity`
unfoldable pub base_route_identity : String → String
unfolding peel
base_route_identity name = elim (peel "~qzr" name) [ none ↦ name | some (base, _) ↦ base ]

-- `baseCredentialAliasIdentity`; 0 where there is no alias
unfoldable pub base_credential_alias_identity : String → String × ℕ
unfolding peel
base_credential_alias_identity name = elim (peel "~qza" name) [
  | none ↦ (name, 0)
  | some (base, alias_id) ↦ (base, alias_id)
]

-- `canonicalStatsIdentity`
unfoldable pub canonical_stats_identity : String → String × ℕ
unfolding base_route_identity base_credential_alias_identity
canonical_stats_identity name = base_credential_alias_identity (base_route_identity name)
