-- ===== src/Traffic/Relays.antt =====
-- internal/store/traffic_ledger.go: which names are relays, `relayObservationIdentity`.
use qing_zhou.Common.{
  ℕ, String, Bool, false, not, ◌&&◌, Option, none, some, List, [], ◌∷◌, ltb, ◌==◌, str_eq, any,
  first, if◌then◌else◌,
}
use qing_zhou.Common.Int.{pos}
use qing_zhou.Common.Decimal.{parse_int, format_int}
use qing_zhou.Bucket.{Kind}
use qing_zhou.Names.{positive}
use qing_zhou.Names.Search.{strip_prefix, split_on}
use qing_zhou.Traffic.Tables.{TrafficPoll, SourceKind, GapReason}

-- a row of `relay_metering_links`
pub record RelayLink : Type 0 where
  pub id : ℕ
  pub source_server_id : ℕ
  pub target_server_id : ℕ

-- a row of `relay_metering_generations`
pub record RelayGeneration : Type 0 where
  pub link_id : ℕ
  pub generation : ℕ
  pub identity_name : String

-- a row of `relay_metering_users`
pub record RelayUser : Type 0 where
  pub link_id : ℕ
  pub user_id : ℕ
  pub generation : ℕ
  pub identity_name : String

-- a row of `sb_inbounds`
pub record RelayInbound : Type 0 where
  pub id : ℕ
  pub server_id : ℕ
  pub relay_secret : String

-- the tables that say which names are relays
pub record Relays : Type 0 where
  pub links : List RelayLink
  pub generations : List RelayGeneration
  pub users : List RelayUser
  pub legacy : List (String × ℕ)  -- identity, server
  pub namespace_epochs : List (ℕ × String)  -- server, epoch
  pub inbounds : List RelayInbound

-- what a name was found to be
pub record Owner : Type 0 where
  pub kind : SourceKind
  pub link_id : ℕ
  pub user_id : ℕ
  pub bucket_id : ℕ
  pub package_id : ℕ
  pub bucket_kind : Option Kind
  pub gap : Option GapReason

abbrev pub owner_of : SourceKind → ℕ → ℕ → Option GapReason → Owner
owner_of kind link_id user_id gap = record {
  kind = kind;
  link_id = link_id;
  user_id = user_id;
  bucket_id = 0;
  package_id = 0;
  bucket_kind = none;
  gap = gap;
}

-- a positive number in the only spelling that the code prints
unfoldable pub canonical_number : String → Option ℕ
unfolding parse_int format_int
canonical_number s = elim (positive (parse_int s)) [
  | none ↦ none
  | some n ↦ if str_eq (format_int n) s then some n else none
]

-- a prefix and a number that is not negative, as `fmt.Sprintf` prints it
unfoldable pub numbered : String → String → Option ℕ
unfolding strip_prefix parse_int format_int
numbered prefix s = elim (strip_prefix prefix s) [
  | none ↦ none
  | some t ↦ elim (parse_int t) [
    | some (pos n) ↦ if str_eq (format_int n) t then some n else none
    | _ ↦ none
  ]
]

-- `legacyRelayInboundID`
unfoldable pub legacy_relay_inbound_id : String → Option ℕ
unfolding canonical_number strip_prefix
legacy_relay_inbound_id name = elim (strip_prefix "relay_" name) [
  | none ↦ none
  | some suffix ↦ canonical_number suffix
]

abbrev pub link_or_0 : Option RelayLink → ℕ
link_or_0 none = 0
link_or_0 (some l) = l.id

-- the link of an outbound of a generation, and of a user's generation
unfoldable pub generation_link : ℕ → ℕ → ℕ → Relays → ℕ
generation_link server_id link generation t = link_or_0 (
    if any (λ (g : RelayGeneration). g.link_id == link && g.generation == generation) t.generations
    then first (λ (l : RelayLink). l.id == link && l.source_server_id == server_id) t.links
    else none)

unfoldable pub user_link : ℕ → ℕ → ℕ → ℕ → Relays → ℕ
user_link server_id link owner generation t = link_or_0 (
    if any
      (λ (u : RelayUser). u.link_id == link && (u.user_id == owner && u.generation == generation))
      t.users
    then first (λ (l : RelayLink). l.id == link && l.source_server_id == server_id) t.links
    else none)

outbound_parts : ℕ → Relays → List String → ℕ
unfolding canonical_number numbered generation_link user_link
outbound_parts server_id t (a ∷ b ∷ l ∷ g ∷ []) =
    if str_eq a "relay" && str_eq b "link"
    then elim (canonical_number l) [
      | none ↦ 0
      | some link ↦ elim (numbered "g" g) [
        | none ↦ 0
        | some generation ↦ generation_link server_id link generation t
      ]
    ]
    else 0
outbound_parts server_id t (a ∷ b ∷ l ∷ u ∷ g ∷ []) =
    if str_eq a "relay" && str_eq b "link"
    then elim (canonical_number l) [
      | none ↦ 0
      | some link ↦ elim (numbered "u" u) [
        | none ↦ 0
        | some owner ↦ elim (numbered "g" g) [
          | none ↦ 0
          | some generation ↦ user_link server_id link owner generation t
        ]
      ]
    ]
    else 0
outbound_parts server_id t _ = 0

-- a name of the old shared namespace: of an inbound of this machine, or of unknown origin
unfoldable pub legacy_owner : ℕ → ℕ → Relays → Owner
legacy_owner server_id inbound_id t =
    if any
      (λ (i : RelayInbound).
        i.id == inbound_id && (i.server_id == server_id && not (str_eq i.relay_secret "")))
      t.inbounds
    then owner_of SourceKind.legacy_shared_relay 0 0 none
    else owner_of SourceKind.unknown 0 0 (some GapReason.legacy_relay_provenance_unknown)

-- a name of a generation, of any machine
unfoldable pub generation_owner : ℕ → ℕ → Relays → Owner
generation_owner server_id link t =
    if any (λ (l : RelayLink). l.id == link && l.target_server_id == server_id) t.links
    then owner_of SourceKind.relay_link link 0 none
    else owner_of SourceKind.unknown link 0 (some GapReason.relay_source_mismatch)

-- `relayObservationIdentity`; `none` for a name that is left to the customers
unfoldable pub relay_observation_identity : ℕ → String → Relays → Option Owner
unfolding outbound_parts legacy_owner generation_owner legacy_relay_inbound_id split_on
relay_observation_identity server_id name t = elim (strip_prefix "outbound:" name) [
  | some rest ↦ some (
      owner_of SourceKind.diagnostic_outbound (outbound_parts server_id t (split_on b'-' rest)) 0
        none)
  | none ↦ elim (first (λ (l : String × ℕ). str_eq l.0 name) t.legacy) [
    | some l ↦ some (
        if l.1 == server_id
        then owner_of SourceKind.legacy_shared_relay 0 0 none
        else owner_of SourceKind.unknown 0 0 (some GapReason.relay_source_mismatch))
    | none ↦ elim (first (λ (g : RelayGeneration). str_eq g.identity_name name) t.generations) [
      | some g ↦ some (generation_owner server_id g.link_id t)
      | none ↦ elim (legacy_relay_inbound_id name) [
        | some inbound_id ↦ some (legacy_owner server_id inbound_id t)
        | none ↦ none
      ]
    ]
  ]
]

-- a machine whose process keeps relays and customers apart
abbrev pub is_separated : TrafficPoll → String → Relays → Bool
is_separated p name t = elim (legacy_relay_inbound_id name) [
  | none ↦ false
  | some _ ↦
      not (str_eq p.epoch "")
      && any (λ (e : ℕ × String). e.0 == p.server_id && str_eq e.1 p.epoch) t.namespace_epochs
]

-- the owner of a user's hop: the user, where the link ends at this machine
unfoldable pub hop_owner : TrafficPoll → RelayUser → Relays → Owner
hop_owner p r t =
    if any (λ (l : RelayLink). l.id == r.link_id && l.target_server_id == p.server_id) t.links
      && ltb 0 r.user_id
    then owner_of SourceKind.relay_user r.link_id r.user_id none
    else owner_of SourceKind.unknown r.link_id 0 (some GapReason.relay_source_mismatch)
