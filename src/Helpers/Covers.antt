-- ===== src/Helpers/Covers.antt =====
-- The accessors of helpers.go for any value that bears a cover.
pub mod Keys
use angzarr_client_go.Prelude.{
  String, ◌⧺◌, Option, none, some, Bool, true, false, not, str_eq, if◌then◌else◌,
}
use angzarr_client_go.Proto.{Bytes, Cover, ProtoUuid, ProtoEdition, EventBook, CommandBook, Query}
use angzarr_client_go.Errors.{Result, ok, err}
use angzarr_client_go.Helpers.Hex.{hex_encode}
use angzarr_client_go.Helpers.Uuid.{UuidLib, uuid_to_proto, bytes_to_uuid_text}

-- `UnknownDomain` and `DefaultEdition`.
abbrev pub unknown_domain : String
unknown_domain = "unknown"

-- What the type switch of `CoverOf` tells apart. Each case holds a pointer, which may be nil.
pub data CoverBearing : Type 0 where
  event_book : Option EventBook → CoverBearing
  command_book : Option CommandBook → CoverBearing
  query : Option Query → CoverBearing
  cover : Option Cover → CoverBearing
  other : CoverBearing

-- `CoverOf`. The getters return nil on a nil receiver.
unfoldable pub cover_of : CoverBearing → Option Cover
cover_of (event_book none) = none
cover_of (event_book (some b)) = b.cover
cover_of (command_book none) = none
cover_of (command_book (some b)) = b.cover
cover_of (query none) = none
cover_of (query (some q)) = q.cover
cover_of (cover c) = c
cover_of other = none

-- `Domain`.
abbrev domain_or_unknown : Option Cover → String
domain_or_unknown none = unknown_domain
domain_or_unknown (some c) = if str_eq c.domain "" then unknown_domain else c.domain

unfoldable pub domain : CoverBearing → String
unfolding cover_of
domain v = domain_or_unknown (cover_of v)

-- `CorrelationID`.
abbrev correlation_id_or_empty : Option Cover → String
correlation_id_or_empty none = ""
correlation_id_or_empty (some c) = c.correlation_id

unfoldable pub correlation_id : CoverBearing → String
unfolding cover_of
correlation_id v = correlation_id_or_empty (cover_of v)

-- `HasCorrelationID`.
unfoldable pub has_correlation_id : CoverBearing → Bool
unfolding correlation_id
has_correlation_id v = not (str_eq (correlation_id v) "")

-- `c == nil || c.Root == nil`, and else the root's bytes.
abbrev pub root_bytes : Option Cover → Option Bytes
root_bytes none = none
root_bytes (some c) = elim c.root [ none ↦ none | some u ↦ some u.value ]

-- `RootIDHex`.
abbrev hex_or_empty : Option Bytes → String
hex_or_empty none = ""
hex_or_empty (some b) = hex_encode b

unfoldable pub root_id_hex : CoverBearing → String
unfolding cover_of
root_id_hex v = hex_or_empty (root_bytes (cover_of v))

-- `Edition`.
abbrev edition_name : Option ProtoEdition → Option String
edition_name none = none
edition_name (some e) = if str_eq e.name "" then none else some e.name

abbrev edition_of_cover : Option Cover → Option String
edition_of_cover none = none
edition_of_cover (some c) = edition_name c.edition

unfoldable pub edition : CoverBearing → Option String
unfolding cover_of
edition v = edition_of_cover (cover_of v)

-- `RoutingKey`.
unfoldable pub routing_key : CoverBearing → String
unfolding domain
routing_key v = domain v

-- `CacheKey`.
unfoldable pub cache_key : CoverBearing → String
unfolding domain root_id_hex
cache_key v = domain v ⧺ ":" ⧺ root_id_hex v

module _ (lib : UuidLib) where
  open lib use {Uuid, zero_uuid, from_bytes}

  -- `RootUUID`.
  abbrev uuid_if_ok : Result Uuid → Uuid × Bool
  uuid_if_ok (ok u) = (u, true)
  uuid_if_ok (err e) = (zero_uuid, false)

  abbrev uuid_of_bytes : Option Bytes → Uuid × Bool
  uuid_of_bytes none = (zero_uuid, false)
  uuid_of_bytes (some b) = uuid_if_ok (from_bytes b)

  unfoldable pub root_uuid : CoverBearing → Uuid × Bool
  unfolding cover_of
  root_uuid v = uuid_of_bytes (root_bytes (cover_of v))

  -- `RootIDText`.
  abbrev text_of_bytes : Option Bytes → String
  text_of_bytes none = ""
  text_of_bytes (some b) = bytes_to_uuid_text lib b

  unfoldable root_id_text : CoverBearing → String
  unfolding cover_of
  root_id_text v = text_of_bytes (root_bytes (cover_of v))

  -- `NewCover`.
  abbrev pub new_cover : String → Uuid → String → Cover
  new_cover domain root correlation_id = record {
    domain = domain;
    root = some (uuid_to_proto lib root);
    correlation_id = correlation_id;
    edition = none;
  }

  -- `NewCoverWithEdition`.
  abbrev new_cover_with_edition : String → Uuid → String → Option ProtoEdition → Cover
  new_cover_with_edition domain root correlation_id edition = record {
    domain = domain;
    root = some (uuid_to_proto lib root);
    correlation_id = correlation_id;
    edition = edition;
  }
