-- ===== src/Wrappers/CommandBookW.antt =====
-- The methods of `CommandBookW` of wrappers.go.
use angzarr_client_go.Prelude.{String, ◌⧺◌, Option, none, some, Bool, not, List, [], map, str_eq}
use angzarr_client_go.Proto.{Bytes, Cover}
use angzarr_client_go.Helpers.Hex.{hex_encode}
use angzarr_client_go.Helpers.Uuid.{UuidLib}
use angzarr_client_go.Wrappers.Base.{
  CoverW, CommandBookW, CommandPageW, domain_of, correlation_id_of, root_of, cover_or_empty,
  uuid_of, new_command_page_w,
}

-- `cover`.
unfoldable pub cover_of : CommandBookW → Option Cover
cover_of w = elim w.command_book [ none ↦ none | some m ↦ m.cover ]

-- `CommandBookW.Domain`.
unfoldable pub domain : CommandBookW → String
unfolding cover_of
domain w = domain_of (cover_of w)

-- `CommandBookW.CorrelationID`.
unfoldable pub correlation_id : CommandBookW → String
unfolding cover_of
correlation_id w = correlation_id_of (cover_of w)

-- `CommandBookW.HasCorrelationID`.
unfoldable pub has_correlation_id : CommandBookW → Bool
unfolding correlation_id
has_correlation_id w = not (str_eq (correlation_id w) "")

-- `CommandBookW.RoutingKey`.
unfoldable pub routing_key : CommandBookW → String
unfolding domain
routing_key w = domain w

abbrev pub cache_key_of : String → Option Bytes → String
cache_key_of domain none = domain ⧺ ":"
cache_key_of domain (some b) = domain ⧺ ":" ⧺ hex_encode b

-- `CommandBookW.CacheKey`.
unfoldable pub cache_key : CommandBookW → String
unfolding domain cover_of
cache_key w = cache_key_of (domain w) (root_of (cover_of w))

-- `CommandBookW.CoverWrapper`.
unfoldable pub cover_wrapper : CommandBookW → CoverW
unfolding cover_of
cover_wrapper w = cover_or_empty (cover_of w)

-- `CommandBookW.RootUUID`.
unfoldable pub root_uuid : (lib : UuidLib) → CommandBookW → UuidLib.Uuid lib × Bool
unfolding cover_of
root_uuid lib w = uuid_of lib (root_of (cover_of w))

-- `CommandBookW.Pages`.
unfoldable pub pages : CommandBookW → List CommandPageW
pages w = elim w.command_book [ none ↦ [] | some b ↦ map new_command_page_w b.pages ]
