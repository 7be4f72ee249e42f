-- ===== src/Wrappers/CoverW.antt =====
-- The methods of `CoverW` of wrappers.go.
use angzarr_client_go.Prelude.{String, ◌⧺◌, Option, Bool, not, str_eq}
use angzarr_client_go.Helpers.Uuid.{UuidLib}
use angzarr_client_go.Wrappers.Base.{
  CoverW, domain_of, correlation_id_of, root_of, hex_of, edition_of, uuid_of,
}

-- `CoverW.Domain`.
unfoldable pub domain : CoverW → String
domain w = domain_of w.cover

-- `CoverW.CorrelationID`.
unfoldable pub correlation_id : CoverW → String
correlation_id w = correlation_id_of w.cover

-- `CoverW.HasCorrelationID`.
unfoldable pub has_correlation_id : CoverW → Bool
unfolding correlation_id
has_correlation_id w = not (str_eq (correlation_id w) "")

-- `CoverW.RootIDHex`.
unfoldable pub root_id_hex : CoverW → String
root_id_hex w = hex_of (root_of w.cover)

-- `CoverW.Edition`.
unfoldable pub edition : CoverW → Option String
edition w = edition_of w.cover

-- `CoverW.RoutingKey`.
unfoldable pub routing_key : CoverW → String
unfolding domain
routing_key w = domain w

-- `CoverW.CacheKey`.
unfoldable pub cache_key : CoverW → String
unfolding domain root_id_hex
cache_key w = domain w ⧺ ":" ⧺ root_id_hex w

-- `CoverW.RootUUID`.
unfoldable pub root_uuid : (lib : UuidLib) → CoverW → UuidLib.Uuid lib × Bool
root_uuid lib w = uuid_of lib (root_of w.cover)
