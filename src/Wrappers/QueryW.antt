-- ===== src/Wrappers/QueryW.antt =====
-- The methods of `QueryW` of wrappers.go.
use angzarr_client_go.Prelude.{String, Option, none, some, Bool, not, str_eq}
use angzarr_client_go.Proto.{Cover}
use angzarr_client_go.Helpers.Uuid.{UuidLib}
use angzarr_client_go.Wrappers.Base.{
  CoverW, QueryW, domain_of, correlation_id_of, root_of, cover_or_empty, uuid_of,
}

-- `cover`.
unfoldable pub cover_of : QueryW → Option Cover
cover_of w = elim w.query [ none ↦ none | some m ↦ m.cover ]

-- `QueryW.Domain`.
unfoldable pub domain : QueryW → String
unfolding cover_of
domain w = domain_of (cover_of w)

-- `QueryW.CorrelationID`.
unfoldable pub correlation_id : QueryW → String
unfolding cover_of
correlation_id w = correlation_id_of (cover_of w)

-- `QueryW.HasCorrelationID`.
unfoldable pub has_correlation_id : QueryW → Bool
unfolding correlation_id
has_correlation_id w = not (str_eq (correlation_id w) "")

-- `QueryW.RoutingKey`.
unfoldable pub routing_key : QueryW → String
unfolding domain
routing_key w = domain w

-- `QueryW.CoverWrapper`.
unfoldable pub cover_wrapper : QueryW → CoverW
unfolding cover_of
cover_wrapper w = cover_or_empty (cover_of w)

-- `QueryW.RootUUID`.
unfoldable pub root_uuid : (lib : UuidLib) → QueryW → UuidLib.Uuid lib × Bool
unfolding cover_of
root_uuid lib w = uuid_of lib (root_of (cover_of w))
