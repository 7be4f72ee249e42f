-- ===== src/Wrappers/EventBookW.antt =====
-- The methods of `EventBookW` of wrappers.go.
use angzarr_client_go.Prelude.{ℕ, String, ◌⧺◌, Option, none, some, Bool, not, List, [], map, str_eq}
use angzarr_client_go.Proto.{Cover}
use angzarr_client_go.Helpers.Uuid.{UuidLib}
use angzarr_client_go.Wrappers.Base.{
  CoverW, EventBookW, EventPageW, domain_of, correlation_id_of, root_of, hex_of, edition_of,
  cover_or_empty, uuid_of, new_event_page_w,
}

-- `cover`.
unfoldable pub cover_of : EventBookW → Option Cover
cover_of w = elim w.event_book [ none ↦ none | some m ↦ m.cover ]

-- `EventBookW.Domain`.
unfoldable pub domain : EventBookW → String
unfolding cover_of
domain w = domain_of (cover_of w)

-- `EventBookW.CorrelationID`.
unfoldable pub correlation_id : EventBookW → String
unfolding cover_of
correlation_id w = correlation_id_of (cover_of w)

-- `EventBookW.HasCorrelationID`.
unfoldable pub has_correlation_id : EventBookW → Bool
unfolding correlation_id
has_correlation_id w = not (str_eq (correlation_id w) "")

-- `EventBookW.RootIDHex`.
unfoldable pub root_id_hex : EventBookW → String
unfolding cover_of
root_id_hex w = hex_of (root_of (cover_of w))

-- `EventBookW.Edition`.
unfoldable pub edition : EventBookW → Option String
unfolding cover_of
edition w = edition_of (cover_of w)

-- `EventBookW.RoutingKey`.
unfoldable pub routing_key : EventBookW → String
unfolding domain
routing_key w = domain w

-- `EventBookW.CacheKey`.
unfoldable pub cache_key : EventBookW → String
unfolding domain root_id_hex
cache_key w = domain w ⧺ ":" ⧺ root_id_hex w

-- `EventBookW.CoverWrapper`.
unfoldable pub cover_wrapper : EventBookW → CoverW
unfolding cover_of
cover_wrapper w = cover_or_empty (cover_of w)

-- `EventBookW.RootUUID`.
unfoldable pub root_uuid : (lib : UuidLib) → EventBookW → UuidLib.Uuid lib × Bool
unfolding cover_of
root_uuid lib w = uuid_of lib (root_of (cover_of w))

-- `EventBookW.NextSequence`.
unfoldable pub next_sequence : EventBookW → ℕ
next_sequence w = elim w.event_book [ none ↦ 0 | some b ↦ b.next_sequence ]

-- `EventBookW.Pages`.
unfoldable pub pages : EventBookW → List EventPageW
pages w = elim w.event_book [ none ↦ [] | some b ↦ map new_event_page_w b.pages ]
