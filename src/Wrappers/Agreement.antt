-- ===== src/Wrappers/Agreement.antt =====
-- The methods of wrappers.go and the functions of helpers.go for the same purpose.
use text.Mathlib.TextLemmas.{append-nil}
use angzarr_client_go.Prelude.{String, Option, none, some, ◌≡◌, refl, sym, ap, ◌⧺◌, arith, map}
use angzarr_client_go.Proto.{Bytes, Cover, EventBook, CommandBook, Query, CommandResponse}
use angzarr_client_go.Helpers.Covers
use angzarr_client_go.Helpers.Covers.{CoverBearing}
use angzarr_client_go.Helpers.Books.{
  next_sequence, event_pages, command_pages, events_from_response,
}
use angzarr_client_go.Helpers.Uuid.{UuidLib}
use angzarr_client_go.Wrappers.Base.{
  new_cover_w, new_event_book_w, new_command_book_w, new_query_w, new_event_page_w,
  new_command_page_w, new_command_response_w, root_of, hex_of,
}
use angzarr_client_go.Wrappers.CoverW
use angzarr_client_go.Wrappers.EventBookW
use angzarr_client_go.Wrappers.CommandBookW
use angzarr_client_go.Wrappers.CommandBookW.{cache_key_of}
use angzarr_client_go.Wrappers.QueryW
use angzarr_client_go.Wrappers.Pages

-- Each method of `CoverW` gives what the helper function gives on the cover.
pub CoverW-agrees :
    (lib : UuidLib) (c : Option Cover)
    → (CoverW.domain (new_cover_w c) ≡ Covers.domain (CoverBearing.cover c))
      × (CoverW.correlation_id (new_cover_w c) ≡ Covers.correlation_id (CoverBearing.cover c))
      × (CoverW.has_correlation_id (new_cover_w c)
          ≡ Covers.has_correlation_id (CoverBearing.cover c))
      × (CoverW.routing_key (new_cover_w c) ≡ Covers.routing_key (CoverBearing.cover c))
      × (CoverW.root_id_hex (new_cover_w c) ≡ Covers.root_id_hex (CoverBearing.cover c))
      × (CoverW.edition (new_cover_w c) ≡ Covers.edition (CoverBearing.cover c))
      × (CoverW.cache_key (new_cover_w c) ≡ Covers.cache_key (CoverBearing.cover c))
      × (CoverW.root_uuid lib (new_cover_w c) ≡ Covers.root_uuid lib (CoverBearing.cover c))
unfolding CoverW.domain CoverW.correlation_id CoverW.has_correlation_id CoverW.root_id_hex
    CoverW.routing_key Covers.routing_key CoverW.edition CoverW.cache_key CoverW.root_uuid
    Covers.domain Covers.correlation_id Covers.has_correlation_id Covers.root_id_hex Covers.edition
    Covers.cache_key Covers.root_uuid
CoverW-agrees lib none = (refl, refl, refl, refl, refl, refl, refl, refl)
CoverW-agrees lib (some c) = ground arith

-- The methods of `EventBookW` and the helper functions on the wrapped book.
abbrev pub IsEventBookWAgreement : UuidLib → Option EventBook → Type 0
IsEventBookWAgreement lib b =
    (EventBookW.domain (new_event_book_w b) ≡ Covers.domain (CoverBearing.event_book b))
    × (EventBookW.correlation_id (new_event_book_w b)
        ≡ Covers.correlation_id (CoverBearing.event_book b))
    × (EventBookW.has_correlation_id (new_event_book_w b)
        ≡ Covers.has_correlation_id (CoverBearing.event_book b))
    × (EventBookW.routing_key (new_event_book_w b) ≡ Covers.routing_key (CoverBearing.event_book b))
    × (EventBookW.root_id_hex (new_event_book_w b) ≡ Covers.root_id_hex (CoverBearing.event_book b))
    × (EventBookW.edition (new_event_book_w b) ≡ Covers.edition (CoverBearing.event_book b))
    × (EventBookW.cache_key (new_event_book_w b) ≡ Covers.cache_key (CoverBearing.event_book b))
    × (EventBookW.root_uuid lib (new_event_book_w b)
        ≡ Covers.root_uuid lib (CoverBearing.event_book b))
    × (EventBookW.next_sequence (new_event_book_w b) ≡ next_sequence b)
    × (EventBookW.pages (new_event_book_w b) ≡ map new_event_page_w (event_pages b))
    × (CoverW.domain (EventBookW.cover_wrapper (new_event_book_w b))
        ≡ EventBookW.domain (new_event_book_w b))

-- Each method of `EventBookW` gives what the helper function gives on the book; the wrapped pages
-- are the book's, and `CoverWrapper` keeps the domain.
pub EventBookW-agrees : (lib : UuidLib) (b : Option EventBook) → IsEventBookWAgreement lib b
unfolding CoverW.domain EventBookW.domain EventBookW.correlation_id EventBookW.root_id_hex
    EventBookW.has_correlation_id EventBookW.routing_key Covers.has_correlation_id
    Covers.routing_key EventBookW.edition EventBookW.cache_key EventBookW.root_uuid
    EventBookW.next_sequence EventBookW.pages EventBookW.cover_wrapper Covers.domain
    Covers.correlation_id Covers.root_id_hex Covers.edition Covers.cache_key Covers.root_uuid
EventBookW-agrees lib none = (refl, refl, refl, refl, refl, refl, refl, refl, refl, refl, refl)
EventBookW-agrees lib (some b) = ground arith

cache_key_of-hex_of : (d : String) (o : Option Bytes) → cache_key_of d o ≡ d ⧺ ":" ⧺ hex_of o
cache_key_of-hex_of d none = ap (λ s. d ⧺ s) (sym (append-nil ":"))
cache_key_of-hex_of d (some b) = refl

command_cache_key :
    (b : Option CommandBook)
    → CommandBookW.cache_key (new_command_book_w b) ≡ Covers.cache_key (CoverBearing.command_book b)
unfolding CommandBookW.cache_key Covers.cache_key
command_cache_key none = ap (λ s. "unknown" ⧺ s) (sym (append-nil ":"))
command_cache_key (some b) =
    cache_key_of-hex_of (CommandBookW.domain (new_command_book_w (some b))) (root_of b.cover)

-- The methods of `CommandBookW` and the helper functions on the wrapped book.
abbrev pub IsCommandBookWAgreement : UuidLib → Option CommandBook → Type 0
IsCommandBookWAgreement lib b =
    (CommandBookW.domain (new_command_book_w b) ≡ Covers.domain (CoverBearing.command_book b))
    × (CommandBookW.correlation_id (new_command_book_w b)
        ≡ Covers.correlation_id (CoverBearing.command_book b))
    × (CommandBookW.has_correlation_id (new_command_book_w b)
        ≡ Covers.has_correlation_id (CoverBearing.command_book b))
    × (CommandBookW.routing_key (new_command_book_w b)
        ≡ Covers.routing_key (CoverBearing.command_book b))
    × (CommandBookW.cache_key (new_command_book_w b)
        ≡ Covers.cache_key (CoverBearing.command_book b))
    × (CommandBookW.root_uuid lib (new_command_book_w b)
        ≡ Covers.root_uuid lib (CoverBearing.command_book b))
    × (CommandBookW.pages (new_command_book_w b) ≡ map new_command_page_w (command_pages b))
    × (CommandBookW.cover_wrapper (new_command_book_w b)
        ≡ new_cover_w (
            some (elim (Covers.cover_of (CoverBearing.command_book b)) [
              | none ↦ record { domain = ""; root = none; correlation_id = ""; edition = none }
              | some c ↦ c
            ])))
    × (CoverW.domain (CommandBookW.cover_wrapper (new_command_book_w b))
        ≡ CommandBookW.domain (new_command_book_w b))

-- Each method of `CommandBookW` that has a helper function gives what that gives on the book: the
-- domain, the correlation id and whether there is one, the routing key, the cache key, which is
-- written another way, and the root's UUID. `Pages` wraps the book's pages, and `CoverWrapper` wraps
-- the book's cover, or an empty one, and keeps the domain.
pub CommandBookW-agrees : (lib : UuidLib) (b : Option CommandBook) → IsCommandBookWAgreement lib b
unfolding CoverW.domain CommandBookW.domain CommandBookW.correlation_id
    CommandBookW.has_correlation_id CommandBookW.routing_key CommandBookW.root_uuid
    CommandBookW.pages CommandBookW.cover_wrapper Covers.domain Covers.correlation_id
    Covers.has_correlation_id Covers.routing_key Covers.root_uuid Covers.cover_of
CommandBookW-agrees lib none =
    (refl, refl, refl, refl, command_cache_key none, refl, refl, refl, refl)
CommandBookW-agrees lib (some b) = ground (arith, command_cache_key (some b))

-- Each method of `QueryW` gives what the helper function gives on the query; `CoverWrapper` keeps the
-- domain.
pub QueryW-agrees :
    (lib : UuidLib) (q : Option Query)
    → (QueryW.domain (new_query_w q) ≡ Covers.domain (CoverBearing.query q))
      × (QueryW.correlation_id (new_query_w q) ≡ Covers.correlation_id (CoverBearing.query q))
      × (QueryW.has_correlation_id (new_query_w q)
          ≡ Covers.has_correlation_id (CoverBearing.query q))
      × (QueryW.routing_key (new_query_w q) ≡ Covers.routing_key (CoverBearing.query q))
      × (QueryW.root_uuid lib (new_query_w q) ≡ Covers.root_uuid lib (CoverBearing.query q))
      × (CoverW.domain (QueryW.cover_wrapper (new_query_w q)) ≡ QueryW.domain (new_query_w q))
unfolding CoverW.domain QueryW.domain QueryW.correlation_id QueryW.has_correlation_id
    QueryW.routing_key Covers.has_correlation_id Covers.routing_key QueryW.root_uuid
    QueryW.cover_wrapper Covers.domain Covers.correlation_id Covers.root_uuid
QueryW-agrees lib none = (refl, refl, refl, refl, refl, refl)
QueryW-agrees lib (some q) = ground arith

-- `CommandResponseW.Events` wraps the pages that `EventsFromResponse` gives.
response-agrees :
    (r : Option CommandResponse)
    → Pages.events (new_command_response_w r) ≡ map new_event_page_w (events_from_response r)
unfolding Pages.events
response-agrees none = refl
response-agrees (some r) = ground arith
