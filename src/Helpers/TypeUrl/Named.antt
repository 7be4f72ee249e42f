-- ===== src/Helpers/TypeUrl/Named.antt =====
-- Histories by the names of their events: what the routers' loops over pages are described with.
use angzarr_client_go.Prelude.{String, ◌⧺◌, Option, none, some, List, [], ◌∷◌, ◌≡◌}
use angzarr_client_go.Proto.{Bytes, Any, EventPage}
use angzarr_client_go.Helpers.TypeUrl.{type_url_prefix}

-- An event by its full type name and its bytes, or a page without an event.
abbrev pub Named : Type 0
Named = Option (String × Bytes)

abbrev pub any_named : String → Bytes → Any
any_named name value = record { type_url = type_url_prefix ⧺ name; value = value }

abbrev pub event_of : Named → Option Any
event_of none = none
event_of (some (name, value)) = some (any_named name value)

-- The pages hold these events, in this order, with the type URLs that `anypb.New` gives.
pub data Holds : List EventPage → List Named → Type 0 where
  nothing : Holds [] []
  onward :
      {page : EventPage} {pages : List EventPage} {x : Named} {xs : List Named}
      → page.event ≡ event_of x
      → Holds pages xs
      → Holds (page ∷ pages) (x ∷ xs)
