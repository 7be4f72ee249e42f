-- ===== src/Upcaster.antt =====
-- upcaster.go: old event versions are transformed to current ones.
pub mod Laws
use angzarr_client_go.Prelude.{String, Option, none, some, List, [], ◌∷◌, ◌++◌}
use angzarr_client_go.Proto.{Any, EventPage}
use angzarr_client_go.Helpers.TypeUrl.{Registrations, match_type}

-- `UpcasterHandler`: the result is a pointer, which may be nil.
abbrev pub UpcasterHandler : Type 0
UpcasterHandler = Any → Option Any

pub record UpcasterRouter : Type 0 where
  pub domain : String
  pub handlers : Registrations UpcasterHandler

-- `NewUpcasterRouter`.
abbrev pub new_upcaster_router : String → UpcasterRouter
new_upcaster_router domain = record { domain = domain; handlers = [] }

-- `On`.
abbrev pub on : UpcasterRouter → String → UpcasterHandler → UpcasterRouter
on r full_name handler = record r { handlers = r.handlers ++ (full_name, handler) ∷ [] }

-- What one round of the loop of `Upcast` appends to the result.
abbrev upcast_event : EventPage → Any → Option UpcasterHandler → EventPage
upcast_event page event none = page
upcast_event page event (some handler) = record page { event = handler event }

abbrev upcast_payload : UpcasterRouter → EventPage → Option Any → EventPage
upcast_payload r page none = page
upcast_payload r page (some event) = upcast_event page event (match_type event.type_url r.handlers)

abbrev pub upcast_page : UpcasterRouter → EventPage → EventPage
upcast_page r page = upcast_payload r page page.event

-- The loop of `Upcast`, with the result so far.
upcast_loop : UpcasterRouter → List EventPage → List EventPage → List EventPage
upcast_loop r result [] = result
upcast_loop r result (page ∷ pages) = upcast_loop r (result ++ upcast_page r page ∷ []) pages

-- `Upcast`.
unfoldable pub upcast : UpcasterRouter → List EventPage → List EventPage
unfolding upcast_loop
upcast r events = upcast_loop r [] events
