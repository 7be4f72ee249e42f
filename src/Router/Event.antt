-- ===== src/Router/Event.antt =====
-- `EventRouter` of router.go.
pub mod Dispatch
use angzarr_client_go.Prelude.{
  ℕ, String, Option, none, some, Bool, List, [], ◌∷◌, ◌++◌, str_eq, if◌then◌else◌, map, GoMap,
  lookup, insert, is_empty,
}
use angzarr_client_go.Proto.{Any, Cover, EventPage, EventBook, CommandBook}
use angzarr_client_go.Errors.{Result, ok, err, ◌>>=◌}
use angzarr_client_go.Helpers.TypeUrl.{Registrations, match_type}
use angzarr_client_go.Destinations.{Destinations, new_destinations}

-- `EventHandler`.
abbrev pub EventHandler : Type 0
EventHandler = EventBook → Any → Destinations → Result (List CommandBook)

pub record EventRouter : Type 0 where
  pub name : String
  pub current_domain : String
  pub handlers : GoMap (Registrations EventHandler)

abbrev registered_for : Option (Registrations EventHandler) → Registrations EventHandler
registered_for none = []
registered_for (some regs) = regs

abbrev with_domain : EventRouter → String → Option (Registrations EventHandler) → EventRouter
with_domain r domain none = record r {
  current_domain = domain;
  handlers = insert domain [] r.handlers;
}
with_domain r domain (some regs) = record r { current_domain = domain }

-- `Domain`.
unfoldable pub domain : EventRouter → String → EventRouter
domain r name = with_domain r name (lookup name r.handlers)

abbrev with_input_domain : EventRouter → List String → EventRouter
with_input_domain r [] = r
with_input_domain r (name ∷ names) = if str_eq name "" then r else domain r name

-- `NewEventRouter`.
unfoldable pub new_event_router : String → List String → EventRouter
unfolding domain
new_event_router name input_domain =
    with_input_domain (record { name = name; current_domain = ""; handlers = [] }) input_domain

-- `On`, and `OnEvent` with the name that reflection finds; `none` is the panic.
unfoldable pub on : EventRouter → String → EventHandler → Option EventRouter
on r full_name handler =
    if str_eq r.current_domain ""
    then none
    else some (record r {
      handlers =
          insert r.current_domain
            (registered_for (lookup r.current_domain r.handlers) ++ (full_name, handler) ∷ [])
            r.handlers;
    })

-- `Subscriptions`, in the order of the range over the handlers.
subscriptions_of : GoMap (Registrations EventHandler) → GoMap (List String)
subscriptions_of [] = []
subscriptions_of ((domain, regs) ∷ m) =
    let rest = subscriptions_of m in
    if is_empty regs then rest else (domain, map (λ e. e.0) regs) ∷ rest

pub subscriptions : EventRouter → GoMap (List String)
unfolding subscriptions_of
subscriptions r = subscriptions_of r.handlers

abbrev pub call_matched :
    EventBook → Destinations → Any → Option EventHandler → Result (List CommandBook)
call_matched source destinations event none = ok []
call_matched source destinations event (some handler) = handler source event destinations

-- One round of the loop of `Dispatch`: the commands that it appends.
abbrev page_commands :
    Registrations EventHandler → EventBook → Destinations → Option Any → Result (List CommandBook)
page_commands regs source destinations none = ok []
page_commands regs source destinations (some event) =
    call_matched source destinations event (match_type event.type_url regs)

-- The loop of `Dispatch`, with the commands so far.
dispatch_pages :
    Registrations EventHandler
    → EventBook
    → Destinations
    → List CommandBook
    → List EventPage
    → Result (List CommandBook)
dispatch_pages regs source destinations commands [] = ok commands
dispatch_pages regs source destinations commands (page ∷ pages) =
    page_commands regs source destinations page.event >>= λ cmds.
    dispatch_pages regs source destinations (commands ++ cmds) pages

abbrev source_domain : Option Cover → String
source_domain none = ""
source_domain (some cover) = cover.domain

abbrev dispatch_for :
    Option (Registrations EventHandler) → EventBook → Destinations → Result (List CommandBook)
dispatch_for none source destinations = ok []
dispatch_for (some regs) source destinations =
    dispatch_pages regs source destinations [] source.pages

-- `Dispatch`.
unfoldable pub dispatch :
    EventRouter → Option EventBook → Option (GoMap ℕ) → Result (List CommandBook)
unfolding dispatch_pages
dispatch r none destination_sequences = ok []
dispatch r (some source) destination_sequences =
    dispatch_for (lookup (source_domain source.cover) r.handlers) source
      (new_destinations destination_sequences)
