-- ===== src/Saga.antt =====
-- saga_oo.go: `SagaBase`. Handlers may queue facts by `EmitFact` while they run, so they take the
-- queued facts and return them anew.
pub mod Facts
use angzarr_client_go.Prelude.{String, Option, none, some, List, [], ◌∷◌, ◌++◌, map, GoMap, insert}
use angzarr_client_go.Proto.{Any, EventPage, EventBook, CommandBook}
use angzarr_client_go.Errors.{Result, ok, err}
use angzarr_client_go.Helpers.TypeUrl.{match_type}
use angzarr_client_go.Router.Command.{wrap_error}

-- `SagaHandlerResponse` of traits.go.
pub record SagaHandlerResponse : Type 0 where
  pub commands : List CommandBook
  pub events : List EventBook

abbrev pub empty_response : SagaHandlerResponse
empty_response = record { commands = []; events = [] }

-- `handlerOOFunc`, on the event, the destinations and the facts queued so far.
abbrev pub SagaHandler : Type 0
SagaHandler = Any → List EventBook → List EventBook → List EventBook × Result (List CommandBook)

pub record SagaBase : Type 0 where
  pub name : String
  pub input_domain : String
  pub output_domain : String
  pub handlers : GoMap SagaHandler

-- `Init`.
abbrev pub init : (name input_domain output_domain : String) → SagaBase
init name input_domain output_domain = record {
  name = name;
  input_domain = input_domain;
  output_domain = output_domain;
  handlers = [];
}

-- The wrapper that `Handles` makes: a nil command book becomes no command.
abbrev at_most_one :
    List EventBook × Result (Option CommandBook) → List EventBook × Result (List CommandBook)
at_most_one (facts, err e) = (facts, err e)
at_most_one (facts, ok none) = (facts, ok [])
at_most_one (facts, ok (some book)) = (facts, ok (book ∷ []))

abbrev with_decoded :
    {E R : Type 0}
    → Result E
    → List EventBook
    → (E → List EventBook × Result R)
    → List EventBook × Result R
with_decoded (err e) facts k = (facts, err e)
with_decoded (ok event) facts k = k event

-- `Handles`; reflection gives the event type's full name and decoder.
abbrev pub handles :
    {E : Type 0}
    → SagaBase
    → String
    → (Any → Result E)
    → (E → List EventBook → List EventBook → List EventBook × Result (Option CommandBook))
    → SagaBase
handles s full_name unmarshal_to handler = record s {
  handlers =
      insert full_name
        (λ event dests facts. at_most_one (
          with_decoded (wrap_error "failed to unmarshal event: " (unmarshal_to event)) facts
            (λ e. handler e dests facts)))
        s.handlers;
}

-- `HandlesMulti`.
abbrev pub handles_multi :
    {E : Type 0}
    → SagaBase
    → String
    → (Any → Result E)
    → (E → List EventBook → List EventBook → List EventBook × Result (List CommandBook))
    → SagaBase
handles_multi s full_name unmarshal_to handler = record s {
  handlers =
      insert full_name
        (λ event dests facts.
          with_decoded (wrap_error "failed to unmarshal event: " (unmarshal_to event)) facts
            (λ e. handler e dests facts))
        s.handlers;
}

-- `EmitFact`.
abbrev emit_fact : List EventBook → EventBook → List EventBook
emit_fact facts event = facts ++ event ∷ []

-- `HandlerTypes`, in the order of the range.
abbrev pub handler_types : SagaBase → List String
handler_types s = map (λ e. e.0) s.handlers

abbrev call_matched :
    Any → List EventBook → Option SagaHandler → List EventBook × Result (List CommandBook)
call_matched event facts none = (facts, ok [])
call_matched event facts (some handler) = handler event [] facts

-- One round of the loop of `Handle`.
abbrev page_commands :
    SagaBase → List EventBook → Option Any → List EventBook × Result (List CommandBook)
page_commands s facts none = (facts, ok [])
page_commands s facts (some event) = call_matched event facts (match_type event.type_url s.handlers)

abbrev continue :
    List EventBook × Result (List CommandBook)
    → (List EventBook → List CommandBook → List EventBook × Result (List CommandBook))
    → List EventBook × Result (List CommandBook)
continue (facts, err e) k = (facts, err e)
continue (facts, ok cmds) k = k facts cmds

-- The loop of `Handle`, with the commands so far.
handle_pages :
    SagaBase
    → List EventBook
    → List CommandBook
    → List EventPage
    → List EventBook × Result (List CommandBook)
handle_pages s facts commands [] = (facts, ok commands)
handle_pages s facts commands (page ∷ pages) =
    continue (page_commands s facts page.event)
      (λ facts' cmds. handle_pages s facts' (commands ++ cmds) pages)

abbrev pub response :
    List EventBook × Result (List CommandBook) → List EventBook × Result SagaHandlerResponse
response (facts, err e) = (facts, err e)
response (facts, ok commands) = (facts, ok (record { commands = commands; events = facts }))

abbrev handle_book :
    SagaBase → List EventBook → List EventPage → List EventBook × Result SagaHandlerResponse
handle_book s facts [] = (facts, ok empty_response)
handle_book s facts (page ∷ pages) = response (handle_pages s [] [] (page ∷ pages))

-- `Handle`, on the facts that are queued before and to those that are queued after; `ClearEvents`
-- empties the queue.
pub handle :
    SagaBase → List EventBook → Option EventBook → List EventBook × Result SagaHandlerResponse
unfolding handle_pages
handle s facts none = (facts, ok empty_response)
handle s facts (some source) = handle_book s facts source.pages
