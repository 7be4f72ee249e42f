-- ===== src/ProcessManager.antt =====
-- pm_oo.go: `ProcessManagerBase`. Event handlers and rejection handlers read the state, appliers
-- change it. The maps list their entries in the order in which a range meets them.
pub mod Trigger
pub mod Rebuilt
pub mod Answers
use angzarr_client_go.Prelude.{
  ℕ, String, Option, none, some, List, [], ◌∷◌, ◌++◌, map, str_eq, if◌then◌else◌, or_else, GoMap,
  lookup, insert, ◌⧺◌,
}
use angzarr_client_go.Proto.{
  Any, EventPage, EventBook, CommandBook, Notification, RejectionNotification, empty_event_book,
}
use angzarr_client_go.Errors.{Result, ok, err, ◌>>=◌}
use angzarr_client_go.Codec.{Codec}
use angzarr_client_go.Helpers.TypeUrl.{match_type, is_notification}
use angzarr_client_go.Compensation.{RejectionHandlerResponse, extract_rejection_key, rejection_key}
use angzarr_client_go.Destinations.{Destinations}
use angzarr_client_go.Router.Command.{wrap_error, empty_rejection}
use angzarr_client_go.Router.State.{apply_decoded}

-- What a handler gives: commands and, perhaps, events of the process manager's own.
abbrev pub Handled : Type 0
Handled = List CommandBook × Option EventBook

-- `pmHandlerOOFunc`.
abbrev pub PmHandler : Type 0 → Type 0
PmHandler S = EventBook → S → Any → Option Destinations → Result Handled

pub record ProcessManager (S : Type 0) : Type 0 where
  pub name : String
  pub pm_domain : String
  pub input_domains : List String
  pub state_factory : Option S
  pub handlers : GoMap (PmHandler S)
  pub appliers : GoMap (S → Any → S)
  pub rejections : GoMap (S → Notification → Option RejectionHandlerResponse)

-- The results of `Handle`, and what its loop has gathered so far.
pub record Response : Type 0 where
  pub commands : List CommandBook
  pub process_pages : List EventPage
  pub notification : Option Notification

abbrev pub empty_response : Response
empty_response = record { commands = []; process_pages = []; notification = none }

abbrev pub pages_of : Option EventBook → List EventPage
pages_of none = []
pages_of (some book) = book.pages

-- What a handler gives, as a response.
abbrev handled_response : Handled → Response
handled_response (cmds, pm_events) = record {
  commands = cmds;
  process_pages = pages_of pm_events;
  notification = none;
}

abbrev rejection_response : Option RejectionHandlerResponse → Response
rejection_response none = empty_response
rejection_response (some resp) = record {
  commands = [];
  process_pages = pages_of resp.events;
  notification = resp.notification;
}

-- The appends of one round of the loop: commands and pages go to the end, and a notification
-- replaces an earlier one.
abbrev pub gather : Response → Response → Response
gather done resp = record {
  commands = done.commands ++ resp.commands;
  process_pages = done.process_pages ++ resp.process_pages;
  notification = or_else resp.notification done.notification;
}

abbrev rejection_of : Codec → Option Any → Result RejectionNotification
rejection_of codec none = ok empty_rejection
rejection_of codec (some payload) = codec.unmarshal_rejection payload.value

abbrev respond_handled : Result Handled → Result Response
respond_handled (err e) = err e
respond_handled (ok handled) = ok (handled_response handled)

module _ {S : Type 0} where
  -- `Init`.
  abbrev pub init : (name pm_domain : String) (input_domains : List String) → ProcessManager S
  init name pm_domain input_domains = record {
    name = name;
    pm_domain = pm_domain;
    input_domains = input_domains;
    state_factory = none;
    handlers = [];
    appliers = [];
    rejections = [];
  }

  -- `WithStateFactory`.
  abbrev with_state_factory : ProcessManager S → S → ProcessManager S
  with_state_factory pm factory = record pm { state_factory = some factory }

  -- `Handles`; reflection gives the event type's full name and decoder.
  abbrev pub handles :
      {E : Type 0}
      → ProcessManager S
      → String
      → (Any → Result E)
      → (EventBook → S → E → Option Destinations → Result Handled)
      → ProcessManager S
  handles pm full_name unmarshal_to handler = record pm {
    handlers =
        insert full_name
          (λ trigger state event dests.
            wrap_error "failed to unmarshal event: " (unmarshal_to event) >>= λ e.
            handler trigger state e dests)
          pm.handlers;
  }

  -- `Applies`.
  abbrev pub applies :
      {E : Type 0} → ProcessManager S → String → (Any → Result E) → (S → E → S) → ProcessManager S
  applies pm full_name unmarshal_to applier = record pm {
    appliers =
        insert full_name (λ state event. apply_decoded applier state (unmarshal_to event))
          pm.appliers;
  }

  -- `OnRejected`.
  abbrev pub on_rejected :
      ProcessManager S
      → (domain command : String) → (S → Notification → Option RejectionHandlerResponse)
      → ProcessManager S
  on_rejected pm domain command handler = record pm {
    rejections = insert (rejection_key domain command) handler pm.rejections;
  }

  -- `HandlerTypes`, in the order of the range.
  abbrev pub handler_types : ProcessManager S → List String
  handler_types pm = map (λ e. e.0) pm.handlers

  abbrev apply_matched : S → Any → Option (S → Any → S) → S
  apply_matched state event none = state
  apply_matched state event (some applier) = applier state event

  abbrev apply_payload : ProcessManager S → S → Option Any → S
  apply_payload pm state none = state
  apply_payload pm state (some event) =
      apply_matched state event (match_type event.type_url pm.appliers)

  -- The loop of `RebuildState`.
  pub apply_pages : ProcessManager S → S → List EventPage → S
  apply_pages pm state [] = state
  apply_pages pm state (page ∷ pages) = apply_pages pm (apply_payload pm state page.event) pages

  -- The state that `RebuildState` starts from; `zero` is the zero value of the state type.
  abbrev pub initial : (zero : S) → ProcessManager S → S
  initial zero pm = elim pm.state_factory [ none ↦ zero | some state ↦ state ]

  -- `RebuildState`.
  unfoldable pub rebuild_state : (zero : S) → ProcessManager S → Option EventBook → S
  unfolding apply_pages
  rebuild_state zero pm none = initial zero pm
  rebuild_state zero pm (some process_state) = apply_pages pm (initial zero pm) process_state.pages

  abbrev respond :
      S
      → Notification
      → Option (S → Notification → Option RejectionHandlerResponse)
      → Option RejectionHandlerResponse
  respond state notification none = none
  respond state notification (some handler) = handler state notification

  abbrev respond_to :
      ProcessManager S
      → S
      → Notification
      → Result RejectionNotification
      → Option RejectionHandlerResponse
  respond_to pm state notification (err e) = none
  respond_to pm state notification (ok rejection) =
      let key =
        rejection_key (extract_rejection_key rejection).0 (extract_rejection_key rejection).1 in
      respond state notification (lookup key pm.rejections)

  abbrev respond_decoded :
      Codec → ProcessManager S → S → Result Notification → Option RejectionHandlerResponse
  respond_decoded codec pm state (err e) = none
  respond_decoded codec pm state (ok notification) =
      respond_to pm state notification (rejection_of codec notification.payload)

  -- `handleNotification`.
  unfoldable handle_notification :
      Codec → ProcessManager S → S → Any → Option RejectionHandlerResponse
  handle_notification codec pm state event =
      respond_decoded codec pm state (codec.unmarshal_to_notification event)

  abbrev call_matched :
      EventBook → S → Any → Option Destinations → Option (PmHandler S) → Result Response
  call_matched trigger state event dests none = ok empty_response
  call_matched trigger state event dests (some handler) =
      respond_handled (handler trigger state event dests)

  module _ (codec : Codec) (pm : ProcessManager S) (trigger : EventBook) (state : S)
      (dests : Option Destinations) where
    -- One round of the loop of `Handle`.
    abbrev pub page_response : Option Any → Result Response
    unfolding handle_notification
    page_response none = ok empty_response
    page_response (some event) =
        if is_notification event.type_url
        then ok (rejection_response (handle_notification codec pm state event))
        else call_matched trigger state event dests (match_type event.type_url pm.handlers)

    -- The loop of `Handle`.
    pub handle_pages : Response → List EventPage → Result Response
    handle_pages done [] = ok done
    handle_pages done (page ∷ pages) =
        page_response page.event >>= λ resp. handle_pages (gather done resp) pages

  abbrev handle_trigger :
      Codec
      → (zero : S) → ProcessManager S
      → EventBook
      → Option EventBook
      → Option Destinations
      → List EventPage
      → Result Response
  unfolding handle_pages
  handle_trigger codec zero pm trigger process_state dests [] = ok empty_response
  handle_trigger codec zero pm trigger process_state dests (page ∷ pages) =
      handle_pages codec pm trigger (rebuild_state zero pm process_state) dests empty_response
        (page ∷ pages)

  -- `Handle`. The process manager's pages make up the event book that it returns, which is nil when
  -- there are none.
  pub handle :
      Codec
      → (zero : S) → ProcessManager S
      → (trigger process_state : Option EventBook) → Option Destinations
      → Result Response
  handle codec zero pm none process_state dests = ok empty_response
  handle codec zero pm (some trigger) process_state dests =
      handle_trigger codec zero pm trigger process_state dests trigger.pages

-- `resultPMEvents`.
abbrev result_pm_events : Response → Option EventBook
result_pm_events resp = elim resp.process_pages [
  | [] ↦ none
  | page ∷ pages ↦ some (record empty_event_book { pages = page ∷ pages })
]
