-- ===== src/Router/Traits.antt =====
-- The routers of router.go that wrap the domain handlers of traits.go, and `CommandHandlerRouter`. A handler's methods that the
-- routers call are fields of a record.
pub mod Sagas
pub mod Managers
pub mod Projectors
pub mod Rejections
pub mod Subscriptions
pub mod Agreement
use angzarr_client_go.Prelude.{
  ℕ, String, ◌⧺◌, Option, none, some, Bool, List, [], ◌∷◌, if◌then◌else◌, GoMap, lookup, insert,
  map, head?, last?, has_suffix,
}
use angzarr_client_go.Proto.{
  Any, Cover, EventPage, EventBook, CommandPage, CommandBook, ContextualCommand, Notification,
  RejectionNotification, BusinessResponse, SagaResponse, ProcessManagerHandleResponse, Projection,
  empty_event_book,
}
use angzarr_client_go.Errors.{
  Error, Code, Result, ok, err, status, invalid_argument, unimplemented, error_text, ◌>>=◌,
}
use angzarr_client_go.Codec.{Codec}
use angzarr_client_go.Compensation.{
  RejectionHandlerResponse, extract_rejection_key, delegate_to_framework,
}
use angzarr_client_go.Destinations.{Destinations, new_destinations}
use angzarr_client_go.Helpers.Books.{next_sequence}
use angzarr_client_go.Router.Command.{empty_rejection, err_msg_no_command_pages}
use angzarr_client_go.Saga.{SagaHandlerResponse}

-- `ProcessManagerResponse`.
pub record ProcessManagerResponse : Type 0 where
  pub commands : List CommandBook
  pub process_events : Option EventBook
  pub facts : List EventBook

-- `CommandHandlerDomainHandler`.
pub record CommandHandlerDomainHandler (S : Type 0) : Type 0 where
  pub command_types : List String
  pub rebuild : Option EventBook → S
  pub handle : CommandBook → Any → S → ℕ → Result (Option EventBook)
  pub on_rejected :
      Notification → S → (domain command : String) → Result (Option RejectionHandlerResponse)

-- `SagaDomainHandler`.
pub record SagaDomainHandler : Type 0 where
  pub event_types : List String
  pub execute : EventBook → Any → Destinations → Result (Option SagaHandlerResponse)
  pub on_rejected :
      Notification → (domain command : String) → Result (Option RejectionHandlerResponse)

-- `ProcessManagerDomainHandler`.
pub record ProcessManagerDomainHandler (S : Type 0) : Type 0 where
  pub event_types : List String
  pub handle : EventBook → S → Any → Destinations → Result (Option ProcessManagerResponse)
  pub on_rejected :
      Notification → S → (domain command : String) → Result (Option RejectionHandlerResponse)

-- `ProjectorDomainHandler`.
pub record ProjectorDomainHandler : Type 0 where
  pub event_types : List String
  pub project : EventBook → Result (Option Projection)

pub record CommandHandlerRouter (S : Type 0) : Type 0 where
  pub name : String
  pub domain : String
  pub handler : CommandHandlerDomainHandler S

pub record SagaRouter : Type 0 where
  pub name : String
  pub domain : String
  pub target_domain : String
  pub handler : SagaDomainHandler

pub record ProcessManagerRouter (S : Type 0) : Type 0 where
  pub name : String
  pub pm_domain : String
  pub rebuild : Option EventBook → S
  pub domains : GoMap (ProcessManagerDomainHandler S)

pub record ProjectorRouter : Type 0 where
  pub name : String
  pub domains : GoMap ProjectorDomainHandler

-- `strings.HasSuffix(typeURL, "Notification")`.
abbrev pub ends_in_notification : String → Bool
ends_in_notification type_url = has_suffix type_url "Notification"

abbrev pub compensation_events : Option RejectionHandlerResponse → List EventBook
compensation_events none = []
compensation_events (some response) = elim response.events [ none ↦ [] | some book ↦ book ∷ [] ]

-- The switch at the end of `dispatchCHNotification`.
abbrev business_response :
    (domain command : String) → Option EventBook → Option Notification → BusinessResponse
business_response domain command (some book) notification = BusinessResponse.events (some book)
business_response domain command none (some notification) =
    BusinessResponse.notification notification
business_response domain command none none =
    delegate_to_framework ("Handler returned empty response for " ⧺ domain ⧺ "/" ⧺ command)

abbrev rejection_result :
    (domain command : String) → Option RejectionHandlerResponse → BusinessResponse
rejection_result domain command none = business_response domain command none none
rejection_result domain command (some response) =
    business_response domain command response.events response.notification

abbrev pub domain_or_empty : Option Cover → String
domain_or_empty none = ""
domain_or_empty (some cover) = cover.domain

-- The text of an error of the gRPC status package is `status_text`.
module _ (status_text : Code → String → String) (codec : Codec) where
  -- `status.Errorf(codes.InvalidArgument, "failed to decode …: %v", err)`.
  abbrev decoded : {A : Type 0} → String → Result A → Result A
  decoded prefix (ok a) = ok a
  decoded prefix (err e) = err (status invalid_argument (prefix ⧺ error_text status_text e))

  abbrev rejection_of : Option Any → Result RejectionNotification
  rejection_of none = ok empty_rejection
  rejection_of (some payload) =
      decoded "failed to decode RejectionNotification: " (codec.unmarshal_rejection payload.value)

  -- The start of the three functions that dispatch a notification: the notification and its key.
  abbrev pub notified : {R : Type 0} → Any → (Notification → String → String → Result R) → Result R
  notified event k =
      decoded "failed to decode Notification: " (codec.unmarshal_notification event.value)
      >>= λ notification. rejection_of notification.payload >>= λ rejection.
          k notification (extract_rejection_key rejection).0 (extract_rejection_key rejection).1

  -- `dispatchCHNotification`.
  abbrev dispatch_ch_notification :
      {S : Type 0} → CommandHandlerRouter S → Any → S → Result BusinessResponse
  dispatch_ch_notification r command state = notified command (λ notification domain cmd.
      r.handler.on_rejected notification state domain cmd >>= λ response.
      ok (rejection_result domain cmd response))

  abbrev pub handle_command :
      {S : Type 0}
      → CommandHandlerRouter S
      → CommandBook
      → Any
      → Option EventBook
      → Result BusinessResponse
  handle_command r book command events =
      let prior = some (elim events [ none ↦ empty_event_book | some b ↦ b ]) in
      let state = r.handler.rebuild prior in
      if ends_in_notification command.type_url
      then dispatch_ch_notification r command state
      else r.handler.handle book command state (next_sequence prior) >>= λ result.
          ok (BusinessResponse.events result)

  abbrev dispatch_payload :
      {S : Type 0}
      → CommandHandlerRouter S
      → CommandBook
      → Option EventBook
      → Option Any
      → Result BusinessResponse
  dispatch_payload r book events none = err (status invalid_argument "missing command")
  dispatch_payload r book events (some command) = handle_command r book command events

  abbrev dispatch_any :
      {S : Type 0}
      → CommandHandlerRouter S
      → CommandBook
      → Option EventBook
      → Option CommandPage
      → Result BusinessResponse
  dispatch_any r book events none = err (status invalid_argument err_msg_no_command_pages)
  dispatch_any r book events (some page) = dispatch_payload r book events page.command

  abbrev dispatch_book :
      {S : Type 0}
      → CommandHandlerRouter S
      → Option EventBook
      → Option CommandBook
      → Result BusinessResponse
  dispatch_book r events none = err (status invalid_argument "missing command book")
  dispatch_book r events (some book) = dispatch_any r book events (head? book.pages)

  -- `CommandHandlerRouter.Dispatch`; the getters give nil on a nil request.
  unfoldable pub dispatch_command :
      {S : Type 0} → CommandHandlerRouter S → Option ContextualCommand → Result BusinessResponse
  dispatch_command r none = dispatch_book r none none
  dispatch_command r (some cmd) = dispatch_book r cmd.events cmd.command
