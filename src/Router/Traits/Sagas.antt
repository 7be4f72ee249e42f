-- ===== src/Router/Traits/Sagas.antt =====
-- `SagaRouter` of router.go.
use angzarr_client_go.Prelude.{ℕ, String, Option, none, some, [], if◌then◌else◌, GoMap, last?}
use angzarr_client_go.Proto.{Any, EventPage, EventBook, SagaResponse}
use angzarr_client_go.Errors.{Code, Result, ok, err, status, invalid_argument, ◌>>=◌}
use angzarr_client_go.Codec.{Codec}
use angzarr_client_go.Destinations.{new_destinations}
use angzarr_client_go.Saga.{SagaHandlerResponse}
use angzarr_client_go.Router.Traits.{
  SagaRouter, ends_in_notification, compensation_events, notified,
}

abbrev saga_results : Option SagaHandlerResponse → SagaResponse
saga_results none = record { commands = []; events = [] }
saga_results (some response) = record { commands = response.commands; events = response.events }

-- The text of an error of the gRPC status package is `status_text`.
module _ (status_text : Code → String → String) (codec : Codec) where
  -- `dispatchSagaNotification`.
  abbrev dispatch_saga_notification : SagaRouter → Any → Result SagaResponse
  dispatch_saga_notification r event = notified status_text codec event (λ notification domain cmd.
      r.handler.on_rejected notification domain cmd >>= λ response.
      ok (record { commands = []; events = compensation_events response }))

  abbrev dispatch_saga_event :
      SagaRouter → EventBook → Option (GoMap ℕ) → Option Any → Result SagaResponse
  dispatch_saga_event r source sequences none =
      err (status invalid_argument "missing event payload")
  dispatch_saga_event r source sequences (some event) =
      if ends_in_notification event.type_url
      then dispatch_saga_notification r event
      else r.handler.execute source event (new_destinations sequences) >>= λ response.
          ok (saga_results response)

  abbrev dispatch_saga_page :
      SagaRouter → EventBook → Option (GoMap ℕ) → Option EventPage → Result SagaResponse
  dispatch_saga_page r source sequences none =
      err (status invalid_argument "source event book has no events")
  dispatch_saga_page r source sequences (some page) =
      dispatch_saga_event r source sequences page.event

  -- `SagaRouter.Dispatch`.
  unfoldable pub dispatch_saga :
      SagaRouter → Option EventBook → Option (GoMap ℕ) → Result SagaResponse
  dispatch_saga r none sequences = err (status invalid_argument "source event book has no events")
  dispatch_saga r (some source) sequences =
      dispatch_saga_page r source sequences (last? source.pages)
