-- ===== src/Tests/Services.antt =====
-- What the services answer.
use angzarr_client_go.Prelude.{
  ℕ, String, Option, none, some, true, false, List, [], ◌∷◌, ◌≡◌, ◌≢◌, refl, lookup, eq_iff,
}
use angzarr_client_go.Proto.{
  EventBook, CommandBook, Notification, ReplayRequest, SagaHandleRequest,
  ProcessManagerHandleRequest,
}
use angzarr_client_go.Errors.{
  Error, Code, Result, ok, err, status, failed_precondition, as_rejected, grpc_error,
}
use angzarr_client_go.Errors.Client.{is_precondition_failed, is_invalid_argument}
use angzarr_client_go.Destinations.{Destinations, new_destinations}
use angzarr_client_go.Helpers.TypeUrl.{notification_type_name}
use angzarr_client_go.Router.State.{
  StateRouter, make_event_applier, new_state_router, on as on_state, to_rebuilder,
}
use angzarr_client_go.Router.Command.{CommandRouter, CommandHandler, new_command_router, on}
use angzarr_client_go.Router.Command
use angzarr_client_go.Router.Command.Dispatch.{dispatch_registered}
use angzarr_client_go.Router.Event
use angzarr_client_go.Router.Event.{EventRouter, new_event_router}
use angzarr_client_go.Saga.{SagaHandlerResponse}
use angzarr_client_go.Grpc.{
  CommandHandlerGrpc, new_command_handler_grpc, with_replay, dispatch, saga_handle, oo_saga_handle,
  oo_pm_handle,
}
use angzarr_client_go.Grpc.Status.{Answers, services-Answers, rejection-IsPreconditionFailed}
use angzarr_client_go.Grpc.Commands.{dispatch-rejection}
use angzarr_client_go.Tests.Data.{
  add, added, any_of, codec, command_book, command_page, event_page, history, notification, request,
  too_late, total,
}

abbrev texts : Code → String → String
texts code text = text

abbrev balance : StateRouter ℕ
balance =
    on_state (new_state_router 0)
      (make_event_applier "bank.Added" (λ bytes. ok bytes) (λ b bytes. total bytes))

abbrev closed_handler : CommandHandler ℕ
closed_handler book command sum seq = err too_late

abbrev service : CommandHandlerGrpc ℕ
service =
    with_replay
      (new_command_handler_grpc
        (on (new_command_router "bank" (to_rebuilder balance)) "bank.Add" closed_handler))
      (λ sum. ok (any_of "bank.State" (sum ∷ [])))

add-ne-notification : "bank.Add" ≢ notification_type_name
add-ne-notification e = cc ((eq_iff "bank.Add" notification_type_name).1 e)

dispatch-rejection_example :
    dispatch texts codec service (some (request add)) ≡ err (status failed_precondition "closed")
unfolding lookup as_rejected
dispatch-rejection_example =
    dispatch-rejection texts codec service (request add) (command_book add) add "bank.Add"
      closed_handler too_late "closed" (command_page add, [], refl, refl, refl) refl
      add-ne-notification refl refl refl

router_fails : Command.dispatch codec service.router (some (request add)) ≡ err too_late
unfolding lookup
router_fails =
    dispatch_registered codec service.router (request add) (command_book add) add "bank.Add"
      closed_handler (command_page add, [], refl, refl, refl) refl add-ne-notification refl

abbrev code_of : Error → Option Code
code_of (status c m) = some c
code_of _ = none

rejection-IsPreconditionFailed_example :
    (answer : Error) × (dispatch texts codec service (some (request add)) ≡ err answer)
    × (is_precondition_failed code_of (grpc_error answer) ≡ true)
    × (is_invalid_argument code_of (grpc_error answer) ≡ false)
unfolding as_rejected
rejection-IsPreconditionFailed_example =
    rejection-IsPreconditionFailed texts code_of codec service (some (request add)) too_late
      "closed" (λ c m. refl) router_fails refl

abbrev replay_request : ReplayRequest
replay_request = record { base_snapshot = none; events = event_page 2 added ∷ [] }

abbrev saga : Option EventBook → Destinations → Result (Option SagaHandlerResponse)
saga source dests = err too_late

abbrev pm :
    Option EventBook
    → Option EventBook
    → Destinations
    → Result (List CommandBook × Option EventBook × Option Notification)
pm trigger process_state dests = ok (command_book add ∷ [], trigger, some notification)

abbrev saga_request : SagaHandleRequest
saga_request = record { source = some history; destination_sequences = none }

abbrev pm_request : ProcessManagerHandleRequest
pm_request = record { trigger = some history; process_state = none; destination_sequences = none }

services-Answers_example :
    Answers texts
      (Command.dispatch codec service.router (some (request add)))
      (dispatch texts codec service (some (request add)))
    × Answers texts
        (Event.dispatch (new_event_router "saga" []) (some history) none)
        (saga_handle texts (new_event_router "saga" []) saga_request)
    × Answers texts
        (saga (some history) (new_destinations none))
        (oo_saga_handle texts saga saga_request)
    × Answers texts
        (pm (some history) none (new_destinations none))
        (oo_pm_handle texts pm pm_request)
services-Answers_example =
    services-Answers texts codec service (new_event_router "saga" []) saga pm (some (request add))
      saga_request pm_request
