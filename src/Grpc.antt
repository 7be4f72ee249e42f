-- ===== src/Grpc.antt =====
-- handler.go: the gRPC services that wrap the routers and the OO-style bases. The context that each
-- method takes is not read. Errors are answered with a status of the gRPC package.
pub mod Status
pub mod Commands
pub mod Traits
pub mod Handlers
pub mod Running
pub mod Projectors
use angzarr_client_go.Prelude.{ℕ, String, Option, none, some, List, [], ◌∷◌, GoMap}
use angzarr_client_go.Proto.{
  Any, EventPage, EventBook, CommandBook, ContextualCommand, BusinessResponse, SagaResponse,
  Notification, ProcessManagerHandleResponse, Projection, ReplayRequest, SagaHandleRequest,
  ProcessManagerHandleRequest,
}
use angzarr_client_go.Errors.{
  Error, Code, Result, ok, err, status, failed_precondition, invalid_argument, unimplemented,
  internal, as_rejected, error_text, ◌>>=◌,
}
use angzarr_client_go.Codec.{Codec}
use angzarr_client_go.Destinations.{Destinations, new_destinations}
use angzarr_client_go.Router.Command
use angzarr_client_go.Router.Command.{CommandRouter}
use angzarr_client_go.Router.Event
use angzarr_client_go.Router.Event.{EventRouter}
use angzarr_client_go.Aggregate
use angzarr_client_go.Aggregate.{Data, Registry, init_data}
use angzarr_client_go.Saga.{SagaHandlerResponse, empty_response}

-- `StatePacker`, nil unless `WithReplay` is called.
pub record CommandHandlerGrpc (S : Type 0) : Type 0 where
  pub router : CommandRouter S
  pub state_packer : Option (S → Result Any)

-- `NewCommandHandlerGrpc`.
abbrev pub new_command_handler_grpc : {S : Type 0} → CommandRouter S → CommandHandlerGrpc S
new_command_handler_grpc router = record { router = router; state_packer = none }

-- `WithReplay`.
abbrev pub with_replay :
    {S : Type 0} → CommandHandlerGrpc S → (S → Result Any) → CommandHandlerGrpc S
with_replay h packer = record h { state_packer = some packer }

-- The process manager's results as `Handle` wraps them.
abbrev pm_response : List CommandBook → Option EventBook → ProcessManagerHandleResponse
pm_response commands none = record { commands = commands; process_events = [] }
pm_response commands (some book) = record { commands = commands; process_events = book ∷ [] }

abbrev pub saga_commands : List CommandBook → SagaResponse
saga_commands commands = record { commands = commands; events = [] }

abbrev pub saga_response : Option SagaHandlerResponse → SagaResponse
saga_response none = record {
  commands = SagaHandlerResponse.commands empty_response;
  events = SagaHandlerResponse.events empty_response;
}
saga_response (some response) = record { commands = response.commands; events = response.events }

abbrev pub oo_pm_response :
    List CommandBook × Option EventBook × Option Notification → ProcessManagerHandleResponse
oo_pm_response (commands, process_events, notification) = pm_response commands process_events

-- The text of an error of the gRPC status package is `status_text`.
module _ (status_text : Code → String → String) where
  abbrev pub status_of : Error → Option String → Error
  status_of e (some message) = status failed_precondition message
  status_of e none = status invalid_argument (error_text status_text e)

  -- `if err != nil { … }`, as the services share it.
  abbrev pub respond {ℓ} : {A : Type ℓ} → Result A → Result A
  respond (ok response) = ok response
  respond (err e) = err (status_of e (as_rejected e))

  -- `CommandHandlerGrpc.dispatch`, which `Handle` and `HandleSync` call.
  unfoldable pub dispatch :
      {S : Type 0}
      → Codec
      → CommandHandlerGrpc S
      → Option ContextualCommand
      → Result (Option BusinessResponse)
  dispatch codec h req = respond (Command.dispatch codec h.router req)

  abbrev pack_or_internal : Result Any → Result Any
  pack_or_internal (ok state) = ok state
  pack_or_internal (err e) = err (status internal (error_text status_text e))

  abbrev replay_with :
      {S : Type 0} → CommandRouter S → ReplayRequest → Option (S → Result Any) → Result Any
  replay_with router req none = err (
      status unimplemented
        "Replay not implemented. Call WithReplay() to enable for MERGE_COMMUTATIVE strategy.")
  replay_with router req (some packer) =
      let event_book : EventBook = record {
        cover = none;
        pages = req.events;
        snapshot = req.base_snapshot;
        next_sequence = 0;
      } in
      pack_or_internal (packer (Command.rebuild_state router (some event_book)))

  -- `CommandHandlerGrpc.Replay`: the packed state of the response.
  unfoldable pub replay : {S : Type 0} → CommandHandlerGrpc S → ReplayRequest → Result Any
  replay h req = replay_with h.router req h.state_packer

  -- `SagaHandler.Handle`.
  unfoldable pub saga_handle : EventRouter → SagaHandleRequest → Result SagaResponse
  saga_handle router req =
      respond (Event.dispatch router req.source req.destination_sequences) >>= λ commands.
      ok (saga_commands commands)

  abbrev with_process_state :
      Result (List CommandBook × Option EventBook) → Result ProcessManagerHandleResponse
  with_process_state (err e) = err (status invalid_argument (error_text status_text e))
  with_process_state (ok (commands, process_events)) = ok (pm_response commands process_events)

  -- `ProcessManagerHandler.Handle`, for the callback that `WithHandle` sets.
  unfoldable pub pm_handle :
      Option (
        Option EventBook
        → Option EventBook
        → Option (GoMap ℕ)
        → Result (List CommandBook × Option EventBook))
      → ProcessManagerHandleRequest
      → Result ProcessManagerHandleResponse
  pm_handle none req = ok (record { commands = []; process_events = [] })
  pm_handle (some handle_fn) req =
      with_process_state (handle_fn req.trigger req.process_state req.destination_sequences)

  -- `OOCommandHandlerGrpc.dispatch` for a type that embeds `CommandHandlerBase`: the factory makes
  -- an instance with `Init`, and its `Handle` is the base's.
  abbrev pub oo_dispatch_book :
      {S M : Type 0}
      → Codec
      → Registry S M
      → (pack : M → Result Any) → Option EventBook
      → Option CommandBook
      → Result (Option BusinessResponse)
  oo_dispatch_book codec reg pack prior none = err (status invalid_argument "no command provided")
  oo_dispatch_book codec reg pack prior (some book) =
      respond (Aggregate.handle reg pack codec (init_data prior) book).1

  unfoldable pub oo_dispatch :
      {S M : Type 0}
      → Codec
      → Registry S M
      → (pack : M → Result Any) → Option ContextualCommand
      → Result (Option BusinessResponse)
  oo_dispatch codec reg pack none = err (status invalid_argument "no command provided")
  oo_dispatch codec reg pack (some req) = oo_dispatch_book codec reg pack req.events req.command

  -- `OOSagaHandler.Handle`, for the `Handle` of an `OOSaga`.
  unfoldable pub oo_saga_handle :
      (Option EventBook → Destinations → Result (Option SagaHandlerResponse))
      → SagaHandleRequest
      → Result SagaResponse
  oo_saga_handle handle req =
      respond (handle req.source (new_destinations req.destination_sequences)) >>= λ response.
      ok (saga_response response)

  -- `OOProcessManagerHandler.Handle`, for the `Handle` of an `OOProcessManager`.
  unfoldable pub oo_pm_handle :
      (Option EventBook
        → Option EventBook
        → Destinations
        → Result (List CommandBook × Option EventBook × Option Notification))
      → ProcessManagerHandleRequest
      → Result ProcessManagerHandleResponse
  oo_pm_handle handle req =
      respond (handle req.trigger req.process_state (new_destinations req.destination_sequences))
      >>= λ results. ok (oo_pm_response results)

-- `ProjectorHandler.Handle`, for the callback that `WithHandle` sets.
abbrev pub projector_handle :
    Option (Option EventBook → Result (Option Projection))
    → Option EventBook
    → Result (Option Projection)
projector_handle none req =
    ok (some (record { cover = none; projector = ""; sequence = 0; projection = none }))
projector_handle (some handle_fn) req = handle_fn req

-- `UpcasterGrpcHandler.Upcast`, for the callback that `WithHandle` sets.
abbrev pub upcast : Option (List EventPage → List EventPage) → List EventPage → List EventPage
upcast none events = events
upcast (some handle_fn) events = handle_fn events
