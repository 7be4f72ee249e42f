-- ===== src/Grpc/Handlers.antt =====
-- handler.go: the handler types of the services, with the constructors, the callbacks that are set
-- on them and the methods that the service interfaces ask for. `Registered` is what a registrar
-- hands to the service registration that protoc generates.
use angzarr_client_go.Prelude.{ℕ, String, Option, none, some, List, GoMap, ◌≡◌, refl}
use angzarr_client_go.Proto.{
  Any, EventPage, EventBook, CommandBook, ContextualCommand, BusinessResponse, Notification,
  Projection,
}
use angzarr_client_go.Errors.{Code, Result, err, status, invalid_argument}
use angzarr_client_go.Codec.{Codec}
use angzarr_client_go.Compensation.{PmRevocationResponse}
use angzarr_client_go.Destinations.{Destinations}
use angzarr_client_go.Router.Event.{EventRouter}
use angzarr_client_go.Router.Traits.{SagaRouter, ProcessManagerRouter, ProjectorRouter}
use angzarr_client_go.Aggregate
use angzarr_client_go.Aggregate.{Registry, init_data, handler_types}
use angzarr_client_go.Saga.{SagaHandlerResponse}
use angzarr_client_go.Grpc.{
  CommandHandlerGrpc, respond, oo_dispatch, oo_dispatch_book, projector_handle, upcast,
}
use angzarr_client_go.Grpc.Traits.{TraitCommandHandlerGrpc, trait_projector_handle}

-- `SagaHandler`.
pub record SagaHandler : Type 0 where
  pub router : EventRouter

-- `TraitSagaHandler`.
pub record TraitSagaHandler : Type 0 where
  pub router : SagaRouter

-- `TraitProcessManagerHandler`.
pub record TraitProcessManagerHandler (S : Type 0) : Type 0 where
  pub router : ProcessManagerRouter S

-- `TraitProjectorHandler`.
pub record TraitProjectorHandler : Type 0 where
  pub router : ProjectorRouter

-- `ProjectorHandleFunc`.
abbrev pub ProjectorHandleFunc : Type 0
ProjectorHandleFunc = Option EventBook → Result (Option Projection)

-- `ProjectorHandler`.
pub record ProjectorHandler : Type 0 where
  pub name : String
  pub domains : List String
  pub handle_fn : Option ProjectorHandleFunc

-- `NewProjectorHandler`.
abbrev pub new_projector_handler : String → List String → ProjectorHandler
new_projector_handler name domains = record { name = name; domains = domains; handle_fn = none }

-- `ProjectorHandler.WithHandle`.
abbrev pub projector_with_handle : ProjectorHandler → ProjectorHandleFunc → ProjectorHandler
projector_with_handle h fn = record h { handle_fn = some fn }

-- `PMHandleFunc`.
abbrev pub PmHandleFunc : Type 0
PmHandleFunc =
    Option EventBook
    → Option EventBook
    → Option (GoMap ℕ)
    → Result (List CommandBook × Option EventBook)

-- `PMRevocationFunc`.
abbrev pub PmRevocationFunc : Type 0
PmRevocationFunc = Notification → Option EventBook → Option PmRevocationResponse

-- `ProcessManagerHandler`.
pub record ProcessManagerHandler : Type 0 where
  pub name : String
  pub handle_fn : Option PmHandleFunc
  pub revocation_fn : Option PmRevocationFunc

-- `NewProcessManagerHandler`.
abbrev new_process_manager_handler : String → ProcessManagerHandler
new_process_manager_handler name = record { name = name; handle_fn = none; revocation_fn = none }

-- `ProcessManagerHandler.WithHandle`.
abbrev pm_with_handle : ProcessManagerHandler → PmHandleFunc → ProcessManagerHandler
pm_with_handle h fn = record h { handle_fn = some fn }

-- `WithRevocationHandler`.
abbrev with_revocation_handler : ProcessManagerHandler → PmRevocationFunc → ProcessManagerHandler
with_revocation_handler h fn = record h { revocation_fn = some fn }

-- `OOCommandHandler`. `Handle` takes the request; the model's also takes the command book of it,
-- which `OOCommandHandlerGrpc.dispatch` has found not to be nil.
pub record OoCommandHandler : Type 0 where
  pub domain : String
  pub handle : ContextualCommand → CommandBook → Result (Option BusinessResponse)
  pub handler_types : List String

-- `OOCommandHandlerGrpc`.
pub record OoCommandHandlerGrpc : Type 0 where
  pub domain : String
  pub factory : Option EventBook → OoCommandHandler

-- `OOSaga`.
pub record OoSaga : Type 0 where
  pub name : String
  pub input_domain : String
  pub output_domain : String
  pub handle : Option EventBook → Destinations → Result (Option SagaHandlerResponse)

-- `OOSagaHandler`.
pub record OoSagaHandler : Type 0 where
  pub saga : OoSaga

-- `OOProcessManager`.
pub record OoProcessManager : Type 0 where
  pub name : String
  pub pm_domain : String
  pub input_domains : List String
  pub handle :
      Option EventBook
      → Option EventBook
      → Destinations
      → Result (List CommandBook × Option EventBook × Option Notification)

-- `OOProcessManagerHandler`.
pub record OoProcessManagerHandler : Type 0 where
  pub pm : OoProcessManager

-- `UpcasterHandleFunc`.
abbrev pub UpcasterHandleFunc : Type 0
UpcasterHandleFunc = List EventPage → List EventPage

-- `UpcasterGrpcHandler`.
pub record UpcasterGrpcHandler : Type 0 where
  pub name : String
  pub domain : String
  pub handle_fn : Option UpcasterHandleFunc

-- `NewUpcasterGrpcHandler`.
abbrev new_upcaster_grpc_handler : (name domain : String) → UpcasterGrpcHandler
new_upcaster_grpc_handler name domain = record { name = name; domain = domain; handle_fn = none }

-- `UpcasterGrpcHandler.WithHandle`.
abbrev upcaster_with_handle : UpcasterGrpcHandler → UpcasterHandleFunc → UpcasterGrpcHandler
upcaster_with_handle h fn = record h { handle_fn = some fn }

-- `UpcasterGrpcHandler.Upcast`: the events of the response for those of the request.
abbrev upcaster_upcast : UpcasterGrpcHandler → List EventPage → List EventPage
upcaster_upcast h events = upcast h.handle_fn events

-- `ProjectorHandler.HandleSpeculative`.
abbrev projector_speculative : ProjectorHandler → Option EventBook → Result (Option Projection)
projector_speculative h req = projector_handle h.handle_fn req

-- `TraitProjectorHandler.HandleSpeculative`.
abbrev trait_projector_speculative :
    TraitProjectorHandler → Option EventBook → Result (Option Projection)
trait_projector_speculative h req = trait_projector_handle h.router req

module _ (status_text : Code → String → String) where
  abbrev oo_command_for :
      OoCommandHandlerGrpc
      → ContextualCommand
      → Option CommandBook
      → Result (Option BusinessResponse)
  oo_command_for h req none = err (status invalid_argument "no command provided")
  oo_command_for h req (some book) = respond status_text ((h.factory req.events).handle req book)

  -- `OOCommandHandlerGrpc.dispatch` for any `OOCommandHandler`.
  abbrev oo_command_respond :
      OoCommandHandlerGrpc → Option ContextualCommand → Result (Option BusinessResponse)
  oo_command_respond h none = err (status invalid_argument "no command provided")
  oo_command_respond h (some req) = oo_command_for h req req.command

-- The factory of a type that embeds `CommandHandlerBase`.
abbrev base_factory :
    {S M : Type 0}
    → Codec
    → Registry S M
    → (pack : M → Result Any) → Option EventBook
    → OoCommandHandler
base_factory codec reg pack prior = record {
  domain = reg.domain;
  handle = λ req book. (Aggregate.handle reg pack codec (init_data prior) book).1;
  handler_types = handler_types reg;
}

-- With such a factory the service is the one that dispatches to the base.
oo_command_respond-base_factory :
    (status_text : Code → String → String) {S M : Type 0} (codec : Codec) (reg : Registry S M)
    (pack : M → Result Any) (req : Option ContextualCommand)
    → oo_command_respond status_text
        (record { domain = reg.domain; factory = base_factory codec reg pack })
        req
      ≡ oo_dispatch status_text codec reg pack req
unfolding oo_dispatch
oo_command_respond-base_factory status_text codec reg pack none = refl
oo_command_respond-base_factory status_text codec reg pack (some req) = go req.command
  where
    go :
        (book : Option CommandBook)
        → oo_command_for status_text
            (record { domain = reg.domain; factory = base_factory codec reg pack })
            req
            book
          ≡ oo_dispatch_book status_text codec reg pack req.events book
    go none = refl
    go (some book) = refl

-- What a registrar hands over.
pub data Registered (S : Type 0) : Type 0 where
  commands : CommandHandlerGrpc S → Registered S
  trait_commands : TraitCommandHandlerGrpc S → Registered S
  oo_commands : OoCommandHandlerGrpc → Registered S
  sagas : SagaHandler → Registered S
  trait_sagas : TraitSagaHandler → Registered S
  oo_sagas : OoSagaHandler → Registered S
  managers : ProcessManagerHandler → Registered S
  trait_managers : TraitProcessManagerHandler S → Registered S
  oo_managers : OoProcessManagerHandler → Registered S
  projectors : ProjectorHandler → Registered S
  trait_projectors : TraitProjectorHandler → Registered S
  upcasters : UpcasterGrpcHandler → Registered S
