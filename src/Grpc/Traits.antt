-- ===== src/Grpc/Traits.antt =====
-- handler.go: the gRPC services that wrap the routers over domain handlers.
use angzarr_client_go.Prelude.{
  String, ◌⧺◌, Option, none, some, [], ◌∷◌, ◌≡◌, ap, ◌∙◌, lookup, last?,
}
use angzarr_client_go.Proto.{
  Any, EventBook, EventPage, ContextualCommand, BusinessResponse, SagaResponse, Projection,
  ProcessManagerHandleResponse, ReplayRequest, SagaHandleRequest, ProcessManagerHandleRequest,
}
use angzarr_client_go.Errors.{
  Code, Result, err, status, invalid_argument, unimplemented, error_text, as_rejected,
}
use angzarr_client_go.Codec.{Codec}
use angzarr_client_go.Router.Traits.{
  CommandHandlerRouter, SagaRouter, ProcessManagerRouter, ProjectorRouter, dispatch_command,
  domain_or_empty,
}
use angzarr_client_go.Router.Traits.Sagas.{dispatch_saga}
use angzarr_client_go.Router.Traits.Managers.{dispatch_pm, dispatch_pm_page, dispatch_pm_for}
use angzarr_client_go.Router.Traits.Projectors.{dispatch_projector}
use angzarr_client_go.Grpc.{respond, pack_or_internal}

-- `TraitCommandHandlerGrpc`.
pub record TraitCommandHandlerGrpc (S : Type 0) : Type 0 where
  pub router : CommandHandlerRouter S
  pub state_packer : Option (S → Result Any)

module _ (status_text : Code → String → String) (codec : Codec) where
  -- `TraitCommandHandlerGrpc.dispatch`, which `Handle` and `HandleSync` call.
  unfoldable trait_dispatch :
      {S : Type 0} → TraitCommandHandlerGrpc S → Option ContextualCommand → Result BusinessResponse
  trait_dispatch h req = respond status_text (dispatch_command status_text codec h.router req)

  -- `TraitSagaHandler.Handle`.
  unfoldable trait_saga_handle : SagaRouter → SagaHandleRequest → Result SagaResponse
  trait_saga_handle router req =
      respond status_text
        (dispatch_saga status_text codec router req.source req.destination_sequences)

  -- `TraitProcessManagerHandler.Handle`.
  unfoldable trait_pm_handle :
      {S : Type 0}
      → ProcessManagerRouter S
      → ProcessManagerHandleRequest
      → Result ProcessManagerHandleResponse
  trait_pm_handle router req =
      respond status_text (
        dispatch_pm status_text codec router req.trigger req.process_state
          req.destination_sequences)

module _ (status_text : Code → String → String) where
  abbrev trait_replay_with :
      {S : Type 0} → CommandHandlerRouter S → ReplayRequest → Option (S → Result Any) → Result Any
  trait_replay_with router req none = err (
      status unimplemented
        "Replay not implemented. Call WithReplay() to enable for MERGE_COMMUTATIVE strategy.")
  trait_replay_with router req (some packer) =
      let event_book : EventBook = record {
        cover = none;
        pages = req.events;
        snapshot = req.base_snapshot;
        next_sequence = 0;
      } in
      pack_or_internal status_text (packer (router.handler.rebuild (some event_book)))

  -- `TraitCommandHandlerGrpc.Replay`: the packed state of the response.
  unfoldable trait_replay : {S : Type 0} → TraitCommandHandlerGrpc S → ReplayRequest → Result Any
  trait_replay h req = trait_replay_with h.router req h.state_packer

-- `TraitProjectorHandler.Handle`, which `HandleSpeculative` calls.
abbrev pub trait_projector_handle : ProjectorRouter → Option EventBook → Result (Option Projection)
trait_projector_handle router req = dispatch_projector router req

-- A trigger from a domain that no handler is registered for is refused by the router as
-- unimplemented, and the service answers it with an invalid argument that carries the router's
-- error as text.
trait_pm_handle_other_domain :
    (status_text : Code → String → String) (codec : Codec) {S : Type 0}
    (router : ProcessManagerRouter S) (req : ProcessManagerHandleRequest) (trigger : EventBook)
    (page : EventPage)
    → req.trigger ≡ some trigger
    → trigger.pages ≡ page ∷ []
    → lookup (domain_or_empty trigger.cover) router.domains ≡ none
    → trait_pm_handle status_text codec router req
      ≡ err (
          status invalid_argument
            (status_text unimplemented ("no handler for domain: " ⧺ domain_or_empty trigger.cover)))
unfolding trait_pm_handle dispatch_pm as_rejected error_text
trait_pm_handle_other_domain status_text codec router req trigger page given paged missing =
    let asked =
      ap (λ t. dispatch_pm status_text codec router t req.process_state req.destination_sequences)
        given in
    let paged' =
      ap
        (λ ps.
          dispatch_pm_page status_text codec router trigger req.process_state
            req.destination_sequences (last? ps))
        paged in
    let refused =
      ap
        (dispatch_pm_for status_text codec router trigger req.process_state
          req.destination_sequences page)
        missing in
    ap (respond status_text) (asked ∙ paged' ∙ refused)
