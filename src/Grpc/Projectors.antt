-- ===== src/Grpc/Projectors.antt =====
-- The functions of cloudevents.go and projector_oo.go that run the server of a projector.
use angzarr_client_go.Prelude.{String, Option, some, List, [], ◌∷◌, ◌≡◌, refl}
use angzarr_client_go.Proto.{Any}
use angzarr_client_go.Errors.{Error, Result, ok, ◌>>=◌}
use angzarr_client_go.Os.{Os}
use angzarr_client_go.CloudEvents.{CloudEventsRouter, projector_base_handle}
use angzarr_client_go.CloudEvents.Base.{CloudEventsProjectorBase, input_domain_of, base_handle}
use angzarr_client_go.Projector
use angzarr_client_go.Projector.{Projector}
use angzarr_client_go.Server.{ServerRun}
use angzarr_client_go.Grpc.Handlers.{
  ProjectorHandler, Registered, new_projector_handler, projector_with_handle,
}
use angzarr_client_go.Grpc.Running.{run_projector_server}

module _ {C : Type 0} (pack : List C → Result Any) where
  -- The handler that `RunCloudEventsProjectorServer` makes.
  abbrev cloud_events_handler : String → CloudEventsRouter C → ProjectorHandler
  cloud_events_handler name router =
      projector_with_handle (new_projector_handler name (router.input_domain ∷ []))
        (λ source. projector_base_handle pack router source >>= λ projection. ok (some projection))

  -- The handler that `RunOOCloudEventsProjectorServer` makes.
  abbrev oo_cloud_events_handler : String → CloudEventsProjectorBase C → ProjectorHandler
  oo_cloud_events_handler name projector =
      projector_with_handle (new_projector_handler name (input_domain_of projector ∷ []))
        (λ source. base_handle pack projector source >>= λ projection. ok (some projection))

-- The handler that `RunOOProjectorServer` makes.
abbrev oo_projector_handler : String → Projector → ProjectorHandler
oo_projector_handler name projector =
    projector_with_handle (new_projector_handler name projector.domains)
      (λ source. ok (some (Projector.handle projector source)))

module _ (join : String → String → String) (refuses : (network address : String) → Option Error)
    {S : Type 0} where
  module _ {C : Type 0} (pack : List C → Result Any) where
    -- `RunCloudEventsProjectorServer`.
    abbrev run_cloud_events_projector_server :
        (name port : String) → CloudEventsRouter C → Os → Result (Registered S × ServerRun)
    run_cloud_events_projector_server name port router os =
        run_projector_server join refuses name port (cloud_events_handler pack name router) os

    -- `RunOOCloudEventsProjectorServer`.
    abbrev run_oo_cloud_events_projector_server :
        (name port : String) → CloudEventsProjectorBase C → Os → Result (Registered S × ServerRun)
    run_oo_cloud_events_projector_server name port projector os =
        run_projector_server join refuses name port (oo_cloud_events_handler pack name projector) os

    -- A base is served as its router is.
    pub run_oo_cloud_events_projector_server-router :
        (name port : String) (projector : CloudEventsProjectorBase C) (os : Os)
        → run_oo_cloud_events_projector_server name port projector os
          ≡ run_cloud_events_projector_server name port projector.router os
    run_oo_cloud_events_projector_server-router name port projector os = refl

  -- `RunOOProjectorServer`.
  abbrev run_oo_projector_server :
      (name port : String) → Projector → Os → Result (Registered S × ServerRun)
  run_oo_projector_server name port projector os =
      run_projector_server join refuses name port (oo_projector_handler name projector) os
