-- ===== src/Grpc/Running.antt =====
-- handler.go: the functions that register a service and run its server.
use angzarr_client_go.Prelude.{String, Option, none, true, false, ◌≡◌, ap}
use angzarr_client_go.Proto.{EventBook}
use angzarr_client_go.Errors.{Error, Result, ok, ◌>>=◌}
use angzarr_client_go.Os.{Os}
use angzarr_client_go.Router.Command.{CommandRouter}
use angzarr_client_go.Router.Event.{EventRouter}
use angzarr_client_go.Router.Traits.{
  CommandHandlerRouter, SagaRouter, ProcessManagerRouter, ProjectorRouter,
}
use angzarr_client_go.Server.{ServerOptions, ServerRun, is_uds, run_server}
use angzarr_client_go.Server.Transport.{tcp_address, tcp_run, run_server-tcp}
use angzarr_client_go.Grpc.{new_command_handler_grpc}
use angzarr_client_go.Grpc.Handlers.{
  Registered, ProjectorHandler, ProcessManagerHandler, OoCommandHandler, OoSaga, OoProcessManager,
  UpcasterGrpcHandler, commands, trait_commands, oo_commands, sagas, trait_sagas, oo_sagas,
  managers, trait_managers, oo_managers, projectors, trait_projectors, upcasters,
}

-- The options that every `Run…Server` gives to `RunServer`.
abbrev pub options : (service_name domain default_port : String) → ServerOptions
options service_name domain default_port = record {
  service_name = service_name;
  domain = domain;
  default_port = default_port;
  enable_reflection = true;
}

module _ {S : Type 0} where
  -- `RegisterCommandHandlerGrpc`.
  abbrev register_command_handler : CommandRouter S → Registered S
  register_command_handler router = commands (new_command_handler_grpc router)

  -- `RegisterSagaHandler`.
  abbrev register_saga : EventRouter → Registered S
  register_saga router = sagas (record { router = router })

  -- `RegisterTraitCommandHandlerGrpc`.
  abbrev register_trait_command_handler : CommandHandlerRouter S → Registered S
  register_trait_command_handler router =
      trait_commands (record { router = router; state_packer = none })

  -- `RegisterTraitSagaHandler`.
  abbrev register_trait_saga : SagaRouter → Registered S
  register_trait_saga router = trait_sagas (record { router = router })

  -- `RegisterTraitProcessManagerHandler`.
  abbrev register_trait_process_manager : ProcessManagerRouter S → Registered S
  register_trait_process_manager router = trait_managers (record { router = router })

  -- `RegisterTraitProjectorHandler`.
  abbrev register_trait_projector : ProjectorRouter → Registered S
  register_trait_projector router = trait_projectors (record { router = router })

  -- `RegisterProjectorHandler`.
  abbrev register_projector : ProjectorHandler → Registered S
  register_projector handler = projectors handler

  -- `RegisterProcessManagerHandler`.
  abbrev register_process_manager : ProcessManagerHandler → Registered S
  register_process_manager handler = managers handler

  -- `RegisterOOCommandHandlerGrpc`.
  abbrev register_oo_command_handler : String → (Option EventBook → OoCommandHandler) → Registered S
  register_oo_command_handler domain factory =
      oo_commands (record { domain = domain; factory = factory })

  -- `RegisterOOSagaHandler`.
  abbrev register_oo_saga : OoSaga → Registered S
  register_oo_saga saga = oo_sagas (record { saga = saga })

  -- `RegisterOOProcessManagerHandler`.
  abbrev register_oo_process_manager : OoProcessManager → Registered S
  register_oo_process_manager pm = oo_managers (record { pm = pm })

  -- `RegisterUpcasterGrpcHandler`.
  abbrev register_upcaster : UpcasterGrpcHandler → Registered S
  register_upcaster handler = upcasters handler

module _ (join : String → String → String) (refuses : (network address : String) → Option Error)
    {S : Type 0} where
  -- `RunServer` with a registrar, which is called on the server that `CreateServer` makes: what it
  -- registers, and the run.
  abbrev run_registered : ServerOptions → Registered S → Os → Result (Registered S × ServerRun)
  run_registered opts service os = run_server join refuses opts os >>= λ run. ok (service, run)

  -- `RunCommandHandlerServer`.
  abbrev run_command_handler_server :
      (domain default_port : String) → CommandRouter S → Os → Result (Registered S × ServerRun)
  run_command_handler_server domain default_port router os =
      run_registered (options "CommandHandler" domain default_port)
        (register_command_handler router) os

  -- `RunSagaServer`.
  abbrev run_saga_server :
      (name default_port : String) → EventRouter → Os → Result (Registered S × ServerRun)
  run_saga_server name default_port router os =
      run_registered (options "Saga" name default_port) (register_saga router) os

  -- `RunTraitCommandHandlerServer`.
  abbrev run_trait_command_handler_server :
      (domain default_port : String)
      → CommandHandlerRouter S
      → Os
      → Result (Registered S × ServerRun)
  run_trait_command_handler_server domain default_port router os =
      run_registered (options "CommandHandler" domain default_port)
        (register_trait_command_handler router) os

  -- `RunTraitSagaServer`.
  abbrev run_trait_saga_server :
      (name default_port : String) → SagaRouter → Os → Result (Registered S × ServerRun)
  run_trait_saga_server name default_port router os =
      run_registered (options "Saga" name default_port) (register_trait_saga router) os

  -- `RunTraitProcessManagerServer`.
  abbrev run_trait_process_manager_server :
      (name default_port : String) → ProcessManagerRouter S → Os → Result (Registered S × ServerRun)
  run_trait_process_manager_server name default_port router os =
      run_registered (options "ProcessManager" name default_port)
        (register_trait_process_manager router) os

  -- `RunTraitProjectorServer`.
  abbrev run_trait_projector_server :
      (name default_port : String) → ProjectorRouter → Os → Result (Registered S × ServerRun)
  run_trait_projector_server name default_port router os =
      run_registered (options "Projector" name default_port) (register_trait_projector router) os

  -- `RunProjectorServer`.
  abbrev pub run_projector_server :
      (name default_port : String) → ProjectorHandler → Os → Result (Registered S × ServerRun)
  run_projector_server name default_port handler os =
      run_registered (options "Projector" name default_port) (register_projector handler) os

  -- `RunProcessManagerServer`.
  abbrev run_process_manager_server :
      (name default_port : String) → ProcessManagerHandler → Os → Result (Registered S × ServerRun)
  run_process_manager_server name default_port handler os =
      run_registered (options "ProcessManager" name default_port) (register_process_manager handler)
        os

  -- `RunOOCommandHandlerServer`.
  abbrev run_oo_command_handler_server :
      (domain default_port : String)
      → (Option EventBook → OoCommandHandler)
      → Os
      → Result (Registered S × ServerRun)
  run_oo_command_handler_server domain default_port factory os =
      run_registered (options "CommandHandler" domain default_port)
        (register_oo_command_handler domain factory) os

  -- `RunOOSagaServer`.
  abbrev run_oo_saga_server :
      (name default_port : String) → OoSaga → Os → Result (Registered S × ServerRun)
  run_oo_saga_server name default_port saga os =
      run_registered (options "Saga" name default_port) (register_oo_saga saga) os

  -- `RunOOProcessManagerServer`.
  abbrev run_oo_process_manager_server :
      (name default_port : String) → OoProcessManager → Os → Result (Registered S × ServerRun)
  run_oo_process_manager_server name default_port pm os =
      run_registered (options "ProcessManager" name default_port) (register_oo_process_manager pm)
        os

  -- `RunUpcasterServer`.
  abbrev run_upcaster_server :
      (name default_port : String) → UpcasterGrpcHandler → Os → Result (Registered S × ServerRun)
  run_upcaster_server name default_port handler os =
      run_registered (options "Upcaster" name default_port) (register_upcaster handler) os

  -- With any transport but "uds", a service whose address is not refused is served, with the health
  -- service and reflection beside it, on the port of the environment, else on its default port, and
  -- the health service reports it under the name of its kind.
  pub run_registered-tcp :
      (kind domain default_port : String) (service : Registered S) (os : Os)
      → is_uds os.environment ≡ false
      → refuses "tcp" (tcp_address join refuses (options kind domain default_port) os) ≡ none
      → run_registered (options kind domain default_port) service os
        ≡ ok (service, tcp_run join refuses (options kind domain default_port) os)
  run_registered-tcp kind domain default_port service os tcp free =
      ap (λ (r : Result ServerRun). r >>= λ run. ok (service, run))
        (run_server-tcp join refuses (options kind domain default_port) os tcp free)
