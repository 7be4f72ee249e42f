-- ===== src/Client/Calls.antt =====
-- The methods of the clients of client.go.
pub mod Sending
use angzarr_client_go.Prelude.{String, Option, none, some, List}
use angzarr_client_go.Proto.{
  Query, EventBook, CommandBook, CommandRequest, CommandResponse, Projection, SagaResponse,
  ProcessManagerHandleResponse, SyncMode, sync_mode_async, cascade_error_fail_fast,
}
use angzarr_client_go.Errors.{Error, Result, ok, err, grpc_error}
use angzarr_client_go.Client.Rpc.{Requests, Rpc, Action, Stream, answered, receive_all}
use angzarr_client_go.Client.Connection.{
  QueryClient, CommandHandlerClient, SpeculativeClient, DomainClient, Client,
}

-- What `GetEvents` makes of the call that opens its stream.
abbrev pub received : {W : Type 0} → Result Stream × W → Result (List EventBook) × W
received (ok stream, world) = (ok (receive_all stream), world)
received (err e, world) = (err (grpc_error e), world)

-- `if c.conn != nil { return c.conn.Close() }; return nil`.
abbrev close_conn :
    {W Conn : Type 0} → (Conn → W → Option Error × W) → Option Conn → W → Option Error × W
close_conn close none world = (none, world)
close_conn close (some conn) world = close conn world

module _ {W : Type 0} {requests : Requests} {rpc : Rpc W requests} where
  -- `QueryClient.GetEventBook`.
  abbrev pub get_event_book : QueryClient rpc → Query → Action W EventBook
  get_event_book c query world = answered (c.inner.get_event_book query world)

  -- `QueryClient.GetEvents`.
  unfoldable pub get_events : QueryClient rpc → Query → Action W (List EventBook)
  unfolding receive_all
  get_events c query world = received (c.inner.get_events query world)

  -- `CommandHandlerClient.HandleCommand`.
  abbrev pub handle_command : CommandHandlerClient rpc → CommandRequest → Action W CommandResponse
  handle_command c request world = answered (c.inner.handle_command request world)

  -- `CommandHandlerClient.Handle`.
  unfoldable pub handle : CommandHandlerClient rpc → CommandBook → Action W CommandResponse
  handle c cmd = handle_command c (record {
    command = some cmd;
    sync_mode = sync_mode_async;
    cascade_error_mode = some cascade_error_fail_fast;
  })

  -- `CommandHandlerClient.HandleSyncSpeculative`.
  abbrev pub handle_sync_speculative :
      CommandHandlerClient rpc
      → Requests.SpeculateCommandHandler requests
      → Action W CommandResponse
  handle_sync_speculative c req world = answered (c.inner.handle_sync_speculative req world)

  -- `SpeculativeClient.CommandHandler`.
  abbrev speculate_command_handler :
      SpeculativeClient rpc → Requests.SpeculateCommandHandler requests → Action W CommandResponse
  speculate_command_handler c req world = answered (c.ch_stub.handle_sync_speculative req world)

  -- `SpeculativeClient.Projector`.
  abbrev speculate_projector :
      SpeculativeClient rpc → Requests.SpeculateProjector requests → Action W Projection
  speculate_projector c req world = answered (c.projector req world)

  -- `SpeculativeClient.Saga`.
  abbrev speculate_saga :
      SpeculativeClient rpc → Requests.SpeculateSaga requests → Action W SagaResponse
  speculate_saga c req world = answered (c.saga req world)

  -- `SpeculativeClient.ProcessManager`.
  abbrev speculate_process_manager :
      SpeculativeClient rpc → Requests.SpeculatePm requests → Action W ProcessManagerHandleResponse
  speculate_process_manager c req world = answered (c.pm req world)

  -- `DomainClient.Execute`.
  abbrev pub execute : DomainClient rpc → CommandBook → Action W CommandResponse
  execute c = handle c.command_handler

  -- `DomainClient.ExecuteWithMode`, which leaves the cascade error mode unset.
  unfoldable pub execute_with_mode :
      DomainClient rpc → CommandBook → SyncMode → Action W CommandResponse
  execute_with_mode c cmd mode =
      handle_command c.command_handler
        (record { command = some cmd; sync_mode = mode; cascade_error_mode = none })

  -- `QueryClient.Close`.
  abbrev close_query_client : QueryClient rpc → W → Option Error × W
  close_query_client c = close_conn rpc.close c.conn

  -- `CommandHandlerClient.Close`.
  abbrev close_command_handler_client : CommandHandlerClient rpc → W → Option Error × W
  close_command_handler_client c = close_conn rpc.close c.conn

  -- `SpeculativeClient.Close`.
  abbrev close_speculative_client : SpeculativeClient rpc → W → Option Error × W
  close_speculative_client c = close_conn rpc.close c.conn

  -- `DomainClient.Close`.
  abbrev close_domain_client : DomainClient rpc → W → Option Error × W
  close_domain_client c = close_conn rpc.close c.conn

  -- `Client.Close`.
  abbrev close_client : Client rpc → W → Option Error × W
  close_client c = close_conn rpc.close c.conn
