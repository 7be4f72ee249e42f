-- ===== src/Client/Connection.antt =====
-- The clients of client.go and how they connect. An endpoint is dialled under a retry policy, and the
-- variable `conn` keeps what the last call gave.
pub mod Reaching
use angzarr_client_go.Prelude.{ℕ, zero, suc, String, Option, none, some, GoMap}
use angzarr_client_go.Errors.{Error, Result, ok, err, ◌>>=◌, transport_error}
use angzarr_client_go.Retry.{
  Run, RetryPolicy, ExponentialBackoffRetry, default_retry_policy, policy_of,
}
use angzarr_client_go.Os.{Environment, getenv, or_default}
use angzarr_client_go.Client.Endpoint.{IntFormat, format_endpoint, resolve_ch_endpoint}
use angzarr_client_go.Client.Rpc.{Requests, Rpc, EventQueryStub, CommandHandlerStub, Action}
use angzarr_client_go.Proto.{Projection, SagaResponse, ProcessManagerHandleResponse}

module _ {W : Type 0} {requests : Requests} (rpc : Rpc W requests) where
  open rpc use {Conn, dial, query_stub, handler_stub, projector_stub, saga_stub, pm_stub}

  pub record QueryClient : Type 0 where
    pub inner : EventQueryStub W
    pub conn : Option Conn

  pub record CommandHandlerClient : Type 0 where
    pub inner : CommandHandlerStub W requests
    pub conn : Option Conn

  pub record SpeculativeClient : Type 0 where
    pub ch_stub : CommandHandlerStub W requests
    pub saga : Requests.SpeculateSaga requests → Action W SagaResponse
    pub projector : Requests.SpeculateProjector requests → Action W Projection
    pub pm : Requests.SpeculatePm requests → Action W ProcessManagerHandleResponse
    pub conn : Option Conn

  pub record DomainClient : Type 0 where
    pub command_handler : CommandHandlerClient
    pub query : QueryClient
    pub conn : Option Conn

  pub record Client : Type 0 where
    pub command_handler : CommandHandlerClient
    pub query : QueryClient
    pub speculative : SpeculativeClient
    pub conn : Option Conn

  -- `QueryClientFromConn`.
  abbrev pub query_client_from_conn : Option Conn → QueryClient
  query_client_from_conn conn = record { inner = query_stub conn; conn = conn }

  -- `CommandHandlerClientFromConn`.
  abbrev pub command_handler_client_from_conn : Option Conn → CommandHandlerClient
  command_handler_client_from_conn conn = record { inner = handler_stub conn; conn = conn }

  -- `SpeculativeClientFromConn`.
  abbrev pub speculative_client_from_conn : Option Conn → SpeculativeClient
  speculative_client_from_conn conn = record {
    ch_stub = handler_stub conn;
    saga = saga_stub conn;
    projector = projector_stub conn;
    pm = pm_stub conn;
    conn = conn;
  }

  -- `DomainClientFromConn`.
  abbrev pub domain_client_from_conn : Option Conn → DomainClient
  domain_client_from_conn conn = record {
    command_handler = command_handler_client_from_conn conn;
    query = query_client_from_conn conn;
    conn = conn;
  }

  -- `ClientFromConn`.
  abbrev client_from_conn : Option Conn → Client
  client_from_conn conn = record {
    command_handler = command_handler_client_from_conn conn;
    query = query_client_from_conn conn;
    speculative = speculative_client_from_conn conn;
    conn = conn;
  }

  abbrev pub conn_of : Result Conn → Option Conn
  conn_of (ok conn) = some conn
  conn_of (err e) = none

  abbrev pub error_of : Result Conn → Option Error
  error_of (ok conn) = none
  error_of (err e) = some e

  -- What the variable `conn` holds after so many calls of the operation.
  abbrev conn_after : String → ℕ → Option Conn
  conn_after target zero = none
  conn_after target (suc n) = conn_of (dial target n)

  abbrev pub connected : String → Run → Option Error → Result (Option Conn)
  connected target run none = ok (conn_after target run.calls)
  connected target run (some e) = err (transport_error e)

  -- `retry.Execute(func() error { conn, dialErr = grpc.NewClient(formatEndpoint(endpoint), …) … })`.
  abbrev pub connect : String → RetryPolicy → Result (Option Conn)
  connect endpoint retry =
      let run = retry (λ n. error_of (dial (format_endpoint endpoint) n)) in
      connected (format_endpoint endpoint) run run.result

  -- `NewQueryClientWithRetry`.
  abbrev new_query_client_with_retry : String → RetryPolicy → Result QueryClient
  new_query_client_with_retry endpoint retry =
      connect endpoint retry >>= λ conn. ok (query_client_from_conn conn)

  -- `NewCommandHandlerClientWithRetry`.
  abbrev new_command_handler_client_with_retry : String → RetryPolicy → Result CommandHandlerClient
  new_command_handler_client_with_retry endpoint retry =
      connect endpoint retry >>= λ conn. ok (command_handler_client_from_conn conn)

  -- `NewSpeculativeClientWithRetry`.
  abbrev new_speculative_client_with_retry : String → RetryPolicy → Result SpeculativeClient
  new_speculative_client_with_retry endpoint retry =
      connect endpoint retry >>= λ conn. ok (speculative_client_from_conn conn)

  -- `NewDomainClientWithRetry`.
  abbrev new_domain_client_with_retry : String → RetryPolicy → Result DomainClient
  new_domain_client_with_retry endpoint retry =
      connect endpoint retry >>= λ conn. ok (domain_client_from_conn conn)

  -- `NewClient`: one attempt, with no policy.
  abbrev new_client : String → Result Client
  new_client endpoint = elim (dial (format_endpoint endpoint) 0) [
    | ok conn ↦ ok (client_from_conn (some conn))
    | err e ↦ err (transport_error e)
  ]

  -- `ClientFromEnv`.
  abbrev client_from_env : Environment → (env_var default_endpoint : String) → Result Client
  client_from_env environment env_var default_endpoint =
      new_client (or_default (getenv environment env_var) default_endpoint)

  module _ (compute_delay : ExponentialBackoffRetry → ℕ → ℕ) where
    abbrev pub default_policy : RetryPolicy
    default_policy = policy_of compute_delay default_retry_policy

    -- `NewQueryClient`.
    abbrev pub new_query_client : String → Result QueryClient
    new_query_client endpoint = new_query_client_with_retry endpoint default_policy

    -- `NewCommandHandlerClient`.
    abbrev pub new_command_handler_client : String → Result CommandHandlerClient
    new_command_handler_client endpoint =
        new_command_handler_client_with_retry endpoint default_policy

    -- `NewSpeculativeClient`.
    abbrev pub new_speculative_client : String → Result SpeculativeClient
    new_speculative_client endpoint = new_speculative_client_with_retry endpoint default_policy

    -- `NewDomainClient`.
    abbrev pub new_domain_client : String → Result DomainClient
    new_domain_client endpoint = new_domain_client_with_retry endpoint default_policy

    -- `QueryClientFromEnv`.
    abbrev query_client_from_env :
        Environment → (env_var default_endpoint : String) → Result QueryClient
    query_client_from_env environment env_var default_endpoint =
        new_query_client (or_default (getenv environment env_var) default_endpoint)

    -- `CommandHandlerClientFromEnv`.
    abbrev command_handler_client_from_env :
        Environment → (env_var default_endpoint : String) → Result CommandHandlerClient
    command_handler_client_from_env environment env_var default_endpoint =
        new_command_handler_client (or_default (getenv environment env_var) default_endpoint)

    -- `SpeculativeClientFromEnv`.
    abbrev speculative_client_from_env :
        Environment → (env_var default_endpoint : String) → Result SpeculativeClient
    speculative_client_from_env environment env_var default_endpoint =
        new_speculative_client (or_default (getenv environment env_var) default_endpoint)

    -- `DomainClientFromEnv`.
    abbrev domain_client_from_env :
        Environment → (env_var default_endpoint : String) → Result DomainClient
    domain_client_from_env environment env_var default_endpoint =
        new_domain_client (or_default (getenv environment env_var) default_endpoint)

    -- `DomainClientForDomain`.
    unfoldable domain_client_for_domain :
        IntFormat → Environment → (domain mode : String) → Result DomainClient
    domain_client_for_domain format environment domain mode =
        new_domain_client (resolve_ch_endpoint format environment domain mode)
