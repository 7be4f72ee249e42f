-- ===== src/Client/Rpc.antt =====
-- The gRPC library and the generated stubs that client.go calls. They are not part of the
-- repository: they are the parameter `Rpc`. A call may change the world `W` beyond the process, and
-- returns a result or an error. A `context.Context` is left out.
use angzarr_client_go.Prelude.{ℕ, String, Option, List, [], ◌∷◌}
use angzarr_client_go.Proto.{
  Query, EventBook, CommandRequest, CommandResponse, Projection, SagaResponse,
  ProcessManagerHandleResponse,
}
use angzarr_client_go.Errors.{Error, Result, ok, err, grpc_error}

-- A call: the world comes back after an error too.
abbrev pub Action : Type 0 → Type 0 → Type 0
Action W A = W → Result A × W

-- What `Recv` returns on a stream, call after call, up to its first error, which is `io.EOF` where
-- the server ended the stream. A stream on which `Recv` never fails has no end, and is left out.
pub data Stream : Type 0 where
  item : EventBook → Stream → Stream
  fails : Error → Stream

module _ (W : Type 0) where
  pub record EventQueryStub : Type 0 where
    pub get_event_book : Query → Action W EventBook
    pub get_events : Query → Action W Stream

-- The types of the speculative requests, whose fields the code does not read.
pub record Requests : Type 1 where
  pub SpeculateCommandHandler : Type 0
  pub SpeculateProjector : Type 0
  pub SpeculateSaga : Type 0
  pub SpeculatePm : Type 0

module _ (W : Type 0) (requests : Requests) where
  open requests use {SpeculateCommandHandler, SpeculateProjector, SpeculateSaga, SpeculatePm}

  pub record CommandHandlerStub : Type 0 where
    pub handle_command : CommandRequest → Action W CommandResponse
    pub handle_sync_speculative : SpeculateCommandHandler → Action W CommandResponse

  pub record Rpc : Type 1 where
    pub Conn : Type 0
    -- `grpc.NewClient` on a target: the result of its calls, by their number.
    pub dial : String → ℕ → Result Conn
    pub close : Conn → W → Option Error × W
    -- The stubs that the generated constructors make of a connection, which may be nil.
    pub query_stub : Option Conn → EventQueryStub W
    pub handler_stub : Option Conn → CommandHandlerStub
    pub projector_stub : Option Conn → SpeculateProjector → Action W Projection
    pub saga_stub : Option Conn → SpeculateSaga → Action W SagaResponse
    pub pm_stub : Option Conn → SpeculatePm → Action W ProcessManagerHandleResponse

module _ {W : Type 0} {A : Type 0} where
  -- `if err != nil { return nil, GRPCError(err) }; return resp, nil`.
  abbrev pub answered : Result A × W → Result A × W
  answered (ok resp, world) = (ok resp, world)
  answered (err e, world) = (err (grpc_error e), world)

-- The loop of `GetEvents`: it breaks on the first error.
unfoldable pub receive_all : Stream → List EventBook
receive_all (fails e) = []
receive_all (item book stream) = book ∷ receive_all stream
