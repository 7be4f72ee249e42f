-- ===== src/Client/Calls/Sending.antt =====
-- What the methods of the clients in client.go send and report.
use angzarr_client_go.Prelude.{Option, some, List, [], ◌∷◌, ◌≡◌, refl, ap, ◌∙◌}
use angzarr_client_go.Proto.{Query, EventBook, CommandBook, CommandRequest, SyncMode}
use angzarr_client_go.Errors.{Error, Result, ok, err, Code, grpc_error}
use angzarr_client_go.Errors.Client.{code}
use angzarr_client_go.Client.Rpc.{Requests, Rpc, Stream, item, fails, receive_all, answered}
use angzarr_client_go.Client.Connection.{QueryClient, DomainClient}
use angzarr_client_go.Client.Calls.{get_events, received, handle, execute, execute_with_mode}

-- A stream that gives the books and then the error.
abbrev pub stream_of : List EventBook → Error → Stream
stream_of [] e = fails e
stream_of (book ∷ books) e = item book (stream_of books e)

receive_all-stream_of :
    (books : List EventBook) (e : Error) → receive_all (stream_of books e) ≡ books
unfolding receive_all
receive_all-stream_of [] e = refl
receive_all-stream_of (book ∷ books) e = ap (λ bs. book ∷ bs) (receive_all-stream_of books e)

answered-error :
    {W A : Type 0} (r : Result A × W) (e : Error)
    → r.0 ≡ err e
    → (answered r).0 ≡ err (grpc_error e)
answered-error (ok a, world) e h = absurd (cc h)
answered-error (err d, world) e h = cc h

module _ {W : Type 0} {requests : Requests} (rpc : Rpc W requests) where
  -- `GetEvents` returns the books that came before the first error of the stream, all of them and in
  -- their order, and no error, whatever that error is.
  pub get_events-stream_of :
      (c : QueryClient rpc) (query : Query) (books : List EventBook) (e : Error) (world after : W)
      → c.inner.get_events query world ≡ (ok (stream_of books e), after)
      → get_events c query world ≡ (ok books, after)
  unfolding get_events
  get_events-stream_of c query books e world after opened =
      ap received opened ∙ ap (λ bs. (ok bs, after)) (receive_all-stream_of books e)

  -- The error that a service answers a command with keeps its code on the way through the client,
  -- whichever of `Handle`, `Execute` and `ExecuteWithMode` sends the command.
  pub answer-code :
      (from_error : Error → Option Code) (c : DomainClient rpc) (cmd : CommandBook)
      (mode : SyncMode) (world : W) (k : Code) (e : Error)
      → ((request : CommandRequest)
          → (c.command_handler.inner.handle_command request world).0 ≡ err e)
      → from_error e ≡ some k
      → ((execute c cmd world).0 ≡ err (grpc_error e))
        × ((execute_with_mode c cmd mode world).0 ≡ err (grpc_error e))
        × (code from_error (grpc_error e) ≡ k)
  unfolding handle execute_with_mode code
  answer-code from_error c cmd mode world k e refused read =
      (answered-error _ e (refused _), answered-error _ e (refused _), rw read refl)
