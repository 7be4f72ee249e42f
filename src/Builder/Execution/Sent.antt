-- ===== src/Builder/Execution/Sent.antt =====
-- What `Execute` and the query methods of builder.go send.
use angzarr_client_go.Prelude.{
  ℕ, String, Option, none, some, [], ◌∷◌, ◌≡◌, ◌≢◌, refl, ap, str_eq, if◌then◌else◌,
}
use angzarr_client_go.Proto.{
  Bytes, ProtoUuid, SequenceType, EventBook, CommandBook, CommandRequest, sync_mode_async,
  cascade_error_fail_fast,
}
use angzarr_client_go.Errors.{Error, Result, ok, err}
use angzarr_client_go.Helpers.Uuid.{UuidLib}
use angzarr_client_go.Client.Rpc.{Requests, Rpc, answered}
use angzarr_client_go.Client.Calls.{handle, get_event_book, get_events}
use angzarr_client_go.Client.Connection.{CommandHandlerClient}
use angzarr_client_go.Builder.{
  command_book, build, build_query, query_checked, with_correlation_id, with_merge_strategy,
  with_sequence, with_command,
}
use angzarr_client_go.Builder.Commands.{IsComplete, build_of_IsComplete, IsComplete-of_build}
use angzarr_client_go.Builder.Execution.{
  CommandCall, QueryCall, command, command_new, send, ask, execute, query_event_book, query_events,
  query_pages, pages_of,
}

module _ {W : Type 0} {requests : Requests} (rpc : Rpc W requests) (lib : UuidLib) where
  -- A call whose builder has no failed call, a type URL, a payload and a sequence sends one request:
  -- the command book of the builder's fields, asynchronous and failing fast.
  execute_of_IsComplete :
      (call : CommandCall rpc lib) (fresh : UuidLib.Uuid lib) (payload : Bytes) (world : W)
      → IsComplete call.builder payload
      → execute call fresh world
        ≡ answered (
            call.client.inner.handle_command
              (record {
                command = some (
                    command_book call.builder
                      (if str_eq call.builder.correlation_id ""
                        then UuidLib.text lib fresh
                        else call.builder.correlation_id)
                      payload);
                sync_mode = sync_mode_async;
                cascade_error_mode = some cascade_error_fail_fast;
              })
              world)
  unfolding execute handle
  execute_of_IsComplete call fresh payload world h =
      ap (λ r. send call.client r world) (build_of_IsComplete call.builder fresh payload h)

  -- A call with a correlation id, a merge strategy, a sequence and a message set on it.
  abbrev pub filled :
      (error_text : Error → String) (id : String) (strategy seq : ℕ) (type_url : String)
      (payload : Bytes)
      → CommandCall rpc lib
      → CommandCall rpc lib
  filled error_text id strategy seq type_url payload call = record call {
    builder =
        with_command error_text
          (with_sequence (with_merge_strategy (with_correlation_id call.builder id) strategy) seq)
          type_url (ok (some payload));
  }

  -- The request of such a call.
  abbrev pub request_of :
      (domain : String)
      → Option ProtoUuid
      → (id : String) (strategy seq : ℕ) (type_url : String) (payload : Bytes) → CommandRequest
  request_of domain root id strategy seq type_url payload = record {
    command = some (record {
      cover = some (record { domain = domain; root = root; correlation_id = id; edition = none });
      pages =
          record {
            header = some (record { sequence_type = SequenceType.sequence seq });
            command = some (record { type_url = type_url; value = payload });
            merge_strategy = strategy;
          }
          ∷ [];
    });
    sync_mode = sync_mode_async;
    cascade_error_mode = some cascade_error_fail_fast;
  }

  -- A call that `Command` or `CommandNew` of a client starts, and on which a correlation id, a merge
  -- strategy, a sequence and a message with a type URL are set, sends one request: one page with
  -- that sequence, message and strategy, under a cover with the domain, the correlation id, or a new
  -- one for an empty one, and the root of `Command`, and none of `CommandNew`; asynchronous and
  -- failing fast.
  pub execute-filled :
      (client : CommandHandlerClient rpc) (domain : String) (root : UuidLib.Uuid lib)
      (error_text : Error → String) (id : String) (strategy seq : ℕ) (type_url : String)
      (payload : Bytes) (fresh : UuidLib.Uuid lib) (world : W)
      → type_url ≢ ""
      → let sent_id = if str_eq id "" then UuidLib.text lib fresh else id in
        (execute
            (filled error_text id strategy seq type_url payload (command client domain root))
            fresh
            world
          ≡ answered (
              client.inner.handle_command
                (request_of domain
                  (some (record { value = UuidLib.bytes lib root }))
                  sent_id
                  strategy
                  seq
                  type_url
                  payload)
                world))
        × (execute
              (filled error_text id strategy seq type_url payload (command_new client domain))
              fresh
              world
            ≡ answered (
                client.inner.handle_command
                  (request_of domain none sent_id strategy seq type_url payload)
                  world))
  execute-filled client domain root error_text id strategy seq type_url payload fresh world typed =
      (
        execute_of_IsComplete
            (filled error_text id strategy seq type_url payload (command client domain root)) fresh
            payload world
            (record { no_error = refl; typed = typed; paid = refl; sequenced = refl }),
        execute_of_IsComplete
            (filled error_text id strategy seq type_url payload (command_new client domain)) fresh
            payload world
            (record { no_error = refl; typed = typed; paid = refl; sequenced = refl }),
      )

  -- A call whose builder is not complete sends nothing: the world stays as it is and there is an
  -- error.
  pub execute_incomplete :
      (call : CommandCall rpc lib) (fresh : UuidLib.Uuid lib) (world : W)
      → ((payload : Bytes) → ¬ IsComplete call.builder payload)
      → (e : Error) × (execute call fresh world ≡ (err e, world))
  unfolding execute
  execute_incomplete call fresh world h = go (build call.builder fresh) refl
    where
      go :
          (r : Result CommandBook)
          → build call.builder fresh ≡ r
          → (e : Error) × (execute call fresh world ≡ (err e, world))
      go (err e) same = (e, ap (λ r. send call.client r world) same)
      go (ok book) same =
          let (payload, complete) = IsComplete-of_build call.builder fresh book same in
          absurd (h payload complete)

  -- The pages that a query gives are those of the book that it gives, and the two calls leave the
  -- same world.
  pub query_pages-book :
      (call : QueryCall rpc lib) (book : EventBook) (world after : W)
      → query_event_book call world ≡ (ok book, after)
      → query_pages call world ≡ (ok book.pages, after)
  unfolding query_pages
  query_pages-book call book world after h = ap pages_of h

  -- A query builder with a failed call asks nothing: its three query methods return that error and
  -- leave the world as it is.
  pub query_of_error :
      (call : QueryCall rpc lib) (e : Error) (world : W)
      → call.builder.error ≡ some e
      → (query_event_book call world ≡ (err e, world))
        × (query_events call world ≡ (err e, world))
        × (query_pages call world ≡ (err e, world))
  unfolding query_event_book query_events query_pages build_query
  query_of_error call e world h =
      let failed : build_query call.builder ≡ err e = ap (query_checked call.builder) h in
      (
        ap (λ r. ask (get_event_book call.client) r world) failed,
        ap (λ r. ask (get_events call.client) r world) failed,
        ap (λ r. pages_of (ask (get_event_book call.client) r world)) failed,
      )
