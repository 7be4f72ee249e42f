-- ===== src/Tests/Transports.antt =====
-- Clients that connect and send, and servers that listen.
use angzarr_client_go.Prelude.{
  ℕ, zero, suc, ◌+◌, ◌<◌, String, ◌⧺◌, Option, none, some, true, false, [], ◌∷◌, ◌≡◌, refl, arith,
  lookup, has_prefix, eq_iff,
}
use angzarr_client_go.Proto.{Query, Selection, empty_event_book}
use angzarr_client_go.Errors.{Error, Result, ok, err, plain, transport_error}
use angzarr_client_go.Errors.Client.{is_connection_error}
use angzarr_client_go.Builder.Execution.{CommandCall, execute, command, command_new}
use angzarr_client_go.Builder.Execution.Sent.{
  filled, request_of, execute-filled, execute_incomplete,
}
use angzarr_client_go.Os.{Os, Environment, without, exists}
use angzarr_client_go.Retry.{ExponentialBackoffRetry}
use angzarr_client_go.Client.Endpoint.{IntFormat, format_endpoint, resolve_ch_endpoint}
use angzarr_client_go.Client.Endpoint.Targets.{target-injective}
use angzarr_client_go.Client.Rpc.{Requests, Rpc, answered}
use angzarr_client_go.Client.Connection.{
  query_client_from_conn, command_handler_client_from_conn, speculative_client_from_conn,
  domain_client_from_conn, new_query_client, new_command_handler_client, new_speculative_client,
  new_domain_client,
}
use angzarr_client_go.Client.Connection.Reaching.{
  Fails, new_clients-connected, new_clients-unreachable,
}
use angzarr_client_go.Client.Calls.{get_events}
use angzarr_client_go.Client.Calls.Sending.{stream_of, get_events-stream_of}
use angzarr_client_go.Server.{ServerOptions, ServerRun, run_server}
use angzarr_client_go.Server.Transport.{tcp_run, run_server-tcp}
use angzarr_client_go.Server.Socket.{path_of, run_server-uds}
use angzarr_client_go.Tests.Clients.{lib}

-- The environment of a standalone process, and a decimal format that knows one number.
abbrev standalone : Environment
standalone = ("ANGZARR_MODE", "standalone") ∷ []

abbrev format : IntFormat
format = record { scan = λ s. none; print = λ n. "1310" }

abbrev bank : String
bank = "bank"

target-injective_example : bank ≡ bank
unfolding resolve_ch_endpoint format_endpoint lookup has_prefix
target-injective_example = target-injective format standalone bank bank "" refl

abbrev requests : Requests
requests = record {
  SpeculateCommandHandler = Unit;
  SpeculateProjector = Unit;
  SpeculateSaga = Unit;
  SpeculatePm = Unit;
}

-- The second dial succeeds. The world counts the calls; a stream gives one book and breaks off.
abbrev second : ℕ → Result ℕ
second zero = err (plain "refused")
second (suc n) = ok n

abbrev rpc_of : (ℕ → Result ℕ) → Rpc ℕ requests
rpc_of dial = record {
  Conn = ℕ;
  dial = λ target n. dial n;
  close = λ conn world. (none, world);
  query_stub = λ conn. record {
    get_event_book = λ query world. (ok empty_event_book, world + 1);
    get_events = λ query world.
        (ok (stream_of (empty_event_book ∷ []) (plain "connection reset")), world + 1);
  };
  handler_stub = λ conn. record {
    handle_command = λ request world. (ok (record { events = none }), world + 1);
    handle_sync_speculative = λ request world. (err (plain "no"), world + 1);
  };
  projector_stub = λ conn request world. (err (plain "no"), world + 1);
  saga_stub = λ conn request world. (err (plain "no"), world + 1);
  pm_stub = λ conn request world. (err (plain "no"), world + 1);
}

abbrev rpc : Rpc ℕ requests
rpc = rpc_of second

abbrev no_delay : ExponentialBackoffRetry → ℕ → ℕ
no_delay r attempt = 0

first-Fails : (k : ℕ) → k < 1 → Fails rpc no_delay "host:1310" k
first-Fails zero h = (plain "refused", refl)
first-Fails (suc k) h = absurd (omega (arith, h))

new_clients-connected_example :
    (new_query_client rpc no_delay "host:1310" ≡ ok (query_client_from_conn rpc (some 0)))
    × (new_command_handler_client rpc no_delay "host:1310"
        ≡ ok (command_handler_client_from_conn rpc (some 0)))
    × (new_speculative_client rpc no_delay "host:1310"
        ≡ ok (speculative_client_from_conn rpc (some 0)))
    × (new_domain_client rpc no_delay "host:1310" ≡ ok (domain_client_from_conn rpc (some 0)))
new_clients-connected_example =
    new_clients-connected rpc no_delay "host:1310" 1 0 (omega arith) first-Fails refl

abbrev refused : Error
refused = plain "refused"

abbrev unreachable : Rpc ℕ requests
unreachable = rpc_of (λ n. err refused)

new_clients-unreachable_example :
    (new_query_client unreachable no_delay "host:1310" ≡ err (transport_error refused))
    × (new_command_handler_client unreachable no_delay "host:1310" ≡ err (transport_error refused))
    × (new_speculative_client unreachable no_delay "host:1310" ≡ err (transport_error refused))
    × (new_domain_client unreachable no_delay "host:1310" ≡ err (transport_error refused))
    × (is_connection_error (transport_error refused) ≡ true)
new_clients-unreachable_example =
    new_clients-unreachable unreachable no_delay "host:1310" refused (λ k h. (refused, refl)) refl

abbrev query : Query
query = record { cover = none; selection = Selection.unset }

get_events-stream_of_example :
    get_events (query_client_from_conn rpc none) query 7 ≡ (ok (empty_event_book ∷ []), 8)
get_events-stream_of_example =
    get_events-stream_of rpc (query_client_from_conn rpc none) query (empty_event_book ∷ [])
      (plain "connection reset") 7 8 refl

execute-filled_example :
    (execute
        (filled rpc lib
          (λ e. "")
          "c-1"
          2
          4
          "bank.Add"
          (5 ∷ [])
          (command (command_handler_client_from_conn rpc (some 0)) "bank" (9 ∷ [])))
        []
        7
      ≡ answered (
          (command_handler_client_from_conn rpc (some 0)).inner.handle_command
            (request_of rpc lib "bank"
              (some (record { value = 9 ∷ [] }))
              "c-1"
              2
              4
              "bank.Add"
              (5 ∷ []))
            7))
    × (execute
          (filled rpc lib
            (λ e. "")
            "c-1"
            2
            4
            "bank.Add"
            (5 ∷ [])
            (command_new (command_handler_client_from_conn rpc (some 0)) "bank"))
          []
          7
        ≡ answered (
            (command_handler_client_from_conn rpc (some 0)).inner.handle_command
              (request_of rpc lib "bank" none "c-1" 2 4 "bank.Add" (5 ∷ []))
              7))
execute-filled_example =
    execute-filled rpc lib (command_handler_client_from_conn rpc (some 0)) "bank" (9 ∷ []) (λ e. "")
      "c-1" 2 4 "bank.Add" (5 ∷ []) [] 7 (λ e. cc ((eq_iff "bank.Add" "").1 e))

abbrev blank_call : CommandCall rpc lib
blank_call = command_new (command_handler_client_from_conn rpc (some 0)) "bank"

execute_incomplete_example : (e : Error) × (execute blank_call [] 7 ≡ (err e, 7))
execute_incomplete_example = execute_incomplete rpc lib blank_call [] 7 (λ payload h. h.typed refl)

abbrev options : ServerOptions
options = record {
  service_name = "saga";
  domain = "bank";
  default_port = "50060";
  enable_reflection = true;
}

-- `filepath.Join` of a clean directory and a name, and addresses that nobody refuses.
abbrev join : String → String → String
join directory name = directory ⧺ "/" ⧺ name

abbrev free : String → String → Option Error
free network address = none

abbrev on_tcp : Os
on_tcp = record { environment = []; files = [] }

run_server-tcp_example : run_server join free options on_tcp ≡ ok (tcp_run join free options on_tcp)
unfolding lookup
run_server-tcp_example = run_server-tcp join free options on_tcp refl refl

-- Two files: one at the socket's path, and another.
abbrev on_uds : Os
on_uds = record {
  environment = ("TRANSPORT_TYPE", "uds") ∷ ("DOMAIN", "bank") ∷ [];
  files = "/tmp/angzarr/business-bank.sock" ∷ "/tmp/other" ∷ [];
}

run_server-uds_example :
    (run : ServerRun) × (run_server join free options on_uds ≡ ok run)
    × (run.server.listener ≡ path_of join free options on_uds)
    × (run.while_serving.files ≡ without (path_of join free options on_uds) on_uds.files)
    × (exists (path_of join free options on_uds) run.while_serving.files ≡ false)
unfolding lookup
run_server-uds_example = run_server-uds join free options on_uds refl refl
