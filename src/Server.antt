-- ===== src/Server.antt =====
-- server.go: the transport of a service, and how its server is started and stopped. What the code
-- does to the process's environment and to the socket files is a change of the `Os`; the
-- directory that is made for the sockets is left out, and so are the messages that are printed.
-- `filepath.Join` and `net.Listen` are those of Go: the first is the parameter `join`, the second
-- gives an error that is a parameter, and on the network "unix" it makes the socket file.
pub mod Transport
pub mod Socket
use angzarr_client_go.Prelude.{
  String, ◌⧺◌, Option, none, some, Bool, true, false, List, [], ◌∷◌, not, ◌&&◌, str_eq,
  if◌then◌else◌,
}
use angzarr_client_go.Errors.{Error, Result, ok, err, plain, wrapped}
use angzarr_client_go.Os.{Os, Environment, getenv, or_default, setenv, remove, exists}

-- `TransportConfig`; its `Type` is the field `network`.
pub record TransportConfig : Type 0 where
  pub network : String
  pub address : String

-- `ServerOptions`.
pub record ServerOptions : Type 0 where
  pub service_name : String
  pub domain : String
  pub default_port : String
  pub enable_reflection : Bool

-- The qualifier of a socket's name.
abbrev qualifier_of : Environment → String
qualifier_of environment =
    or_default (or_default (getenv environment "DOMAIN") (getenv environment "SAGA_NAME"))
      (getenv environment "PROJECTOR_NAME")

abbrev socket_name : (service_name qualifier : String) → String
socket_name service_name qualifier =
    if str_eq qualifier "" then service_name ⧺ ".sock" else service_name ⧺ "-" ⧺ qualifier ⧺ ".sock"

abbrev pub is_uds : Environment → Bool
is_uds environment = str_eq (or_default (getenv environment "TRANSPORT_TYPE") "tcp") "uds"

-- The `PORT` that is set at the start of `CreateServer`.
abbrev pub with_default_port : ServerOptions → Os → Os
with_default_port opts os =
    if not (str_eq opts.default_port "") && str_eq (getenv os.environment "PORT") ""
    then setenv "PORT" opts.default_port os
    else os

-- `net.Listen`, which refuses a socket path at which there is a file; `refuses` is a further error
-- that it may have.
abbrev pub listen_on : Option Error → String → String → Os → Result (String × Os)
listen_on (some e) network address os = err e
listen_on none network address os =
    if str_eq network "unix"
    then (if exists address os.files
        then err (plain ("listen unix " ⧺ address ⧺ ": bind: address already in use"))
        else ok (address, record os { files = address ∷ os.files }))
    else ok (address, os)

-- What is registered on a server: by the registrar, and the services of the gRPC library.
pub data Service : Type 0 where
  main_service health_service reflection_service : Service

abbrev pub services_of : ServerOptions → List Service
services_of opts =
    if opts.enable_reflection
    then main_service ∷ health_service ∷ reflection_service ∷ []
    else main_service ∷ health_service ∷ []

-- The names that the health service reports as serving.
abbrev pub serving : ServerOptions → List String
serving opts = if str_eq opts.service_name "" then "" ∷ [] else "" ∷ opts.service_name ∷ []

-- What `CreateServer` makes: the server, the listener's address, and the configuration that the
-- cleanup function holds on to.
pub record Server : Type 0 where
  pub services : List Service
  pub healthy : List String
  pub listener : String
  pub config : TransportConfig

abbrev pub serve_on : ServerOptions → TransportConfig → Result (String × Os) → Result (Server × Os)
serve_on opts config (err e) = err (wrapped "failed to listen: " e)
serve_on opts config (ok (listener, os)) = ok (
  record {
    services = services_of opts;
    healthy = serving opts;
    listener = listener;
    config = config;
  },
  os,
)

abbrev network_of : TransportConfig → String
network_of config = if str_eq config.network "uds" then "unix" else "tcp"

-- The cleanup function that `CreateServer` returns.
abbrev pub cleanup : Server → Os → Os
cleanup server os =
    if str_eq server.config.network "uds" then remove server.config.address os else os

-- `CleanupSocket`.
abbrev cleanup_socket : String → Os → Os
cleanup_socket socket_path os = if str_eq socket_path "" then os else remove socket_path os

-- A run: what was served, the configuration that is printed, the `Os` while the server serves, and
-- the one after the cleanup.
pub record ServerRun : Type 0 where
  pub server : Server
  pub printed : TransportConfig
  pub while_serving : Os
  pub after : Os

module _ (join : String → String → String) where
  -- `socketPath`.
  abbrev pub socket_path : Environment → String
  socket_path environment = join (or_default (getenv environment "UDS_BASE_PATH") "/tmp/angzarr") (
      socket_name (or_default (getenv environment "SERVICE_NAME") "business")
        (qualifier_of environment))

  abbrev pub transport_config : Environment → Bool → TransportConfig
  transport_config environment true = record { network = "uds"; address = socket_path environment }
  transport_config environment false = record {
    network = "tcp";
    address = "0.0.0.0:" ⧺ or_default (getenv environment "PORT") "50052";
  }

  -- `GetTransportConfig`, which removes the file at the socket's path.
  abbrev pub get_transport_config : Os → TransportConfig × Os
  get_transport_config os =
      let uds = is_uds os.environment in
      (
        transport_config os.environment uds,
        if uds then remove (socket_path os.environment) os else os,
      )

  module _ (refuses : (network address : String) → Option Error) where
    abbrev pub create_with : ServerOptions → TransportConfig × Os → Result (Server × Os)
    create_with opts (config, os) = serve_on opts config (
        listen_on (refuses (network_of config) config.address) (network_of config) config.address
          os)

    -- `CreateServer`; the error is its panic.
    unfoldable pub create_server : ServerOptions → Os → Result (Server × Os)
    create_server opts os = create_with opts (get_transport_config (with_default_port opts os))

    abbrev pub run_created : Result (Server × Os) → Result ServerRun
    run_created (err e) = err e
    run_created (ok (server, os)) =
        let (config, now) = get_transport_config os in
        ok (record {
          server = server;
          printed = config;
          while_serving = now;
          after = cleanup server now;
        })

    -- `RunServer`, on a server that is stopped at some time.
    unfoldable pub run_server : ServerOptions → Os → Result ServerRun
    unfolding create_server
    run_server opts os = run_created (create_server opts os)
