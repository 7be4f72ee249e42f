-- ===== src/Server/Transport.antt =====
-- The transport that server.go listens on.
use angzarr_client_go.Prelude.{
  String, ◌⧺◌, Option, none, Bool, true, false, ◌≡◌, ◌≢◌, refl, ap, ◌∙◌, str_eq, eq_iff,
  if◌then◌else◌, not, ◌&&◌, arith,
}
use angzarr_client_go.Errors.{Error, ok}
use angzarr_client_go.Os.{Os, getenv, or_default, setenv, remove, getenv-setenv, getenv-setenv_ne}
use angzarr_client_go.Server.{
  ServerOptions, ServerRun, TransportConfig, is_uds, with_default_port, transport_config,
  get_transport_config, listen_on, serve_on, create_with, run_created, run_server, socket_path,
  services_of, serving,
}

literal_differ : {s t : String} → str_eq s t ≡ false → s ≢ t
literal_differ {s} {t} h same = absurd (cc (h, (eq_iff s t).1 same))

module _ (opts : ServerOptions) (os : Os) where
  pub getenv-with_default_port :
      (name : String)
      → "PORT" ≢ name
      → getenv (with_default_port opts os).environment name ≡ getenv os.environment name
  getenv-with_default_port name h =
      go (not (str_eq opts.default_port "") && str_eq (getenv os.environment "PORT") "")
    where
      go :
          (b : Bool)
          → getenv (if b then setenv "PORT" opts.default_port os else os).environment name
            ≡ getenv os.environment name
      go true = getenv-setenv_ne "PORT" name opts.default_port os h
      go false = refl

  pub is_uds-with_default_port :
      is_uds (with_default_port opts os).environment ≡ is_uds os.environment
  is_uds-with_default_port =
      ap (λ transport. str_eq (or_default transport "tcp") "uds")
        (getenv-with_default_port "TRANSPORT_TYPE" (literal_differ refl))

  port-with_default_port :
      or_default (getenv (with_default_port opts os).environment "PORT") "50052"
      ≡ or_default (getenv os.environment "PORT") (or_default opts.default_port "50052")
  port-with_default_port = ground (arith, getenv-setenv "PORT" opts.default_port os)

pub files-with_default_port :
    (opts : ServerOptions) (os : Os) → (with_default_port opts os).files ≡ os.files
files-with_default_port opts os =
    go (not (str_eq opts.default_port "") && str_eq (getenv os.environment "PORT") "")
  where
    go : (b : Bool) → (if b then setenv "PORT" opts.default_port os else os).files ≡ os.files
    go true = refl
    go false = refl

module _ (join : String → String → String) (refuses : (network address : String) → Option Error)
    (opts : ServerOptions) (os : Os) where
  -- The environment once `CreateServer` has set its default port.
  abbrev pub prepared : Os
  prepared = with_default_port opts os

  pub configured :
      (b : Bool)
      → is_uds os.environment ≡ b
      → get_transport_config join prepared ≡ (
        transport_config join prepared.environment b,
        if b then remove (socket_path join prepared.environment) prepared else prepared,
      )
  configured b h =
      ap
        (λ c. (
          transport_config join prepared.environment c,
          if c then remove (socket_path join prepared.environment) prepared else prepared,
        ))
        (is_uds-with_default_port opts os ∙ h)

  -- The address of a TCP server: the port of the environment, else the default one of the options,
  -- else 50052.
  abbrev pub tcp_address : String
  tcp_address =
      "0.0.0.0:" ⧺ or_default (getenv os.environment "PORT") (or_default opts.default_port "50052")

  abbrev tcp_config : TransportConfig
  tcp_config = record { network = "tcp"; address = tcp_address }

  tcp_configured :
      is_uds os.environment ≡ false → get_transport_config join prepared ≡ (tcp_config, prepared)
  tcp_configured h =
      configured false h
      ∙ ap (λ port. (record { network = "tcp"; address = "0.0.0.0:" ⧺ port }, prepared))
          (port-with_default_port opts os)

  -- What a run on TCP is.
  abbrev pub tcp_run : ServerRun
  tcp_run = record {
    server = record {
      services = services_of opts;
      healthy = serving opts;
      listener = tcp_address;
      config = tcp_config;
    };
    printed = tcp_config;
    while_serving = prepared;
    after = prepared;
  }

  -- With any transport but "uds", a server whose address is not refused listens on the port of the
  -- environment, else on the default port of its options, else on 50052; it prints that address, and
  -- touches no file.
  pub run_server-tcp :
      is_uds os.environment ≡ false
      → refuses "tcp" tcp_address ≡ none
      → run_server join refuses opts os ≡ ok tcp_run
  unfolding run_server
  run_server-tcp tcp free =
      ap (λ c. run_created join refuses (create_with join refuses opts c)) (tcp_configured tcp)
      ∙ ap
          (λ o.
            run_created join refuses
              (serve_on opts tcp_config (listen_on o "tcp" tcp_address prepared)))
          free
      ∙ ap
          (λ (c : TransportConfig × Os).
            ok (record tcp_run { printed = c.0; while_serving = c.1; after = c.1 }))
          (tcp_configured tcp)
