-- ===== src/Server/Socket.antt =====
-- The socket file of a server that server.go runs on a Unix socket.
use angzarr_client_go.Prelude.{
  String, ◌⧺◌, Option, none, true, false, List, ◌∷◌, ◌≡◌, refl, ap, ◌∙◌, if◌then◌else◌, eq_refl,
}
use angzarr_client_go.Errors.{Error, ok, err, plain}
use angzarr_client_go.Os.{Os, remove, without, exists, exists-without, without-without}
use angzarr_client_go.Server.{
  ServerOptions, Server, ServerRun, TransportConfig, is_uds, get_transport_config, listen_on,
  serve_on, services_of, serving, create_with, create_server, run_created, run_server, socket_path,
  transport_config, cleanup,
}
use angzarr_client_go.Server.Transport.{
  prepared, configured, is_uds-with_default_port, files-with_default_port,
}

module _ (join : String → String → String) (refuses : (network address : String) → Option Error)
    (opts : ServerOptions) (os : Os) where
  -- The path of the socket.
  abbrev pub path_of : String
  path_of = socket_path join (prepared join refuses opts os).environment

  abbrev uds_config : TransportConfig
  uds_config = record { network = "uds"; address = path_of }

  abbrev uds_server : Server
  uds_server = record {
    services = services_of opts;
    healthy = serving opts;
    listener = path_of;
    config = uds_config;
  }

  -- The `Os` with its default port and with these files.
  abbrev with_files : List String → Os
  with_files files = record (prepared join refuses opts os) { files = files }

  -- `CreateServer` on a Unix socket that is not refused removes the file at the socket's path, and
  -- makes the socket's there.
  pub create_server-uds :
      is_uds os.environment ≡ true
      → refuses "unix" path_of ≡ none
      → create_server join refuses opts os
        ≡ ok (uds_server, with_files (path_of ∷ without path_of os.files))
  unfolding create_server
  create_server-uds uds free =
      ap (create_with join refuses opts) (configured join refuses opts os true uds)
      ∙ ap
          (λ o.
            serve_on opts uds_config
              (listen_on o "unix" path_of (remove path_of (prepared join refuses opts os))))
          free
      ∙ ap
          (λ files.
            serve_on opts uds_config
              (listen_on none "unix" path_of (with_files (without path_of files))))
          (files-with_default_port opts os)
      ∙ ap
          (λ b. serve_on opts uds_config (
            if b
            then err (plain ("listen unix " ⧺ path_of ⧺ ": bind: address already in use"))
            else ok (path_of, with_files (path_of ∷ without path_of os.files))))
          (exists-without path_of os.files)

  -- `GetTransportConfig` once the server listens: it removes the socket's file again.
  configured_again :
      is_uds os.environment ≡ true
      → get_transport_config join (with_files (path_of ∷ without path_of os.files))
        ≡ (uds_config, with_files (without path_of os.files))
  configured_again uds =
      ap
        (λ b. (
          transport_config join (prepared join refuses opts os).environment b,
          if b
              then remove path_of (with_files (path_of ∷ without path_of os.files))
              else with_files (path_of ∷ without path_of os.files),
        ))
        (is_uds-with_default_port opts os ∙ uds)
      ∙ ap (λ files. (uds_config, with_files files)) again
    where
      again : without path_of (path_of ∷ without path_of os.files) ≡ without path_of os.files
      again = rw (eq_refl path_of) (without-without path_of os.files)

  -- A run on a Unix socket.
  abbrev uds_run : ServerRun
  uds_run = record {
    server = uds_server;
    printed = uds_config;
    while_serving = with_files (without path_of os.files);
    after = remove path_of (with_files (without path_of os.files));
  }

  -- A server that is run on a Unix socket that is not refused serves while there is no file at its
  -- socket's path: the second call of `GetTransportConfig` has removed it. Other files stay.
  pub run_server-uds :
      is_uds os.environment ≡ true
      → refuses "unix" path_of ≡ none
      → (run : ServerRun) × (run_server join refuses opts os ≡ ok run)
        × (run.server.listener ≡ path_of)
        × (run.while_serving.files ≡ without path_of os.files)
        × (exists path_of run.while_serving.files ≡ false)
  unfolding run_server
  run_server-uds uds free = (
    uds_run,
    ap (run_created join refuses) (create_server-uds uds free)
        ∙ ap
            (λ (c : TransportConfig × Os). ok (record {
              server = uds_server;
              printed = c.0;
              while_serving = c.1;
              after = cleanup uds_server c.1;
            }))
            (configured_again uds),
    refl,
    refl,
    exists-without path_of os.files,
  )
