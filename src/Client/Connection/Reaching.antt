-- ===== src/Client/Connection/Reaching.antt =====
-- Whom the clients of client.go reach, under the default retry policy of retry.go.
use angzarr_client_go.Prelude.{ℕ, ◌<◌, String, none, some, ◌≡◌, refl, ap, ◌∙◌, true}
use angzarr_client_go.Errors.{Error, ok, err, ◌>>=◌, transport_error}
use angzarr_client_go.Errors.Client.{is_connection_error}
use angzarr_client_go.Retry.{ExponentialBackoffRetry, Run, default_retry_policy, policy_of, execute}
use angzarr_client_go.Retry.Attempts.{delays, execute-success, execute-exhausted}
use angzarr_client_go.Client.Endpoint.{format_endpoint}
use angzarr_client_go.Client.Rpc.{Requests, Rpc}
use angzarr_client_go.Client.Connection.{
  conn_of, error_of, connected, connect, default_policy, query_client_from_conn,
  command_handler_client_from_conn, speculative_client_from_conn, domain_client_from_conn,
  new_query_client, new_command_handler_client, new_speculative_client, new_domain_client,
}

module _ {W : Type 0} {requests : Requests} (rpc : Rpc W requests)
    (compute_delay : ExponentialBackoffRetry → ℕ → ℕ) (endpoint : String) where
  open rpc use {Conn, dial}

  -- The dial number `k` fails, with some error.
  abbrev pub Fails : ℕ → Type 0
  Fails k = (e : Error) × (dial (format_endpoint endpoint) k ≡ err e)

  failed :
      (k : ℕ) → Fails k → (e : Error) × (error_of rpc (dial (format_endpoint endpoint) k) ≡ some e)
  failed k (e, h) = (e, ap (error_of rpc) h)

  connect-success :
      (n : ℕ) (conn : Conn)
      → n < 10
      → ((k : ℕ) → k < n → Fails k)
      → dial (format_endpoint endpoint) n ≡ ok conn
      → connect rpc endpoint (default_policy rpc compute_delay) ≡ ok (some conn)
  connect-success n conn less fails works =
      ap (λ (run : Run). connected rpc (format_endpoint endpoint) run run.result)
        (execute-success (compute_delay default_retry_policy)
          (λ k. error_of rpc (dial (format_endpoint endpoint) k)) n 10 less
          (λ k h. failed k (fails k h)) (ap (error_of rpc) works))
      ∙ ap (λ r. ok (conn_of rpc r)) works

  connect-exhausted :
      (e : Error)
      → ((k : ℕ) → k < 10 → Fails k)
      → dial (format_endpoint endpoint) 9 ≡ err e
      → connect rpc endpoint (default_policy rpc compute_delay) ≡ err (transport_error e)
  connect-exhausted e fails last =
      ap (λ (run : Run). connected rpc (format_endpoint endpoint) run run.result)
        (execute-exhausted (compute_delay default_retry_policy)
          (λ k. error_of rpc (dial (format_endpoint endpoint) k)) 9 (λ k h. failed k (fails k h)))
      ∙ ap (λ r. connected rpc (format_endpoint endpoint) all_ten (error_of rpc r)) last
    where
      all_ten : Run
      all_ten = record {
        calls = 10;
        sleeps = delays (compute_delay default_retry_policy) 9 0;
        result = error_of rpc (dial (format_endpoint endpoint) 9);
      }

  -- When a dial succeeds within ten attempts, every client that is made under the default policy
  -- holds the connection of the first dial that did.
  pub new_clients-connected :
      (n : ℕ) (conn : Conn)
      → n < 10
      → ((k : ℕ) → k < n → Fails k)
      → dial (format_endpoint endpoint) n ≡ ok conn
      → (new_query_client rpc compute_delay endpoint ≡ ok (query_client_from_conn rpc (some conn)))
        × (new_command_handler_client rpc compute_delay endpoint
            ≡ ok (command_handler_client_from_conn rpc (some conn)))
        × (new_speculative_client rpc compute_delay endpoint
            ≡ ok (speculative_client_from_conn rpc (some conn)))
        × (new_domain_client rpc compute_delay endpoint
            ≡ ok (domain_client_from_conn rpc (some conn)))
  new_clients-connected n conn less fails works =
      let reached = connect-success n conn less fails works in
      (
        ap (λ r. r >>= λ c. ok (query_client_from_conn rpc c)) reached,
        ap (λ r. r >>= λ c. ok (command_handler_client_from_conn rpc c)) reached,
        ap (λ r. r >>= λ c. ok (speculative_client_from_conn rpc c)) reached,
        ap (λ r. r >>= λ c. ok (domain_client_from_conn rpc c)) reached,
      )

  -- When ten dials fail, no client is made under the default policy: the result is the last dial's
  -- error, wrapped, and it is a connection error.
  pub new_clients-unreachable :
      (e : Error)
      → ((k : ℕ) → k < 10 → Fails k)
      → dial (format_endpoint endpoint) 9 ≡ err e
      → (new_query_client rpc compute_delay endpoint ≡ err (transport_error e))
        × (new_command_handler_client rpc compute_delay endpoint ≡ err (transport_error e))
        × (new_speculative_client rpc compute_delay endpoint ≡ err (transport_error e))
        × (new_domain_client rpc compute_delay endpoint ≡ err (transport_error e))
        × (is_connection_error (transport_error e) ≡ true)
  unfolding is_connection_error
  new_clients-unreachable e fails last =
      let lost = connect-exhausted e fails last in
      (
        ap (λ r. r >>= λ c. ok (query_client_from_conn rpc c)) lost,
        ap (λ r. r >>= λ c. ok (command_handler_client_from_conn rpc c)) lost,
        ap (λ r. r >>= λ c. ok (speculative_client_from_conn rpc c)) lost,
        ap (λ r. r >>= λ c. ok (domain_client_from_conn rpc c)) lost,
        refl,
      )

-- Under a policy of no attempts nothing is dialled, and a client without a connection is returned
-- with no error.
no_attempts-connected :
    {W : Type 0} {requests : Requests} (rpc : Rpc W requests)
    (compute_delay : ExponentialBackoffRetry → ℕ → ℕ) (endpoint : String)
    → connect rpc endpoint
        (policy_of compute_delay (record default_retry_policy { max_attempts = 0 }))
      ≡ ok none
unfolding execute
no_attempts-connected rpc compute_delay endpoint = refl
