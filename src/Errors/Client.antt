-- ===== src/Errors/Client.antt =====
-- The methods of `ClientError` in errors.go that classify it. `status.FromError` is the gRPC status
-- package's: it is the parameter `from_error`, the code of the status that it finds, if any.
use angzarr_client_go.Prelude.{Option, none, some, Bool, true, false, ◌||◌}
use angzarr_client_go.Errors.{
  Error, Code, client, client_cause, err_grpc, err_invalid_argument, err_connection, err_transport,
  unknown, not_found, failed_precondition, invalid_argument,
}

abbrev is_code_not_found : Code → Bool
is_code_not_found not_found = true
is_code_not_found _ = false

abbrev is_code_failed_precondition : Code → Bool
is_code_failed_precondition failed_precondition = true
is_code_failed_precondition _ = false

abbrev is_code_invalid_argument : Code → Bool
is_code_invalid_argument invalid_argument = true
is_code_invalid_argument _ = false

abbrev is_kind_invalid_argument : Error → Bool
is_kind_invalid_argument (client err_invalid_argument msg) = true
is_kind_invalid_argument (client_cause err_invalid_argument msg e) = true
is_kind_invalid_argument _ = false

module _ (from_error : Error → Option Code) where
  -- `Code`, on a `ClientError`.
  unfoldable pub code : Error → Code
  code (client_cause err_grpc msg e) = elim (from_error e) [ some c ↦ c | none ↦ unknown ]
  code _ = unknown

  -- `IsNotFound`.
  unfoldable is_not_found : Error → Bool
  unfolding code
  is_not_found e = is_code_not_found (code e)

  -- `IsPreconditionFailed`.
  unfoldable pub is_precondition_failed : Error → Bool
  unfolding code
  is_precondition_failed e = is_code_failed_precondition (code e)

  -- `IsInvalidArgument`.
  unfoldable pub is_invalid_argument : Error → Bool
  unfolding code
  is_invalid_argument e = is_kind_invalid_argument e || is_code_invalid_argument (code e)

-- `IsConnectionError`.
unfoldable pub is_connection_error : Error → Bool
is_connection_error (client err_connection msg) = true
is_connection_error (client err_transport msg) = true
is_connection_error (client_cause err_connection msg e) = true
is_connection_error (client_cause err_transport msg e) = true
is_connection_error _ = false
