-- ===== src/Errors/Statuses.antt =====
-- `ClientError.Unwrap` and `ClientError.Status` of errors.go. `status.FromError` of the gRPC status
-- package gives a status and whether the error carried it; statuses are not looked into, but for
-- their code.
use angzarr_client_go.Prelude.{Option, none, some, Bool, true, false, ◌≡◌, refl, ap, sym}
use angzarr_client_go.Errors.{Error, Code, client_cause, err_grpc, unknown, grpc_error}
use angzarr_client_go.Errors.Client.{code}

-- `Unwrap`, on a `ClientError`.
abbrev unwrap : Error → Option Error
unwrap (client_cause kind msg cause) = some cause
unwrap _ = none

module _ {St : Type 0} (code_of : St → Code) (from_error : Error → St × Bool) where
  -- `Status`, on a `ClientError`.
  abbrev status_of_error : Error → Option St
  status_of_error (client_cause err_grpc msg cause) = some (from_error cause).0
  status_of_error _ = none

  abbrev code_if_carried : St × Bool → Option Code
  code_if_carried (s, true) = some (code_of s)
  code_if_carried (s, false) = none

  -- What `Code` sees of `status.FromError`.
  abbrev carried_code : Error → Option Code
  carried_code e = code_if_carried (from_error e)

  carried_or_unknown :
      (found : St × Bool)
      → (found.1 ≡ false → code_of found.0 ≡ unknown)
      → elim (code_if_carried found) [ some c ↦ c | none ↦ unknown ] ≡ code_of found.0
  carried_or_unknown (s, true) h = refl
  carried_or_unknown (s, false) h = sym (h refl)

  -- Where `FromError` gives an unknown status for an error that carries none, the code of a gRPC
  -- error is that of the status that `Status` gives for it.
  pub code-status_of_error :
      ((e : Error) → (from_error e).1 ≡ false → code_of (from_error e).0 ≡ unknown)
      → (cause : Error)
      → some (code carried_code (grpc_error cause))
        ≡ elim (status_of_error (grpc_error cause)) [ some s ↦ some (code_of s) | none ↦ none ]
  unfolding code
  code-status_of_error h cause = ap some (carried_or_unknown (from_error cause) (h cause))
