-- ===== src/Errors.antt =====
-- errors.go and the error type of handler.go: Go's `error` values as data, results that may be
-- errors, and what `ClientError` reports.
pub mod Client
pub mod Statuses
use angzarr_client_go.Prelude.{
  ℕ, String, ◌⧺◌, Option, none, some, Bool, true, false, List, [], ◌++◌, ◌≡◌, refl, ap,
  append_assoc, append-nil,
}

-- `ErrorKind`.
pub data ErrorKind : Type 0 where
  err_connection err_transport err_grpc err_invalid_argument err_invalid_timestamp : ErrorKind

-- The gRPC codes that the sources name; `other` is any further one.
pub data Code : Type 0 where
  unknown invalid_argument not_found failed_precondition aborted unimplemented internal : Code
  other : ℕ → Code

-- The errors that the program makes or meets. `plain` is `errors.New` or an `fmt.Errorf` with no
-- `%w`, `wrapped prefix e` is `fmt.Errorf(prefix + "%w", e)`, `rejected` is a
-- `CommandRejectedError`, `status` is an error of the gRPC status package, and the last two are a
-- `ClientError` with a nil and with a non-nil `Cause`.
pub data Error : Type 0 where
  plain : String → Error
  wrapped : String → Error → Error
  rejected : (message status_code : String) → Error
  status : Code → String → Error
  client : ErrorKind → String → Error
  client_cause : ErrorKind → String → Error → Error

pub data Result {ℓ} (A : Type ℓ) : Type ℓ where
  ok : A → Result A
  err : Error → Result A

infixl 5 ◌>>=◌
abbrev pub ◌>>=◌ {ℓ κ} : {A : Type ℓ} {B : Type κ} → Result A → (A → Result B) → Result B
ok a >>= f = f a
err e >>= f = err e

-- `NewCommandRejectedError` and `NewInvalidArgumentError` of handler.go.
abbrev pub new_command_rejected_error : String → Error
new_command_rejected_error msg = rejected msg "FAILED_PRECONDITION"

abbrev pub new_invalid_argument_error : String → Error
new_invalid_argument_error msg = rejected msg "INVALID_ARGUMENT"

-- The constructors of errors.go.
abbrev connection_error : String → Error
connection_error msg = client err_connection msg

abbrev pub transport_error : Error → Error
transport_error e = client_cause err_transport "transport error" e

abbrev pub grpc_error : Error → Error
grpc_error e = client_cause err_grpc "grpc error" e

abbrev pub invalid_argument_error : String → Error
invalid_argument_error msg = client err_invalid_argument msg

abbrev pub invalid_timestamp_error : String → Error
invalid_timestamp_error msg = client err_invalid_timestamp msg

-- `errors.As` with a `CommandRejectedError` target: the message of the first one in the chain.
unfoldable pub as_rejected : Error → Option String
as_rejected (plain msg) = none
as_rejected (wrapped prefix e) = as_rejected e
as_rejected (rejected message code) = some message
as_rejected (status code msg) = none
as_rejected (client kind msg) = none
as_rejected (client_cause kind msg e) = as_rejected e

-- `AsClientError`: the first `ClientError` in the chain.
unfoldable as_client_error : Error → Option Error
as_client_error (plain msg) = none
as_client_error (wrapped prefix e) = as_client_error e
as_client_error (rejected message code) = none
as_client_error (status code msg) = none
as_client_error (client kind msg) = some (client kind msg)
as_client_error (client_cause kind msg e) = some (client_cause kind msg e)

-- `IsClientError`.
unfoldable is_client_error : Error → Bool
unfolding as_client_error
is_client_error e = elim (as_client_error e) [ some c ↦ true | none ↦ false ]

-- The text of an error of the gRPC status package is that package's, `status_text`.
module _ (status_text : Code → String → String) where
  -- `Error()`.
  unfoldable pub error_text : Error → String
  error_text (plain msg) = msg
  error_text (wrapped prefix e) = prefix ⧺ error_text e
  error_text (rejected message code) = message
  error_text (status code msg) = status_text code msg
  error_text (client kind msg) = msg
  error_text (client_cause kind msg e) = msg ⧺ ": " ⧺ error_text e

-- Two results joined: the first error, or both lists.
infixr 60 ◌⊕◌
abbrev pub ◌⊕◌ {ℓ} : {A : Type ℓ} → Result (List A) → Result (List A) → Result (List A)
err e ⊕ r = err e
ok xs ⊕ err e = err e
ok xs ⊕ ok ys = ok (xs ++ ys)

pub ⊕_assoc {ℓ} : {A : Type ℓ} (r s t : Result (List A)) → (r ⊕ s) ⊕ t ≡ r ⊕ s ⊕ t
⊕_assoc (err e) s t = refl
⊕_assoc (ok xs) (err e) t = refl
⊕_assoc (ok xs) (ok ys) (err e) = refl
⊕_assoc (ok xs) (ok ys) (ok zs) = ap ok (append_assoc xs ys zs)

pub nil-⊕ {ℓ} : {A : Type ℓ} (r : Result (List A)) → ok [] ⊕ r ≡ r
nil-⊕ (err e) = refl
nil-⊕ (ok xs) = refl

⊕-nil {ℓ} : {A : Type ℓ} (r : Result (List A)) → r ⊕ ok [] ≡ r
⊕-nil (err e) = refl
⊕-nil (ok xs) = ap ok (append-nil xs)
