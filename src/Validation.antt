-- ===== src/Validation.antt =====
-- validation.go: the precondition checks. The generic numbers are integers here; a result `none` is
-- nil. `RequireStatus` and `RequireStatusNot` compare by the type's equality.
pub mod Checks
use angzarr_client_go.Prelude.{
  ℕ, zero, suc, String, ◌⧺◌, Option, none, some, Bool, true, false, List, [], is_empty, str_eq,
  if◌then◌else◌, ◌≡◌,
}
use angzarr_client_go.Errors.{Error, new_command_rejected_error, new_invalid_argument_error}
use angzarr_client_go.Helpers.Editions.{ℤ, pos, negsuc}

-- `RequireExists`.
abbrev pub require_exists : Bool → String → Option Error
require_exists exists message = if exists then none else some (new_command_rejected_error message)

-- `RequireNotExists`.
abbrev pub require_not_exists : Bool → String → Option Error
require_not_exists exists message =
    if exists then some (new_command_rejected_error message) else none

-- `RequirePositive`.
abbrev pub require_positive : ℤ → String → Option Error
require_positive (pos zero) field_name =
    some (new_invalid_argument_error (field_name ⧺ " must be positive"))
require_positive (pos (suc n)) field_name = none
require_positive (negsuc n) field_name =
    some (new_invalid_argument_error (field_name ⧺ " must be positive"))

-- `RequireNonNegative`.
abbrev pub require_non_negative : ℤ → String → Option Error
require_non_negative (pos n) field_name = none
require_non_negative (negsuc n) field_name =
    some (new_invalid_argument_error (field_name ⧺ " must be non-negative"))

-- `RequireNotEmptyString`.
abbrev pub require_not_empty_string : (value field_name : String) → Option Error
require_not_empty_string value field_name =
    if str_eq value ""
    then some (new_invalid_argument_error (field_name ⧺ " must not be empty"))
    else none

-- `RequireNotEmpty`.
abbrev pub require_not_empty : {T : Type 0} → List T → String → Option Error
require_not_empty items field_name =
    if is_empty items
    then some (new_invalid_argument_error (field_name ⧺ " must not be empty"))
    else none

module _ {T : Type 0} (equal? : (a b : T) → Dec (a ≡ b)) where
  -- `RequireStatus`.
  abbrev pub require_status : (actual expected : T) → String → Option Error
  require_status actual expected message = elim (equal? actual expected) [
    | yes same ↦ none
    | no differ ↦ some (new_command_rejected_error message)
  ]

  -- `RequireStatusNot`.
  abbrev pub require_status_not : (actual forbidden : T) → String → Option Error
  require_status_not actual forbidden message = elim (equal? actual forbidden) [
    | yes same ↦ some (new_command_rejected_error message)
    | no differ ↦ none
  ]
