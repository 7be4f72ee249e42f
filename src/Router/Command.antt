-- ===== src/Router/Command.antt =====
-- `CommandRouter` of router.go.
pub mod Dispatch
pub mod Rejection
use angzarr_client_go.Prelude.{
  ℕ, String, ◌⧺◌, Option, none, some, Bool, true, false, List, [], ◌∷◌, ◌++◌, str_eq, if◌then◌else◌,
  head?, GoMap, lookup, insert,
}
use angzarr_client_go.Proto.{
  Any, EventBook, CommandPage, CommandBook, ContextualCommand, Notification, RejectionNotification,
  BusinessResponse,
}
use angzarr_client_go.Errors.{Error, Result, ok, err, plain, wrapped, ◌>>=◌}
use angzarr_client_go.Codec.{Codec}
use angzarr_client_go.Helpers.TypeUrl.{Registrations, match_type, is_notification}
use angzarr_client_go.Helpers.Books.{next_sequence}
use angzarr_client_go.Compensation.{command_of, dispatch_key, rejection_key, delegate_to_framework}

-- `ErrMsgUnknownCommand` and `ErrMsgNoCommandPages`.
abbrev err_msg_unknown_command : String
err_msg_unknown_command = "Unknown command type"

abbrev pub err_msg_no_command_pages : String
err_msg_no_command_pages = "No command pages"

-- `CommandHandler` and `RevocationHandler`; their results are pointers, which may be nil.
abbrev pub CommandHandler : Type 0 → Type 0
CommandHandler S = CommandBook → Any → S → ℕ → Result (Option EventBook)

abbrev pub RevocationHandler : Type 0 → Type 0
RevocationHandler S = Notification → S → Option BusinessResponse

pub record CommandRouter (S : Type 0) : Type 0 where
  pub domain : String
  pub rebuild : Option EventBook → S
  pub handlers : Registrations (CommandHandler S)
  pub rejection_handlers : GoMap (RevocationHandler S)

abbrev pub no_command_pages : Error
no_command_pages = plain err_msg_no_command_pages

abbrev pub unknown_command : String → Error
unknown_command url = plain (err_msg_unknown_command ⧺ ": " ⧺ url)

-- Decoding of a notification's payload, as `dispatchRejection` does it here and in aggregate_oo.go.
abbrev pub empty_rejection : RejectionNotification
empty_rejection = record { rejected_command = none; rejection_reason = "" }

abbrev pub wrap_error {ℓ} : {A : Type ℓ} → String → Result A → Result A
wrap_error prefix (ok a) = ok a
wrap_error prefix (err e) = err (wrapped prefix e)

abbrev pub decode_rejection : Codec → Option Any → Result RejectionNotification
decode_rejection codec none = ok empty_rejection
decode_rejection codec (some payload) =
    wrap_error "failed to unmarshal RejectionNotification: " (codec.unmarshal_to_rejection payload)

abbrev pub no_compensation : (domain key : String) → String
no_compensation domain key = "CommandHandler " ⧺ domain ⧺ " has no custom compensation for " ⧺ key

module _ {S : Type 0} where
  -- `NewCommandRouter`.
  abbrev pub new_command_router : String → (Option EventBook → S) → CommandRouter S
  new_command_router domain rebuild = record {
    domain = domain;
    rebuild = rebuild;
    handlers = [];
    rejection_handlers = [];
  }

  -- `On`, and `OnType` with the name that reflection finds.
  abbrev pub on : CommandRouter S → String → CommandHandler S → CommandRouter S
  on r full_name handler = record r { handlers = r.handlers ++ (full_name, handler) ∷ [] }

  -- `OnRejected`.
  abbrev pub on_rejected :
      CommandRouter S → (domain command : String) → RevocationHandler S → CommandRouter S
  on_rejected r domain command handler = record r {
    rejection_handlers = insert (rejection_key domain command) handler r.rejection_handlers;
  }

  -- `RebuildState`.
  abbrev pub rebuild_state : CommandRouter S → Option EventBook → S
  rebuild_state r events = r.rebuild events

  -- The lookup and the call at the end of `dispatchRejection`.
  abbrev respond :
      CommandRouter S
      → Notification
      → S
      → String
      → Option (RevocationHandler S)
      → Option BusinessResponse
  respond r notification state key none =
      some (delegate_to_framework (no_compensation r.domain key))
  respond r notification state key (some handler) = handler notification state

  abbrev respond_to :
      CommandRouter S → Notification → S → RejectionNotification → Option BusinessResponse
  respond_to r notification state rejection =
      let key = rejection_key (dispatch_key rejection).0 (dispatch_key rejection).1 in
      respond r notification state key (lookup key r.rejection_handlers)

  -- `dispatchRejection`.
  pub dispatch_rejection :
      Codec → CommandRouter S → Notification → S → Result (Option BusinessResponse)
  dispatch_rejection codec r notification state = do
    rejection ← decode_rejection codec notification.payload
    ok (respond_to r notification state rejection)

  abbrev pub call :
      CommandBook → Any → S → ℕ → Option (CommandHandler S) → Result (Option BusinessResponse)
  call book command state seq none = err (unknown_command command.type_url)
  call book command state seq (some handler) = do
    events ← handler book command state seq
    ok (some (BusinessResponse.events events))

  -- `Dispatch` behind its tests for nil and for an empty type URL.
  unfoldable pub dispatch_command :
      Codec → CommandRouter S → CommandBook → Any → S → ℕ → Result (Option BusinessResponse)
  unfolding dispatch_rejection
  dispatch_command codec r book command state seq =
      if is_notification command.type_url
      then (do
        notification ←
            wrap_error "failed to unmarshal Notification: "
              (codec.unmarshal_to_notification command)
        dispatch_rejection codec r notification state)
      else call book command state seq (match_type command.type_url r.handlers)

  abbrev dispatch_any :
      Codec → CommandRouter S → CommandBook → Option Any → S → ℕ → Result (Option BusinessResponse)
  dispatch_any codec r book none state seq = err no_command_pages
  dispatch_any codec r book (some command) state seq =
      if str_eq command.type_url ""
      then err no_command_pages
      else dispatch_command codec r book command state seq

  abbrev dispatch_book :
      Codec
      → CommandRouter S
      → Option CommandBook
      → Option EventBook
      → Result (Option BusinessResponse)
  dispatch_book codec r none events = err no_command_pages
  dispatch_book codec r (some book) events =
      dispatch_any codec r book (command_of (head? book.pages)) (r.rebuild events)
        (next_sequence events)

  -- `Dispatch`.
  pub dispatch :
      Codec → CommandRouter S → Option ContextualCommand → Result (Option BusinessResponse)
  unfolding dispatch_command
  dispatch codec r none = err no_command_pages
  dispatch codec r (some cmd) = dispatch_book codec r cmd.command cmd.events
