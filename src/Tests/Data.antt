-- ===== src/Tests/Data.antt =====
-- The messages, routers and handlers that the runs share.
use angzarr_client_go.Prelude.{ℕ, ◌+◌, String, ◌⧺◌, none, some, List, [], ◌∷◌}
use angzarr_client_go.Proto.{
  Bytes, Any, Cover, EventPage, EventBook, CommandPage, CommandBook, ContextualCommand,
  Notification, RejectionNotification, empty_cover, sequence_header,
}
use angzarr_client_go.Errors.{Error, ok, err, wrapped, new_command_rejected_error}
use angzarr_client_go.Codec.{Codec}
use angzarr_client_go.Helpers.TypeUrl.{type_url_prefix, notification_type_name}
use angzarr_client_go.Aggregate.{
  Data, Registry, init_data, init_registry, handles, handles_multi, applies,
}

abbrev pub any_of : String → Bytes → Any
any_of name value = record { type_url = type_url_prefix ⧺ name; value = value }

abbrev pub added : Any
added = any_of "bank.Added" (5 ∷ [])

abbrev pub closed : Any
closed = any_of "bank.Closed" []

abbrev pub add : Any
add = any_of "bank.Add" (5 ∷ [])

abbrev pub notice : Any
notice = any_of notification_type_name []

abbrev pub event_page : ℕ → Any → EventPage
event_page seq event = record {
  header = some (sequence_header seq);
  event = some event;
  created_at = none;
}

abbrev pub domain_cover : String → Cover
domain_cover domain = record empty_cover { domain = domain }

abbrev pub event_book : List EventPage → EventBook
event_book pages = record {
  cover = some (domain_cover "bank");
  pages = pages;
  snapshot = none;
  next_sequence = 2;
}

-- Two events that were recorded before.
abbrev pub history : EventBook
history = event_book (event_page 0 added ∷ event_page 1 added ∷ [])

abbrev pub command_page : Any → CommandPage
command_page command = record { header = none; command = some command; merge_strategy = 0 }

abbrev pub command_book : Any → CommandBook
command_book command = record {
  cover = some (domain_cover "bank");
  pages = command_page command ∷ [];
}

abbrev pub request : Any → ContextualCommand
request command = record { command = some (command_book command); events = some history }

-- The rejected command: `stock.Reserve` of the domain "stock".
abbrev rejected_book : CommandBook
rejected_book = record {
  cover = some (domain_cover "stock");
  pages = command_page (any_of "stock.Reserve" []) ∷ [];
}

abbrev pub rejection : RejectionNotification
rejection = record { rejected_command = some rejected_book; rejection_reason = "sold out" }

abbrev pub notification : Notification
notification = record { cover = none; payload = some (any_of "rejection" []) }

-- Any bytes decode to the one notification and the one rejection.
abbrev pub codec : Codec
codec = record {
  unmarshal_notification = λ bytes. ok notification;
  unmarshal_rejection = λ bytes. ok rejection;
  unmarshal_to_notification = λ any. ok notification;
  unmarshal_to_rejection = λ any. ok rejection;
}

abbrev pub total : Bytes → ℕ
total [] = 0
total (b ∷ bs) = b + total bs

-- An account that adds up: its events are the amounts that were added.
abbrev pub account : Registry ℕ Any
account =
    applies
      (handles_multi
        (handles (init_registry 0) "bank.Add" (λ any. ok any) (λ d cmd. ok (some added)))
        "bank.Close" (λ any. ok any) (λ d cmd. err (new_command_rejected_error "not empty")))
      "bank.Added" (λ bytes. ok bytes) (λ balance bytes. balance + total bytes)

abbrev pub account_data : Data ℕ
account_data = init_data (some history)

abbrev pub too_late : Error
too_late = wrapped "add: " (new_command_rejected_error "closed")
