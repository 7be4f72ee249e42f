-- ===== src/Router/Traits/Agreement.antt =====
-- router.go: a `CommandHandlerRouter` beside a `CommandRouter` with the same handlers.
use angzarr_client_go.Prelude.{
  ℕ, String, Option, none, some, true, false, map, ◌⧺◌, has_suffix, str_eq, eq_iff, Bool-cases, inl,
  inr, ◌≡◌, refl, ap, ◌∙◌, sym,
}
use angzarr_client_go.Proto.{
  Any, CommandBook, ContextualCommand, EventBook, Notification, BusinessResponse,
}
use angzarr_client_go.Errors.{Code, Result, ok, err, ◌>>=◌}
use angzarr_client_go.Codec.{Codec}
use angzarr_client_go.Compensation.{RejectionHandlerResponse}
use angzarr_client_go.Helpers.TypeUrl.{
  match_type, is_notification, type_url_prefix, notification_type_name,
}
use angzarr_client_go.Helpers.Books.{next_sequence}
use angzarr_client_go.Router.Command
use angzarr_client_go.Router.Command.{CommandRouter, CommandHandler, call, unknown_command}
use angzarr_client_go.Router.Command.Dispatch.{Carries, dispatch-carried}
use angzarr_client_go.Router.Traits.{
  CommandHandlerDomainHandler, dispatch_command, handle_command, ends_in_notification,
}
use angzarr_client_go.Router.Traits.Rejections.{carried-command}
use angzarr_client_go.Router.Traits.Subscriptions.{new_command_handler_router}

-- The domain handler that calls the registered handlers of a router; `on_rejected` is its own.
module _ {S : Type 0} (r : CommandRouter S)
    (on_rejected : Notification
      → S
      → (domain command : String) → Result (Option RejectionHandlerResponse)) where
  abbrev handle_found :
      CommandBook → Any → S → ℕ → Option (CommandHandler S) → Result (Option EventBook)
  handle_found book command state seq none = err (unknown_command command.type_url)
  handle_found book command state seq (some handler) = handler book command state seq

  abbrev pub as_handler : CommandHandlerDomainHandler S
  as_handler = record {
    command_types = map (λ reg. reg.0) r.handlers;
    rebuild = r.rebuild;
    handle = λ book command state seq.
        handle_found book command state seq (match_type command.type_url r.handlers);
    on_rejected = on_rejected;
  }

not-ends-IsNotification :
    (url : String) → ends_in_notification url ≡ false → is_notification url ≡ false
unfolding has_suffix
not-ends-IsNotification url h = elim (Bool-cases (is_notification url)) [
  | inl e ↦
      let always : ends_in_notification (type_url_prefix ⧺ notification_type_name) ≡ true = refl in
      let ends =
        ap ends_in_notification ((eq_iff url (type_url_prefix ⧺ notification_type_name)).0 e) in
      absurd (cc (h, ends, always))
  | inr e ↦ e
]

module _ (status_text : Code → String → String) (codec : Codec) {S : Type 0} (r : CommandRouter S)
    (on_rejected : Notification
      → S
      → (domain command : String) → Result (Option RejectionHandlerResponse)) where
  called :
      (book : CommandBook) (command : Any) (state : S) (seq : ℕ) (found : Option (CommandHandler S))
      → call book command state seq found ≡ (
          handle_found r on_rejected book command state seq found
          >>= (λ result. ok (BusinessResponse.events result))
          >>= λ response. ok (some response))
  called book command state seq none = refl
  called book command state seq (some handler) = go (handler book command state seq)
    where
      go :
          (result : Result (Option EventBook))
          → (result >>= λ events. ok (some (BusinessResponse.events events))) ≡ (
              result >>= (λ events. ok (BusinessResponse.events events)) >>= λ response.
              ok (some response))
      go (ok events) = refl
      go (err e) = refl

  dispatch_command-plain :
      (book : CommandBook) (command : Any) (state : S) (seq : ℕ)
      → is_notification command.type_url ≡ false
      → Command.dispatch_command codec r book command state seq
        ≡ call book command state seq (match_type command.type_url r.handlers)
  unfolding Command.dispatch_command
  dispatch_command-plain book command state seq h = rw h

  handle_command-plain :
      (name : String) (book : CommandBook) (command : Any) (prior : EventBook)
      → ends_in_notification command.type_url ≡ false
      → handle_command status_text codec
          (new_command_handler_router name r.domain (as_handler r on_rejected))
          book
          command
          (some prior)
        ≡ (handle_found r on_rejected book command
              (r.rebuild (some prior))
              (next_sequence (some prior))
              (match_type command.type_url r.handlers)
            >>= λ result. ok (BusinessResponse.events result))
  handle_command-plain name book command prior h = rw h

  -- On a request with a prior event book and a command whose type URL is not empty and does not end
  -- in "Notification", a `CommandRouter` and the `CommandHandlerRouter` whose domain handler calls
  -- the same handlers give the same answer, be it events or an error.
  pub dispatch-as_handler :
      (name : String) (cmd : ContextualCommand) (prior : EventBook) (book : CommandBook)
      (command : Any)
      → Carries cmd book command
      → cmd.events ≡ some prior
      → str_eq command.type_url "" ≡ false
      → ends_in_notification command.type_url ≡ false
      → Command.dispatch codec r (some cmd) ≡ (
          dispatch_command status_text codec
            (new_command_handler_router name r.domain (as_handler r on_rejected))
            (some cmd)
          >>= λ response. ok (some response))
  dispatch-as_handler name cmd prior book command carried has_events nonempty plain =
      let functional =
        dispatch-carried codec r cmd book command carried nonempty
        ∙ ap
            (λ events.
              Command.dispatch_command codec r book command (r.rebuild events)
                (next_sequence events))
            has_events
        ∙ dispatch_command-plain book command (r.rebuild (some prior)) (next_sequence (some prior))
            (not-ends-IsNotification command.type_url plain) in
      let router = new_command_handler_router name r.domain (as_handler r on_rejected) in
      let traits =
        carried-command status_text codec router cmd book command carried
        ∙ ap (handle_command status_text codec router book command) has_events
        ∙ handle_command-plain name book command prior plain in
      functional
      ∙ called book command (r.rebuild (some prior)) (next_sequence (some prior))
          (match_type command.type_url r.handlers)
      ∙ sym (
          ap (λ (answer : Result BusinessResponse). answer >>= λ response. ok (some response))
            traits)
