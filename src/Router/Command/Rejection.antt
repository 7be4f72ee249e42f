-- ===== src/Router/Command/Rejection.antt =====
-- `CommandRouter.Dispatch` and `OnRejected` of router.go on rejections.
use angzarr_client_go.Prelude.{
  String, ◌⧺◌, none, some, true, ◌≡◌, ◌≢◌, ap, ◌∙◌, sym, lookup, lookup-insert, lookup-insert_ne,
  str_eq, eq_iff, eq_refl, insert, Lacks,
}
use angzarr_client_go.Proto.{
  Any, CommandBook, ContextualCommand, Notification, RejectionNotification,
}
use angzarr_client_go.Errors.{ok}
use angzarr_client_go.Codec.{Codec}
use angzarr_client_go.Helpers.TypeUrl.{type_url_prefix, notification_type_name, is_notification}
use angzarr_client_go.Helpers.Books.{next_sequence}
use angzarr_client_go.Compensation.{dispatch_key, rejection_key, delegate_to_framework}
use angzarr_client_go.Compensation.Keys.{rejection_key-injective, dispatch_key-Lacks}
use angzarr_client_go.Router.Command.{
  CommandRouter, RevocationHandler, on_rejected, dispatch, dispatch_command, decode_rejection,
  no_compensation, respond, respond_to,
}
use angzarr_client_go.Router.Command.Dispatch.{Carries, dispatch-carried, nonempty-prefix}

-- The request carries a notification of the rejection of a command.
pub record IsRejection (codec : Codec) (cmd : ContextualCommand) (notification : Notification)
    (rejection : RejectionNotification) : Type 0 where
  pub book : CommandBook
  pub command : Any
  pub carried : Carries cmd book command
  pub url : command.type_url ≡ type_url_prefix ⧺ notification_type_name
  pub decoded : codec.unmarshal_to_notification command ≡ ok notification
  pub payload : decode_rejection codec notification.payload ≡ ok rejection

module _ {S : Type 0} (codec : Codec) (r : CommandRouter S) where
  -- The answer to a rejection.
  dispatch-IsRejection :
      (cmd : ContextualCommand) (notification : Notification) (rejection : RejectionNotification)
      → IsRejection codec cmd notification rejection
      → dispatch codec r (some cmd)
        ≡ ok (respond_to r notification (r.rebuild cmd.events) rejection)
  dispatch-IsRejection cmd notification rejection h =
      dispatch-carried codec r cmd h.book h.command h.carried
        (ap (λ u. str_eq u "") h.url ∙ nonempty-prefix notification_type_name)
      ∙ routed
    where
      is_one : is_notification h.command.type_url ≡ true
      is_one = (eq_iff h.command.type_url _).1 h.url

      routed :
          dispatch_command codec r h.book h.command
            (r.rebuild cmd.events)
            (next_sequence cmd.events)
          ≡ ok (respond_to r notification (r.rebuild cmd.events) rejection)
      routed = unfold dispatch_command in rw (is_one, h.decoded, h.payload)

-- The rejection of a command is answered by the handler that was registered last for its domain
-- and type, called with the notification and the rebuilt state.
pub dispatch-on_rejected :
    {S : Type 0} (codec : Codec) (r : CommandRouter S) (cmd : ContextualCommand)
    (notification : Notification) (rejection : RejectionNotification) (domain command : String)
    (handler : RevocationHandler S)
    → IsRejection codec cmd notification rejection
    → dispatch_key rejection ≡ (domain, command)
    → dispatch codec (on_rejected r domain command handler) (some cmd)
      ≡ ok (handler notification (r.rebuild cmd.events))
dispatch-on_rejected codec r cmd notification rejection domain command handler h key =
    let key_of = λ (k : String × String). rejection_key k.0 k.1 in
    let found : lookup (key_of (dispatch_key rejection))
          (insert (rejection_key domain command) handler r.rejection_handlers)
        ≡ some handler =
      ap
        (λ k.
          lookup (key_of k) (insert (rejection_key domain command) handler r.rejection_handlers))
        key
      ∙ simp (lookup-insert, eq_refl) in
    dispatch-IsRejection codec (on_rejected r domain command handler) cmd notification rejection h
    ∙ ap
        (λ o. ok (
          respond (on_rejected r domain command handler) notification (r.rebuild cmd.events)
            (key_of (dispatch_key rejection)) o))
        found

-- A handler registered for another domain or command, whose name has no slash, leaves the answer to
-- a rejection as it was.
pub dispatch-on_rejected_other :
    {S : Type 0} (codec : Codec) (r : CommandRouter S) (cmd : ContextualCommand)
    (notification : Notification) (rejection : RejectionNotification) (domain command : String)
    (handler : RevocationHandler S)
    → IsRejection codec cmd notification rejection
    → Lacks b'/' command
    → dispatch_key rejection ≢ (domain, command)
    → dispatch codec (on_rejected r domain command handler) (some cmd) ≡ dispatch codec r (some cmd)
dispatch-on_rejected_other codec r cmd notification rejection domain command handler h lacks key =
    let mine = rejection_key (dispatch_key rejection).0 (dispatch_key rejection).1 in
    let differ : rejection_key domain command ≢ mine = λ e.
      let (same_domain, same_command) =
        rejection_key-injective domain (dispatch_key rejection).0 command (dispatch_key rejection).1
          lacks (dispatch_key-Lacks rejection) e in
      key (cc (same_domain, same_command)) in
    let kept : lookup mine (insert (rejection_key domain command) handler r.rejection_handlers)
        ≡ lookup mine r.rejection_handlers =
      lookup-insert_ne (rejection_key domain command) mine handler r.rejection_handlers differ in
    dispatch-IsRejection codec (on_rejected r domain command handler) cmd notification rejection h
    ∙ ap (λ o. ok (respond r notification (r.rebuild cmd.events) mine o)) kept
    ∙ sym (dispatch-IsRejection codec r cmd notification rejection h)

-- Without a handler for its domain and type, the rejection is left to the framework, and the
-- response asks for a system revocation only.
dispatch_delegates :
    {S : Type 0} (codec : Codec) (r : CommandRouter S) (cmd : ContextualCommand)
    (notification : Notification) (rejection : RejectionNotification)
    → IsRejection codec cmd notification rejection
    → lookup
        (rejection_key (dispatch_key rejection).0 (dispatch_key rejection).1)
        r.rejection_handlers
      ≡ none
    → dispatch codec r (some cmd)
      ≡ ok (
          some (
            delegate_to_framework (
              no_compensation r.domain
                (rejection_key (dispatch_key rejection).0 (dispatch_key rejection).1))))
dispatch_delegates codec r cmd notification rejection h missing =
    let mine = rejection_key (dispatch_key rejection).0 (dispatch_key rejection).1 in
    dispatch-IsRejection codec r cmd notification rejection h
    ∙ ap (λ o. ok (respond r notification (r.rebuild cmd.events) mine o)) missing
