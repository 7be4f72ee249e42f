-- ===== src/Router/Command/Dispatch.antt =====
-- `CommandRouter.Dispatch` of router.go on commands.
use text.Mathlib.TextLemmas.{append-eq-nil_iff}
use angzarr_client_go.Prelude.{
  ℕ, String, ◌⧺◌, Option, none, some, true, false, List, [], ◌∷◌, ◌≡◌, ◌≢◌, refl, ap, ◌∙◌, arith,
  lookup, str_eq, eq_iff, head?, str_eq-append, Bool-cases, inl, inr,
}
use angzarr_client_go.Proto.{Any, CommandPage, CommandBook, ContextualCommand, BusinessResponse}
use angzarr_client_go.Errors.{ok, err, plain, ◌>>=◌}
use angzarr_client_go.Codec.{Codec}
use angzarr_client_go.Helpers.TypeUrl.{type_url_prefix, notification_type_name, is_notification}
use angzarr_client_go.Helpers.TypeUrl.Matching.{match_type-prefix}
use angzarr_client_go.Helpers.Books.{next_sequence}
use angzarr_client_go.Compensation.{command_of}
use angzarr_client_go.Router.Command.{
  CommandRouter, CommandHandler, dispatch, dispatch_command, call, dispatch_any, dispatch_book,
}

-- The request holds `command` on the first page of its command book.
abbrev pub Carries : ContextualCommand → CommandBook → Any → Type 0
Carries cmd book command =
    (page : CommandPage) × (rest : List CommandPage) × (cmd.command ≡ some book)
    × (book.pages ≡ page ∷ rest)
    × (page.command ≡ some command)

is_notification-prefix :
    (name : String)
    → name ≢ notification_type_name
    → is_notification (type_url_prefix ⧺ name) ≡ false
is_notification-prefix name h =
    str_eq-append type_url_prefix name notification_type_name
    ∙ ground (arith, eq_iff name notification_type_name)

pub nonempty-prefix : (name : String) → str_eq (type_url_prefix ⧺ name) "" ≡ false
nonempty-prefix name = elim (Bool-cases (str_eq (type_url_prefix ⧺ name) "")) [
  | inl e ↦
      let empty = (append-eq-nil_iff {q = name}).0 ((eq_iff (type_url_prefix ⧺ name) "").0 e) in
      let never : false ≡ true = (eq_iff type_url_prefix "").1 empty.0 in cc
  | inr e ↦ e
]

module _ {S : Type 0} (codec : Codec) (r : CommandRouter S) where
  pub dispatch-carried :
      (cmd : ContextualCommand) (book : CommandBook) (command : Any)
      → Carries cmd book command
      → str_eq command.type_url "" ≡ false
      → dispatch codec r (some cmd)
        ≡ dispatch_command codec r book command (r.rebuild cmd.events) (next_sequence cmd.events)
  unfolding dispatch
  dispatch-carried cmd book command (page, rest, has_book, has_page, has_command) nonempty =
      rw (has_book, has_page, has_command, nonempty)

  dispatch_command-named :
      (book : CommandBook) (command : Any) (state : S) (seq : ℕ) (name : String)
      → command.type_url ≡ type_url_prefix ⧺ name
      → name ≢ notification_type_name
      → dispatch_command codec r book command state seq
        ≡ call book command state seq (lookup name r.handlers)
  unfolding dispatch_command
  dispatch_command-named book command state seq name url other =
      let plain_command : is_notification command.type_url ≡ false =
        ap is_notification url ∙ is_notification-prefix name other in
      rw (plain_command, url, match_type-prefix name r.handlers)

  dispatch-named :
      (cmd : ContextualCommand) (book : CommandBook) (command : Any) (name : String)
      → Carries cmd book command
      → command.type_url ≡ type_url_prefix ⧺ name
      → name ≢ notification_type_name
      → dispatch codec r (some cmd)
        ≡ call book command
            (r.rebuild cmd.events)
            (next_sequence cmd.events)
            (lookup name r.handlers)
  dispatch-named cmd book command name carried url other =
      dispatch-carried cmd book command carried (ap (λ u. str_eq u "") url ∙ nonempty-prefix name)
      ∙ dispatch_command-named book command (r.rebuild cmd.events) (next_sequence cmd.events) name
          url other

  -- A request whose command is of a registered type other than a notification is answered by the
  -- handler that the type is registered for first, called with the command book, the rebuilt state
  -- and the next sequence of the prior events; its error is passed on.
  pub dispatch_registered :
      (cmd : ContextualCommand) (book : CommandBook) (command : Any) (name : String)
      (handler : CommandHandler S)
      → Carries cmd book command
      → command.type_url ≡ type_url_prefix ⧺ name
      → name ≢ notification_type_name
      → lookup name r.handlers ≡ some handler
      → dispatch codec r (some cmd) ≡ (
          handler book command (r.rebuild cmd.events) (next_sequence cmd.events) >>= λ events.
          ok (some (BusinessResponse.events events)))
  dispatch_registered cmd book command name handler carried url other found =
      dispatch-named cmd book command name carried url other
      ∙ ap (call book command (r.rebuild cmd.events) (next_sequence cmd.events)) found

  -- A request whose command is of a type that is neither registered nor a notification is refused
  -- with the error that names its type URL, and no handler is called.
  pub dispatch_unregistered :
      (cmd : ContextualCommand) (book : CommandBook) (command : Any) (name : String)
      → Carries cmd book command
      → command.type_url ≡ type_url_prefix ⧺ name
      → name ≢ notification_type_name
      → lookup name r.handlers ≡ none
      → dispatch codec r (some cmd) ≡ err (plain ("Unknown command type" ⧺ ": " ⧺ command.type_url))
  dispatch_unregistered cmd book command name carried url other found =
      dispatch-named cmd book command name carried url other
      ∙ ap (call book command (r.rebuild cmd.events) (next_sequence cmd.events)) found

  -- A request with no command, no pages, or a first page whose command is missing or has an empty
  -- type URL is refused.
  pub dispatch_malformed :
      (cmd : ContextualCommand)
      → ((book : CommandBook) (command : Any) → Carries cmd book command → command.type_url ≡ "")
      → dispatch codec r (some cmd) ≡ err (plain "No command pages")
  unfolding dispatch
  dispatch_malformed cmd h = go cmd.command refl
    where
      any_page :
          (book : CommandBook) (page : CommandPage) (rest : List CommandPage) (o : Option Any)
          → cmd.command ≡ some book
          → book.pages ≡ page ∷ rest
          → page.command ≡ o
          → dispatch_any codec r book o (r.rebuild cmd.events) (next_sequence cmd.events)
            ≡ err (plain "No command pages")
      any_page book page rest none eb ep ec = refl
      any_page book page rest (some command) eb ep ec =
          let blank = h book command (page, rest, eb, ep, ec) in
          rw ((eq_iff command.type_url "").1 blank)

      pages :
          (book : CommandBook) (ps : List CommandPage)
          → cmd.command ≡ some book
          → book.pages ≡ ps
          → dispatch_any codec r book
              (command_of (head? ps))
              (r.rebuild cmd.events)
              (next_sequence cmd.events)
            ≡ err (plain "No command pages")
      pages book [] eb ep = refl
      pages book (page ∷ rest) eb ep = any_page book page rest page.command eb ep refl

      go :
          (o : Option CommandBook)
          → cmd.command ≡ o
          → dispatch_book codec r o cmd.events ≡ err (plain "No command pages")
      go none e = refl
      go (some book) e = pages book book.pages e refl
