-- ===== src/Router/Traits/Rejections.antt =====
-- What `CommandHandlerRouter` and `ProcessManagerRouter` of router.go take for rejections.
use angzarr_client_go.Prelude.{
  ℕ, String, Option, none, some, true, List, [], ◌∷◌, ◌++◌, ◌≡◌, refl, ap, ◌∙◌, sym, head?, last?,
  GoMap, lookup,
}
use angzarr_client_go.Proto.{Any, EventPage, EventBook, CommandBook, ContextualCommand}
use angzarr_client_go.Errors.{Code, Result}
use angzarr_client_go.Codec.{Codec}
use angzarr_client_go.Router.Command.Dispatch.{Carries}
use angzarr_client_go.Router.Traits.{
  CommandHandlerRouter, ProcessManagerRouter, ends_in_notification, dispatch_command, dispatch_book,
  dispatch_any, dispatch_payload, handle_command, domain_or_empty, ProcessManagerDomainHandler,
}
use angzarr_client_go.Router.Traits.Managers.{
  dispatch_pm, dispatch_pm_page, dispatch_pm_for, dispatch_pm_event,
}

-- The same router with another `Handle`.
abbrev pub with_handle :
    {S : Type 0}
    → CommandHandlerRouter S
    → (CommandBook → Any → S → ℕ → Result (Option EventBook))
    → CommandHandlerRouter S
with_handle r handle = record r { handler = record r.handler { handle = handle } }

module _ (status_text : Code → String → String) (codec : Codec) {S : Type 0}
    (r : CommandHandlerRouter S) where
  pub carried-command :
      (cmd : ContextualCommand) (book : CommandBook) (command : Any)
      → Carries cmd book command
      → dispatch_command status_text codec r (some cmd)
        ≡ handle_command status_text codec r book command cmd.events
  unfolding dispatch_command
  carried-command cmd book command (page, rest, carried, paged, has) =
      ap (dispatch_book status_text codec r cmd.events) carried
      ∙ ap (λ ps. dispatch_any status_text codec r book cmd.events (head? ps)) paged
      ∙ ap (dispatch_payload status_text codec r book cmd.events) has

-- A command whose type URL ends in "Notification" never reaches the handler's `Handle`, be it the
-- framework's notification or a command of the domain's own: the answer is the same whatever
-- `Handle` does.
pub dispatch_command-shadowed :
    (status_text : Code → String → String) (codec : Codec) {S : Type 0} (r : CommandHandlerRouter S)
    (handle : CommandBook → Any → S → ℕ → Result (Option EventBook)) (cmd : ContextualCommand)
    (book : CommandBook) (command : Any)
    → Carries cmd book command
    → ends_in_notification command.type_url ≡ true
    → dispatch_command status_text codec (with_handle r handle) (some cmd)
      ≡ dispatch_command status_text codec r (some cmd)
dispatch_command-shadowed status_text codec r handle cmd book command carried ends =
    carried-command status_text codec (with_handle r handle) cmd book command carried
    ∙ (rw ends)
    ∙ sym (carried-command status_text codec r cmd book command carried)

last?-append : {A : Type 0} (xs : List A) (x : A) → last? (xs ++ x ∷ []) ≡ some x
last?-append [] x = refl
last?-append (y ∷ []) x = refl
last?-append (y ∷ z ∷ xs) x = last?-append (z ∷ xs) x

-- When the last event of a trigger is taken for a rejection, the events before it have no say in a
-- process manager's answer.
dispatch_pm-last :
    (status_text : Code → String → String) (codec : Codec) {S : Type 0} (r : ProcessManagerRouter S)
    (trigger : EventBook) (before : List EventPage) (page : EventPage) (event : Any)
    (process_state : Option EventBook) (sequences : Option (GoMap ℕ))
    → trigger.pages ≡ before ++ page ∷ []
    → page.event ≡ some event
    → ends_in_notification event.type_url ≡ true
    → dispatch_pm status_text codec r (some trigger) process_state sequences
      ≡ dispatch_pm status_text codec r
          (some (record trigger { pages = page ∷ [] }))
          process_state
          sequences
unfolding dispatch_pm
dispatch_pm-last status_text codec r trigger before page event process_state sequences paged has
      ends =
    ap (λ ps. dispatch_pm_page status_text codec r trigger process_state sequences (last? ps)) paged
    ∙ ap (dispatch_pm_page status_text codec r trigger process_state sequences)
        (last?-append before page)
    ∙ go (lookup (domain_or_empty trigger.cover) r.domains)
  where
    trigger' : EventBook
    trigger' = record trigger { pages = page ∷ [] }

    go :
        (o : Option (ProcessManagerDomainHandler _))
        → dispatch_pm_for status_text codec r trigger process_state sequences page o
          ≡ dispatch_pm_for status_text codec r trigger' process_state sequences page o
    go none = refl
    go (some handler) =
        ap (dispatch_pm_event status_text codec handler trigger (r.rebuild process_state) sequences)
          has
        ∙ (rw ends)
        ∙ sym (
            ap
              (dispatch_pm_event status_text codec handler trigger' (r.rebuild process_state)
                sequences)
              has)
