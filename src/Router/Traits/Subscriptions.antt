-- ===== src/Router/Traits/Subscriptions.antt =====
-- router.go: the constructors of `CommandHandlerRouter` and `SagaRouter`, and what the routers over
-- domain handlers say of themselves.
use angzarr_client_go.Prelude.{
  String, ◌⧺◌, Option, none, some, List, [], ◌∷◌, GoMap, lookup, map, ◌≡◌, refl, ap, ◌∙◌, sym,
  arith,
}
use angzarr_client_go.Proto.{Cover, EventBook}
use angzarr_client_go.Errors.{err, status, unimplemented}
use angzarr_client_go.Router.Traits.{
  CommandHandlerDomainHandler, CommandHandlerRouter, SagaDomainHandler, SagaRouter,
  ProcessManagerRouter, ProjectorRouter,
}
use angzarr_client_go.Router.Traits.Managers.{pm_subscriptions}
use angzarr_client_go.Router.Traits.Projectors.{project_with, project_covered, dispatch_projector}

-- `NewCommandHandlerRouter`.
abbrev pub new_command_handler_router :
    {S : Type 0} → (name domain : String) → CommandHandlerDomainHandler S → CommandHandlerRouter S
new_command_handler_router name domain handler = record {
  name = name;
  domain = domain;
  handler = handler;
}

-- `CommandHandlerRouter.CommandTypes`.
abbrev command_types_of : {S : Type 0} → CommandHandlerRouter S → List String
command_types_of r = r.handler.command_types

-- `CommandHandlerRouter.Subscriptions`.
abbrev command_subscriptions : {S : Type 0} → CommandHandlerRouter S → GoMap (List String)
command_subscriptions r = (r.domain, r.handler.command_types) ∷ []

-- `CommandHandlerRouter.RebuildState`.
abbrev rebuild_command_state : {S : Type 0} → CommandHandlerRouter S → Option EventBook → S
rebuild_command_state r events = r.handler.rebuild events

-- `NewSagaRouter`.
abbrev new_saga_router : (name domain target_domain : String) → SagaDomainHandler → SagaRouter
new_saga_router name domain target_domain handler = record {
  name = name;
  domain = domain;
  target_domain = target_domain;
  handler = handler;
}

-- `SagaRouter.EventTypes`.
abbrev event_types_of : SagaRouter → List String
event_types_of r = r.handler.event_types

-- `SagaRouter.Subscriptions`.
abbrev saga_subscriptions : SagaRouter → GoMap (List String)
saga_subscriptions r = (r.domain, r.handler.event_types) ∷ []

-- `ProcessManagerRouter.RebuildState`.
abbrev rebuild_pm_state : {S : Type 0} → ProcessManagerRouter S → Option EventBook → S
rebuild_pm_state r events = r.rebuild events

-- `ProjectorRouter.Subscriptions`, in the order of the range.
abbrev projector_subscriptions : ProjectorRouter → GoMap (List String)
projector_subscriptions r = map (λ (domain, handler). (domain, handler.event_types)) r.domains

module _ {H T : Type 0} (types : H → T) where
  abbrev types_of : GoMap H → GoMap T
  types_of handlers = map (λ (domain, handler). (domain, types handler)) handlers

  abbrev found_types : Option H → Option T
  found_types none = none
  found_types (some handler) = some (types handler)

  -- What a domain is subscribed with is what its handler declares.
  lookup-types_of :
      (domain : String) (handlers : GoMap H)
      → lookup domain (types_of handlers) ≡ found_types (lookup domain handlers)
  unfolding lookup
  lookup-types_of domain [] = refl
  lookup-types_of domain ((here, handler) ∷ handlers) =
      ground (arith, lookup-types_of domain handlers)

  found_types-none : (found : Option H) → found_types found ≡ none → found ≡ none
  found_types-none none h = refl
  found_types-none (some handler) h = absurd (cc h)

-- A domain that a process manager does not subscribe to has no handler.
domains-pm_subscriptions :
    {S : Type 0} (r : ProcessManagerRouter S) (domain : String)
    → lookup domain (pm_subscriptions r) ≡ none
    → lookup domain r.domains ≡ none
domains-pm_subscriptions r domain unsubscribed =
    found_types-none (λ h. h.event_types) (lookup domain r.domains)
      (sym (lookup-types_of (λ h. h.event_types) domain r.domains) ∙ unsubscribed)

-- A book of a domain that the subscriptions of a projector router do not list is refused as
-- unimplemented.
dispatch_projector_unsubscribed :
    (r : ProjectorRouter) (book : EventBook) (cover : Cover)
    → book.cover ≡ some cover
    → lookup cover.domain (projector_subscriptions r) ≡ none
    → dispatch_projector r (some book)
      ≡ err (status unimplemented ("no handler for domain: " ⧺ cover.domain))
unfolding dispatch_projector
dispatch_projector_unsubscribed r book cover covered unsubscribed =
    let missing =
      found_types-none (λ h. h.event_types) (lookup cover.domain r.domains)
        (sym (lookup-types_of (λ h. h.event_types) cover.domain r.domains) ∙ unsubscribed) in
    ap (project_covered r book) covered ∙ ap (project_with book cover.domain) missing
