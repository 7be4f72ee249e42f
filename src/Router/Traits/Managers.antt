-- ===== src/Router/Traits/Managers.antt =====
-- `ProcessManagerRouter` of router.go.
use angzarr_client_go.Prelude.{
  ℕ, String, ◌⧺◌, Option, none, some, List, [], ◌∷◌, if◌then◌else◌, GoMap, lookup, insert, map,
  last?,
}
use angzarr_client_go.Proto.{Any, EventPage, EventBook, ProcessManagerHandleResponse}
use angzarr_client_go.Errors.{Code, Result, ok, err, status, invalid_argument, unimplemented, ◌>>=◌}
use angzarr_client_go.Codec.{Codec}
use angzarr_client_go.Destinations.{new_destinations}
use angzarr_client_go.Router.Traits.{
  ProcessManagerResponse, ProcessManagerDomainHandler, ProcessManagerRouter, ends_in_notification,
  compensation_events, domain_or_empty, notified,
}

-- `NewProcessManagerRouter`.
abbrev pub new_process_manager_router :
    {S : Type 0} → (name pm_domain : String) → (Option EventBook → S) → ProcessManagerRouter S
new_process_manager_router name pm_domain rebuild = record {
  name = name;
  pm_domain = pm_domain;
  rebuild = rebuild;
  domains = [];
}

-- `ProcessManagerRouter.Domain`.
abbrev pub pm_domain :
    {S : Type 0}
    → ProcessManagerRouter S
    → String
    → ProcessManagerDomainHandler S
    → ProcessManagerRouter S
pm_domain r name handler = record r { domains = insert name handler r.domains }

-- `ProcessManagerRouter.Subscriptions`, in the order of the range.
abbrev pub pm_subscriptions : {S : Type 0} → ProcessManagerRouter S → GoMap (List String)
pm_subscriptions r = map (λ (domain, handler). (domain, handler.event_types)) r.domains

abbrev pm_results : Option ProcessManagerResponse → ProcessManagerHandleResponse
pm_results none = record { commands = []; process_events = [] }
pm_results (some response) = record {
  commands = response.commands;
  process_events = elim response.process_events [ none ↦ [] | some book ↦ book ∷ [] ];
}

-- The text of an error of the gRPC status package is `status_text`.
module _ (status_text : Code → String → String) (codec : Codec) where
  -- `dispatchPMNotification`.
  abbrev dispatch_pm_notification :
      {S : Type 0} → ProcessManagerDomainHandler S → Any → S → Result ProcessManagerHandleResponse
  dispatch_pm_notification handler event state =
      notified status_text codec event (λ notification domain cmd.
        handler.on_rejected notification state domain cmd >>= λ response.
        ok (record { commands = []; process_events = compensation_events response }))

  abbrev pub dispatch_pm_event :
      {S : Type 0}
      → ProcessManagerDomainHandler S
      → EventBook
      → S
      → Option (GoMap ℕ)
      → Option Any
      → Result ProcessManagerHandleResponse
  dispatch_pm_event handler trigger state sequences none =
      err (status invalid_argument "missing event payload")
  dispatch_pm_event handler trigger state sequences (some event) =
      if ends_in_notification event.type_url
      then dispatch_pm_notification handler event state
      else handler.handle trigger state event (new_destinations sequences) >>= λ response.
          ok (pm_results response)

  abbrev pub dispatch_pm_for :
      {S : Type 0}
      → ProcessManagerRouter S
      → EventBook
      → Option EventBook
      → Option (GoMap ℕ)
      → EventPage
      → Option (ProcessManagerDomainHandler S)
      → Result ProcessManagerHandleResponse
  dispatch_pm_for r trigger process_state sequences page none =
      err (status unimplemented ("no handler for domain: " ⧺ domain_or_empty trigger.cover))
  dispatch_pm_for r trigger process_state sequences page (some handler) =
      dispatch_pm_event handler trigger (r.rebuild process_state) sequences page.event

  abbrev pub dispatch_pm_page :
      {S : Type 0}
      → ProcessManagerRouter S
      → EventBook
      → Option EventBook
      → Option (GoMap ℕ)
      → Option EventPage
      → Result ProcessManagerHandleResponse
  dispatch_pm_page r trigger process_state sequences none =
      err (status invalid_argument "trigger event book has no events")
  dispatch_pm_page r trigger process_state sequences (some page) =
      dispatch_pm_for r trigger process_state sequences page
        (lookup (domain_or_empty trigger.cover) r.domains)

  -- `ProcessManagerRouter.Dispatch`.
  unfoldable pub dispatch_pm :
      {S : Type 0}
      → ProcessManagerRouter S
      → (trigger process_state : Option EventBook) → Option (GoMap ℕ)
      → Result ProcessManagerHandleResponse
  dispatch_pm r none process_state sequences =
      err (status invalid_argument "trigger event book has no events")
  dispatch_pm r (some trigger) process_state sequences =
      dispatch_pm_page r trigger process_state sequences (last? trigger.pages)
