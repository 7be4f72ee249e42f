-- ===== src/Tests/Routers.antt =====
-- Requests and histories that the routers of router.go take.
use angzarr_client_go.Prelude.{
  ℕ, ◌+◌, none, some, List, [], ◌∷◌, ◌≡◌, ◌≢◌, refl, arith, eq_iff, lookup, after_last, ap,
  has_suffix,
}
use angzarr_client_go.Proto.{ContextualCommand, BusinessResponse}
use angzarr_client_go.Errors.{ok, err, plain, ◌>>=◌}
use angzarr_client_go.Helpers.TypeUrl.{type_name_from_url, notification_type_name}
use angzarr_client_go.Helpers.TypeUrl.Named.{Named, nothing, onward}
use angzarr_client_go.Helpers.Books.{next_sequence}
use angzarr_client_go.Compensation.{dispatch_key}
use angzarr_client_go.Destinations.{new_destinations}
use angzarr_client_go.Router.State.{
  StateRouter, make_event_applier, new_state_router, on as on_state, to_rebuilder, with_event_book,
}
use angzarr_client_go.Router.State.Rebuild.{replayed, with_event_book-replayed}
use angzarr_client_go.Router.Command.{
  CommandRouter, CommandHandler, RevocationHandler, new_command_router, on, on_rejected, dispatch,
}
use angzarr_client_go.Router.Command.Dispatch.{dispatch_registered}
use angzarr_client_go.Router.Command.Rejection.{
  IsRejection, dispatch-on_rejected, dispatch-on_rejected_other,
}
use angzarr_client_go.Router.Event
use angzarr_client_go.Router.Event.{EventRouter, EventHandler}
use angzarr_client_go.Router.Event.Dispatch.{translate, dispatch-eq-translate}
use angzarr_client_go.Router.Traits.{
  CommandHandlerDomainHandler, CommandHandlerRouter, ProcessManagerDomainHandler,
  ProcessManagerRouter, dispatch_command,
}
use angzarr_client_go.Router.Traits.Managers.{new_process_manager_router, pm_domain}
use angzarr_client_go.Router.Traits.Subscriptions.{new_command_handler_router}
use angzarr_client_go.Router.Traits.Agreement.{as_handler, dispatch-as_handler}
use angzarr_client_go.Router.Traits.Rejections.{with_handle, dispatch_command-shadowed}
use angzarr_client_go.Tests.Data.{
  add, added, any_of, codec, command_book, command_page, domain_cover, event_page, history, notice,
  notification, rejection, request, total,
}

abbrev balance : StateRouter ℕ
balance =
    on_state (new_state_router 0)
      (make_event_applier "bank.Added" (λ bytes. ok bytes) (λ b bytes. b + total bytes))

-- The events of the history by name.
abbrev sums : List Named
sums = some ("bank.Added", added.value) ∷ some ("bank.Added", added.value) ∷ []

with_event_book-replayed_example : with_event_book balance (some history) ≡ replayed balance 0 sums
with_event_book-replayed_example =
    with_event_book-replayed balance history sums (onward refl (onward refl nothing))

-- The handler answers with the prior events and a new one that holds the sum.
abbrev add_handler : CommandHandler ℕ
add_handler book command sum seq =
    ok (some (record history { pages = event_page seq (any_of "bank.Added" (sum ∷ [])) ∷ [] }))

abbrev router : CommandRouter ℕ
router = on (new_command_router "bank" (to_rebuilder balance)) "bank.Add" add_handler

add-ne-notification : "bank.Add" ≢ notification_type_name
add-ne-notification e = cc ((eq_iff "bank.Add" notification_type_name).1 e)

dispatch_registered_example : dispatch codec router (some (request add)) ≡ (
    add_handler
      (command_book add)
      add
      (router.rebuild (some history))
      (next_sequence (some history))
    >>= λ events. ok (some (BusinessResponse.events events)))
unfolding lookup
dispatch_registered_example =
    dispatch_registered codec router (request add) (command_book add) add "bank.Add" add_handler
      (command_page add, [], refl, refl, refl) refl add-ne-notification refl

dispatch-as_handler_example : dispatch codec router (some (request add)) ≡ (
    dispatch_command
      (λ c s. s)
      codec
      (new_command_handler_router "bank" "bank"
        (as_handler router (λ n sum domain command. ok none)))
      (some (request add))
    >>= λ response. ok (some response))
unfolding has_suffix
dispatch-as_handler_example =
    dispatch-as_handler (λ c s. s) codec router (λ n sum domain command. ok none) "bank"
      (request add) history (command_book add) add (command_page add, [], refl, refl, refl) refl
      refl refl

rejected : IsRejection codec (request notice) notification rejection
rejected = record {
  book = command_book notice;
  command = notice;
  carried = (command_page notice, [], refl, refl, refl);
  url = refl;
  decoded = refl;
  payload = refl;
}

abbrev restock : RevocationHandler ℕ
restock n sum = some (BusinessResponse.notification n)

dispatch-on_rejected_example :
    dispatch codec (on_rejected router "stock" "stock.Reserve" restock) (some (request notice))
    ≡ ok (restock notification (router.rebuild (some history)))
unfolding dispatch_key type_name_from_url after_last
dispatch-on_rejected_example =
    dispatch-on_rejected codec router (request notice) notification rejection "stock"
      "stock.Reserve" restock rejected refl

other_key : dispatch_key rejection ≢ ("stock", "stock.Release")
unfolding dispatch_key type_name_from_url after_last
other_key e = cc ((eq_iff "stock.Reserve" "stock.Release").1 (ap (λ k. k.1) e))

dispatch-on_rejected_other_example :
    dispatch codec (on_rejected router "stock" "stock.Release" restock) (some (request notice))
    ≡ dispatch codec router (some (request notice))
unfolding dispatch_key type_name_from_url after_last
dispatch-on_rejected_other_example =
    dispatch-on_rejected_other codec router (request notice) notification rejection "stock"
      "stock.Release" restock rejected (ground arith) other_key

abbrev forward : EventHandler
forward source event destinations = ok (command_book event ∷ [])

abbrev events_router : EventRouter
events_router = record {
  name = "saga";
  current_domain = "bank";
  handlers = ("bank", ("bank.Added", forward) ∷ []) ∷ [];
}

dispatch-eq-translate_example :
    Event.dispatch events_router (some history) (some (("stock", 7) ∷ []))
    ≡ translate
        (("bank.Added", forward) ∷ [])
        history
        (new_destinations (some (("stock", 7) ∷ [])))
        history.pages
unfolding lookup
dispatch-eq-translate_example =
    dispatch-eq-translate events_router history (domain_cover "bank") (some (("stock", 7) ∷ []))
      (("bank.Added", forward) ∷ []) refl refl

-- A request whose command has no type URL.
abbrev blank_request : ContextualCommand
blank_request = request (record { type_url = ""; value = [] })

-- A domain handler whose commands end in "Notification".
abbrev send_handler : CommandHandlerDomainHandler ℕ
send_handler = record {
  command_types = "bank.SendNotification" ∷ [];
  rebuild = to_rebuilder balance;
  handle = λ book command sum seq. ok none;
  on_rejected = λ n sum domain command. ok none;
}

abbrev send_router : CommandHandlerRouter ℕ
send_router = record { name = "bank"; domain = "bank"; handler = send_handler }

dispatch_command-shadowed_example :
    dispatch_command
      (λ c s. s)
      codec
      (with_handle send_router (λ book command sum seq. err (plain "refused")))
      (some (request (any_of "bank.SendNotification" [])))
    ≡ dispatch_command
        (λ c s. s)
        codec
        send_router
        (some (request (any_of "bank.SendNotification" [])))
unfolding has_suffix
dispatch_command-shadowed_example =
    dispatch_command-shadowed (λ c s. s) codec send_router
      (λ book command sum seq. err (plain "refused")) (request (any_of "bank.SendNotification" []))
      (command_book (any_of "bank.SendNotification" [])) (any_of "bank.SendNotification" [])
      (command_page (any_of "bank.SendNotification" []), [], refl, refl, refl) refl

abbrev pm_handler : ProcessManagerDomainHandler ℕ
pm_handler = record {
  event_types = "bank.Added" ∷ [];
  handle = λ trigger state event dests. ok none;
  on_rejected =
      λ n state domain command. ok (some (record { events = some history; notification = none }));
}

abbrev pm_router : ProcessManagerRouter ℕ
pm_router =
    pm_domain (new_process_manager_router "flow" "flow" (to_rebuilder balance)) "bank" pm_handler
