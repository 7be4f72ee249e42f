-- ===== src/Tests/Coordinators.antt =====
-- Histories that sagas, process managers, projectors and the cloud-event router take.
use angzarr_client_go.Prelude.{
  ℕ, ◌+◌, String, Option, none, some, List, [], ◌∷◌, ◌++◌, ◌≡◌, refl, insert, after_last,
  Lacks-of_after_last,
}
use angzarr_client_go.Proto.{EventBook, Projection}
use angzarr_client_go.Errors.{ok}
use angzarr_client_go.Helpers.TypeUrl.{match_type, notification_type_name}
use angzarr_client_go.Helpers.TypeUrl.Named.{Named, nothing, onward}
use angzarr_client_go.Saga.{
  SagaBase, response, init as init_saga, handles as saga_handles, handle as saga_handle,
}
use angzarr_client_go.Saga.Facts.{translate as saga_translate, handle-eq-translate}
use angzarr_client_go.ProcessManager.{
  ProcessManager, init as init_pm, handles as pm_handles, applies, on_rejected, handle as pm_handle,
}
use angzarr_client_go.ProcessManager.Rebuilt.{replayed}
use angzarr_client_go.ProcessManager.Answers.{answers, handle-eq-answers}
use angzarr_client_go.Projector.{Projector, init, projects, handle}
use angzarr_client_go.Projector.Handling.{handle-first}
use angzarr_client_go.CloudEvents.{
  CloudEventsRouter, new_cloud_events_router, on, on_suffix, project,
}
use angzarr_client_go.CloudEvents.Published.{Fact, IsTyped, published, project-published}
use angzarr_client_go.Tests.Data.{
  added, closed, codec, command_book, domain_cover, event_page, history, notice,
}

-- A saga that queues a fact for each event that it answers with a command.
abbrev saga : SagaBase
saga =
    saga_handles (init_saga "saga-bank-stock" "bank" "stock") "bank.Added" (λ any. ok any)
      (λ event dests facts. (facts ++ history ∷ [], ok (some (command_book event))))

handle-eq-translate_example :
    saga_handle saga (history ∷ []) (some history) ≡ response (saga_translate saga [] history.pages)
handle-eq-translate_example =
    handle-eq-translate saga (history ∷ []) history (event_page 0 added) (event_page 1 added ∷ [])
      refl

abbrev flow : ProcessManager ℕ
flow =
    on_rejected
      (applies
        (pm_handles (init_pm "flow" "flow" ("bank" ∷ [])) "bank.Added" (λ any. ok any)
          (λ trigger count event dests. ok (command_book event ∷ [], some history)))
        "bank.Added" (λ any. ok any) (λ count any. count + 1))
      "stock" "stock.Reserve"
      (λ count n. some (record { events = some history; notification = some n }))

abbrev trigger : EventBook
trigger = record history { pages = event_page 2 added ∷ event_page 3 notice ∷ [] }

-- The trigger's events by name: an addition, and a notification of a rejection.
abbrev told : List Named
told = some ("bank.Added", added.value) ∷ some (notification_type_name, notice.value) ∷ []

-- Those of the history.
abbrev recorded : List Named
recorded = some ("bank.Added", added.value) ∷ some ("bank.Added", added.value) ∷ []

handle-eq-answers_example :
    pm_handle codec 0 flow (some trigger) (some history) none
    ≡ answers codec flow trigger (replayed flow 0 recorded) none told
handle-eq-answers_example =
    handle-eq-answers codec 0 flow trigger (some history) none told recorded
      (onward refl (onward refl nothing)) (onward refl (onward refl nothing))

abbrev summary : Projection
summary = record { cover = none; projector = "output"; sequence = 9; projection = none }

abbrev projector : Projector
projector =
    projects
      (projects (init "output" ("bank" ∷ [])) "bank.Added" (λ bytes. ok bytes) (λ bytes. none))
      "bank.Closed" (λ bytes. ok bytes) (λ bytes. some summary)

handle-first_example :
    handle projector (
      some
        (record history { pages = history.pages ++ event_page 2 closed ∷ event_page 3 added ∷ [] }))
    ≡ summary
unfolding match_type insert
handle-first_example =
    handle-first projector
      (record history { pages = history.pages ++ event_page 2 closed ∷ event_page 3 added ∷ [] })
      (domain_cover "bank") history.pages (event_page 2 closed) (event_page 3 added ∷ []) summary
      refl refl (refl, (refl, tt)) refl

-- Cloud events are texts here.
abbrev cloud : CloudEventsRouter String
cloud =
    on_suffix
      (on (new_cloud_events_router "cloud" "bank") "bank.Added" (λ bytes. ok bytes)
        (λ bytes. some "by name"))
      "Added" (λ any. some "by suffix")

-- The events of the history: each is an addition.
abbrev addition : Option Fact
addition = some (record { package_name = "bank"; simple = "Added"; value = added.value })

abbrev additions : List (Option Fact)
additions = addition ∷ addition ∷ []

added-IsTyped : IsTyped (record { package_name = "bank"; simple = "Added"; value = added.value })
unfolding after_last
added-IsTyped = record {
  no_slash = Lacks-of_after_last b'/' "bank.Added" refl;
  no_dot = Lacks-of_after_last b'.' "Added" refl;
}

project-published_example : project cloud (some history) ≡ published cloud additions
project-published_example =
    project-published cloud history additions (onward refl (onward refl nothing))
      (added-IsTyped, (added-IsTyped, tt))
