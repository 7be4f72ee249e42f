-- ===== src/ProcessManager/Answers.antt =====
-- `ProcessManagerBase.Handle` of pm_oo.go: which handler each event of a trigger reaches, and what
-- the answers make up.
use angzarr_client_go.Prelude.{
  ◌⧺◌, Option, none, some, Bool, true, false, List, [], ◌∷◌, ◌≡◌, refl, ap, ◌∙◌, lookup, str_eq,
  str_eq-append, if◌then◌else◌,
}
use angzarr_client_go.Proto.{
  Any, EventPage, EventBook, CommandBook, Notification, RejectionNotification,
}
use angzarr_client_go.Errors.{Result, ok, err}
use angzarr_client_go.Codec.{Codec}
use angzarr_client_go.Compensation.{RejectionHandlerResponse, extract_rejection_key}
use angzarr_client_go.Destinations.{Destinations}
use angzarr_client_go.Helpers.TypeUrl.{type_url_prefix, notification_type_name, match_type}
use angzarr_client_go.Helpers.TypeUrl.Matching.{match_type-prefix}
use angzarr_client_go.Helpers.TypeUrl.Named.{Named, Holds, nothing, onward, any_named, event_of}
use angzarr_client_go.ProcessManager.{
  ProcessManager, PmHandler, Response, pages_of, handle_notification, call_matched, respond_handled,
  rejection_response, page_response, handle_trigger, handle_pages, handle, rebuild_state, respond,
  respond_to, respond_decoded, rejection_of,
}
use angzarr_client_go.ProcessManager.Rebuilt.{
  state_pages, started, replayed, rebuild_state-replayed,
}
use angzarr_client_go.ProcessManager.Trigger.{◌⊗◌, translate, handle_pages-translate, empty-⊗}

abbrev pub silent : Response
silent = record { commands = []; process_pages = []; notification = none }

abbrev own_pages : Option EventBook → List EventPage
own_pages none = []
own_pages (some book) = book.pages

-- What an event handler's results are: its commands, and the pages of its own events.
abbrev reported : Result (List CommandBook × Option EventBook) → Result Response
reported (err e) = err e
reported (ok (commands, own)) =
    ok (record { commands = commands; process_pages = own_pages own; notification = none })

-- What a rejection handler's answer is: the pages of its events, and its notification.
abbrev compensated : Option RejectionHandlerResponse → Response
compensated none = silent
compensated (some response) = record {
  commands = [];
  process_pages = own_pages response.events;
  notification = response.notification;
}

module _ {S : Type 0} (codec : Codec) (pm : ProcessManager S) (trigger : EventBook) (state : S)
    (dests : Option Destinations) where
  abbrev pub handled : Any → Option (PmHandler S) → Result Response
  handled event none = ok silent
  handled event (some handler) = reported (handler trigger state event dests)

  abbrev pub asked :
      Notification
      → Option (S → Notification → Option RejectionHandlerResponse)
      → Option RejectionHandlerResponse
  asked notification none = none
  asked notification (some handler) = handler state notification

  -- The handler for a rejected command is registered under the command's domain and type.
  abbrev pub rejected :
      Notification → Result RejectionNotification → Option RejectionHandlerResponse
  rejected notification (err e) = none
  rejected notification (ok rejection) = asked notification (
      lookup ((extract_rejection_key rejection).0 ⧺ "/" ⧺ (extract_rejection_key rejection).1)
        pm.rejections)

  -- The rejection is decoded from the notification's payload; without a payload it names no command.
  abbrev pub carried : Notification → Option Any → Option RejectionHandlerResponse
  carried notification none =
      rejected notification (ok (record { rejected_command = none; rejection_reason = "" }))
  carried notification (some payload) =
      rejected notification (codec.unmarshal_rejection payload.value)

  abbrev pub notified : Result Notification → Option RejectionHandlerResponse
  notified (err e) = none
  notified (ok notification) = carried notification notification.payload

  -- What one event gives.
  abbrev pub answer : Named → Result Response
  answer none = ok silent
  answer (some (name, value)) =
      if str_eq name notification_type_name
      then ok (compensated (notified (codec.unmarshal_to_notification (any_named name value))))
      else handled (any_named name value) (lookup name pm.handlers)

  -- The answers to a history, joined in its order.
  pub answers : List Named → Result Response
  answers [] = ok silent
  answers (x ∷ xs) = answer x ⊗ answers xs

  pages_of-own_pages : (book : Option EventBook) → pages_of book ≡ own_pages book
  pages_of-own_pages none = refl
  pages_of-own_pages (some book) = refl

  respond_handled-reported :
      (r : Result (List CommandBook × Option EventBook)) → respond_handled r ≡ reported r
  respond_handled-reported (err e) = refl
  respond_handled-reported (ok (commands, own)) =
      ap (λ pages. ok (record { commands = commands; process_pages = pages; notification = none }))
        (pages_of-own_pages own)

  call_matched-handled :
      (event : Any) (found : Option (PmHandler S))
      → call_matched trigger state event dests found ≡ handled event found
  call_matched-handled event none = refl
  call_matched-handled event (some handler) =
      respond_handled-reported (handler trigger state event dests)

  rejection_response-compensated :
      (response : Option RejectionHandlerResponse)
      → rejection_response response ≡ compensated response
  rejection_response-compensated none = refl
  rejection_response-compensated (some response) =
      ap
        (λ pages. record {
          commands = [];
          process_pages = pages;
          notification = response.notification;
        })
        (pages_of-own_pages response.events)

  respond-asked :
      (notification : Notification)
      (found : Option (S → Notification → Option RejectionHandlerResponse))
      → respond state notification found ≡ asked notification found
  respond-asked notification none = refl
  respond-asked notification (some handler) = refl

  respond_to-rejected :
      (notification : Notification) (r : Result RejectionNotification)
      → respond_to pm state notification r ≡ rejected notification r
  respond_to-rejected notification (err e) = refl
  respond_to-rejected notification (ok rejection) = respond-asked notification (
      lookup ((extract_rejection_key rejection).0 ⧺ "/" ⧺ (extract_rejection_key rejection).1)
        pm.rejections)

  respond_to-carried :
      (notification : Notification) (payload : Option Any)
      → respond_to pm state notification (rejection_of codec payload) ≡ carried notification payload
  respond_to-carried notification none = respond_to-rejected notification (rejection_of codec none)
  respond_to-carried notification (some payload) =
      respond_to-rejected notification (rejection_of codec (some payload))

  respond_decoded-notified :
      (r : Result Notification) → respond_decoded codec pm state r ≡ notified r
  respond_decoded-notified (err e) = refl
  respond_decoded-notified (ok notification) = respond_to-carried notification notification.payload

  page_response-answer :
      (x : Named) → page_response codec pm trigger state dests (event_of x) ≡ answer x
  unfolding handle_notification
  page_response-answer none = refl
  page_response-answer (some (name, value)) =
      ap
        (λ b.
          if b
          then ok (rejection_response (handle_notification codec pm state event))
          else call_matched trigger state event dests (match_type event.type_url pm.handlers))
        (str_eq-append type_url_prefix name notification_type_name)
      ∙ decided (str_eq name notification_type_name)
    where
      event : Any
      event = any_named name value

      decided :
          (b : Bool)
          → (if b
              then ok (rejection_response (handle_notification codec pm state event))
              else call_matched trigger state event dests (match_type event.type_url pm.handlers))
            ≡ (if b
                then ok (compensated (notified (codec.unmarshal_to_notification event)))
                else handled event (lookup name pm.handlers))
      decided true =
          ap (λ o. ok (rejection_response o))
            (respond_decoded-notified (codec.unmarshal_to_notification event))
          ∙ ap ok (rejection_response-compensated _)
      decided false =
          ap (call_matched trigger state event dests) (match_type-prefix name pm.handlers)
          ∙ call_matched-handled event (lookup name pm.handlers)

  translate-answers :
      {pages : List EventPage} {xs : List Named}
      → Holds pages xs
      → translate codec pm trigger state dests pages ≡ answers xs
  unfolding translate answers
  translate-answers nothing = refl
  translate-answers (onward {pages = pages} {x = x} e h) =
      ap
        (λ o.
          page_response codec pm trigger state dests o
          ⊗ translate codec pm trigger state dests pages)
        e
      ∙ ap (λ r. r ⊗ translate codec pm trigger state dests pages) (page_response-answer x)
      ∙ ap (λ r. answer x ⊗ r) (translate-answers h)

-- `Handle` on a trigger joins, in the order of the pages, what each event gives, and the first error
-- of a handler is the result. An event of a registered full name gives the commands and the own
-- events of the handler of that name, which sees the trigger, the event, the destinations and the
-- state: the replay of the process state's events, each by the applier of its full name, from the
-- factory's state, or from the zero value without a factory. A notification gives the events and the notification
-- of the rejection handler that is registered for the domain and the type of the rejected command,
-- called with that state; the last notification wins. All other events, and notifications that do
-- not decode, give nothing. What is asked of the trigger and of the process state: their events' type URLs have
-- the prefix that `anypb.New` gives.
pub handle-eq-answers :
    {S : Type 0} (codec : Codec) (zero : S) (pm : ProcessManager S) (trigger : EventBook)
    (process_state : Option EventBook) (dests : Option Destinations) (xs ys : List Named)
    → Holds trigger.pages xs
    → Holds (state_pages process_state) ys
    → handle codec zero pm (some trigger) process_state dests
      ≡ answers codec pm trigger (replayed pm (started zero pm.state_factory) ys) dests xs
unfolding handle handle_pages translate
handle-eq-answers codec zero pm trigger process_state dests xs ys held recorded =
    go trigger.pages
    ∙ translate-answers codec pm trigger (rebuild_state zero pm process_state) dests held
    ∙ ap (λ s. answers codec pm trigger s dests xs)
        (rebuild_state-replayed pm zero process_state ys recorded)
  where
    go :
        (ps : List EventPage)
        → handle_trigger codec zero pm trigger process_state dests ps
          ≡ translate codec pm trigger (rebuild_state zero pm process_state) dests ps
    go [] = refl
    go (p ∷ ps) =
        handle_pages-translate codec pm trigger (rebuild_state zero pm process_state) dests silent
          (p ∷ ps)
        ∙ empty-⊗ _
