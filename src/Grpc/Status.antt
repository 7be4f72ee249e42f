-- ===== src/Grpc/Status.antt =====
-- The gRPC statuses that the services of handler.go answer with.
use angzarr_client_go.Prelude.{
  String, Option, none, some, List, true, false, ◌≡◌, refl, ap, ◌∙◌, ◌⊎◌, inl, inr,
}
use angzarr_client_go.Proto.{
  EventBook, CommandBook, ContextualCommand, Notification, SagaHandleRequest,
  ProcessManagerHandleRequest,
}
use angzarr_client_go.Errors.{
  Error, Code, Result, ok, err, status, failed_precondition, invalid_argument, as_rejected,
  error_text, ◌>>=◌,
}
use angzarr_client_go.Errors.{grpc_error}
use angzarr_client_go.Errors.Client.{code, is_precondition_failed, is_invalid_argument}
use angzarr_client_go.Codec.{Codec}
use angzarr_client_go.Destinations.{Destinations, new_destinations}
use angzarr_client_go.Router.Event.{EventRouter}
use angzarr_client_go.Router.Command
use angzarr_client_go.Router.Event
use angzarr_client_go.Saga.{SagaHandlerResponse}
use angzarr_client_go.Grpc.{
  CommandHandlerGrpc, respond, status_of, saga_commands, saga_response, oo_pm_response, dispatch,
  saga_handle, oo_saga_handle, oo_pm_handle,
}

-- How an error is answered: a rejection anywhere in its chain as a failed precondition with the
-- rejection's message, any other error as an invalid argument with the error's text.
abbrev pub IsRefusal : (Code → String → String) → Error → Error → Type 0
IsRefusal status_text e answer =
    ((message : String) × (as_rejected e ≡ some message)
      × (answer ≡ status failed_precondition message))
    ⊎ ((as_rejected e ≡ none) × (answer ≡ status invalid_argument (error_text status_text e)))

-- What a service answers to the result that it wraps: a result with a result, an error with its
-- refusal.
abbrev pub Answers : {A B : Type 0} → (Code → String → String) → Result A → Result B → Type 0
Answers status_text (ok a) (ok b) = Unit
Answers status_text (ok a) (err answer) = ⊥
Answers status_text (err e) (ok b) = ⊥
Answers status_text (err e) (err answer) = IsRefusal status_text e answer

module _ (status_text : Code → String → String) where
  status_of-IsRefusal :
      (e : Error) (o : Option String)
      → as_rejected e ≡ o
      → IsRefusal status_text e (status_of status_text e o)
  status_of-IsRefusal e (some message) h = inl (message, h, refl)
  status_of-IsRefusal e none h = inr (h, refl)

  respond-Answers : {A : Type 0} (r : Result A) → Answers status_text r (respond status_text r)
  respond-Answers (ok a) = tt
  respond-Answers (err e) = status_of-IsRefusal e (as_rejected e) refl

  respond_then-Answers :
      {A B : Type 0} (r : Result A) (f : A → B)
      → Answers status_text r (respond status_text r >>= λ a. ok (f a))
  respond_then-Answers (ok a) f = tt
  respond_then-Answers (err e) f = status_of-IsRefusal e (as_rejected e) refl

  -- The command, saga, OO-style saga and OO-style process manager services answer with a result when
  -- what they wrap gives one, and with its refusal when it gives an error: a rejection is a failed
  -- precondition with the rejection's message, however deeply it is wrapped, and every other error
  -- an invalid argument with its text.
  pub services-Answers :
      {S : Type 0} (codec : Codec) (h : CommandHandlerGrpc S) (router : EventRouter)
      (saga : Option EventBook → Destinations → Result (Option SagaHandlerResponse))
      (pm : Option EventBook
        → Option EventBook
        → Destinations
        → Result (List CommandBook × Option EventBook × Option Notification))
      (command : Option ContextualCommand) (to_saga : SagaHandleRequest)
      (to_pm : ProcessManagerHandleRequest)
      → Answers status_text
          (Command.dispatch codec h.router command)
          (dispatch status_text codec h command)
        × Answers status_text
            (Event.dispatch router to_saga.source to_saga.destination_sequences)
            (saga_handle status_text router to_saga)
        × Answers status_text
            (saga to_saga.source (new_destinations to_saga.destination_sequences))
            (oo_saga_handle status_text saga to_saga)
        × Answers status_text
            (pm to_pm.trigger to_pm.process_state (new_destinations to_pm.destination_sequences))
            (oo_pm_handle status_text pm to_pm)
  unfolding dispatch saga_handle oo_saga_handle oo_pm_handle
  services-Answers codec h router saga pm command to_saga to_pm = (
    respond-Answers (Command.dispatch codec h.router command),
    respond_then-Answers (Event.dispatch router to_saga.source to_saga.destination_sequences)
        saga_commands,
    respond_then-Answers (saga to_saga.source (new_destinations to_saga.destination_sequences))
        saga_response,
    respond_then-Answers
        (pm to_pm.trigger to_pm.process_state (new_destinations to_pm.destination_sequences))
        oo_pm_response,
  )

-- The notification is left out of what a process manager gives.
abbrev without_notification :
    Result (List CommandBook × Option EventBook × Option Notification)
    → Result (List CommandBook × Option EventBook × Option Notification)
without_notification (err e) = err e
without_notification (ok (commands, process_events, notification)) =
    ok (commands, process_events, none)

-- The service of an OO-style process manager answers the same whether or not the process manager
-- gives a notification: it never reaches the response.
oo_pm_handle-drops_notification :
    (status_text : Code → String → String)
    (pm : Option EventBook
      → Option EventBook
      → Destinations
      → Result (List CommandBook × Option EventBook × Option Notification))
    (req : ProcessManagerHandleRequest)
    → oo_pm_handle status_text pm req
      ≡ oo_pm_handle status_text
          (λ trigger process_state dests. without_notification (pm trigger process_state dests))
          req
unfolding oo_pm_handle
oo_pm_handle-drops_notification status_text pm req =
    go (pm req.trigger req.process_state (new_destinations req.destination_sequences))
  where
    go :
        (r : Result (List CommandBook × Option EventBook × Option Notification))
        → (respond status_text r >>= λ results. ok (oo_pm_response results)) ≡ (
            respond status_text (without_notification r) >>= λ results. ok (oo_pm_response results))
    go (err e) = refl
    go (ok (commands, process_events, notification)) = refl

-- A client that wraps the service's answer with `GRPCError` finds a rejection as a failed
-- precondition, and not as an invalid argument, however deeply the service's code wrapped it. What is
-- used of the status package: `FromError` finds the code of a status error.
pub rejection-IsPreconditionFailed :
    (status_text : Code → String → String) (from_error : Error → Option Code) {S : Type 0}
    (codec : Codec) (h : CommandHandlerGrpc S) (command : Option ContextualCommand) (e : Error)
    (message : String)
    → ((c : Code) (m : String) → from_error (status c m) ≡ some c)
    → Command.dispatch codec h.router command ≡ err e
    → as_rejected e ≡ some message
    → (answer : Error) × (dispatch status_text codec h command ≡ err answer)
      × (is_precondition_failed from_error (grpc_error answer) ≡ true)
      × (is_invalid_argument from_error (grpc_error answer) ≡ false)
unfolding dispatch is_precondition_failed is_invalid_argument code
rejection-IsPreconditionFailed status_text from_error codec h command e message finds fails
      rejects =
    (
      status failed_precondition message,
      ap (respond status_text) fails ∙ ap (λ o. err (status_of status_text e o)) rejects,
      rw (finds failed_precondition message),
      rw (finds failed_precondition message),
    )
