-- ===== src/Aggregate/Requests.antt =====
-- Whole requests to `CommandHandlerBase` of aggregate_oo.go.
use angzarr_client_go.Prelude.{
  ◌^◌, ◌<◌, Option, none, some, false, List, ◌≡◌, ap, ◌∙◌, sym, Bool-cases, inl, inr, ◌⊎◌, str_eq,
  head?,
}
use angzarr_client_go.Proto.{Any, CommandBook, BusinessResponse}
use angzarr_client_go.Errors.{Error, Result, ok, err}
use angzarr_client_go.Codec.{Codec}
use angzarr_client_go.Compensation.{command_of}
use angzarr_client_go.Helpers.TypeUrl.{match_type, is_notification}
use angzarr_client_go.Aggregate.{
  Data, Registry, ensure_state, finish_single, finish_multi, run_single, run_multi, dispatch,
  events_response, handle_command, handle,
}
use angzarr_client_go.Aggregate.Replay.{IsSound, dispatch-replay}

-- What a call that fails may have done to the data: nothing, or the rebuild of the state.
abbrev pub IsUnrecorded : {S M : Type 0} → Registry S M → (d d' : Data S) → Type 0
IsUnrecorded reg d d' = (d' ≡ d) ⊎ (d' ≡ ensure_state reg d)

module _ {S M : Type 0} (reg : Registry S M) (pack : M → Result Any) (d d' : Data S)
    (e : Error) where
  finish_single-error :
      (r : Result (Option M))
      → finish_single reg pack (ensure_state reg d) r ≡ (d', err e)
      → IsUnrecorded reg d d'
  finish_single-error (err e') h = inr (cc h)
  finish_single-error (ok event) h = absurd (cc h)

  finish_multi-error :
      (r : Result (List (Option M)))
      → finish_multi reg pack (ensure_state reg d) r ≡ (d', err e)
      → IsUnrecorded reg d d'
  finish_multi-error (err e') h = inr (cc h)
  finish_multi-error (ok recorded) h = absurd (cc h)

  run_multi-error :
      (cmd : Any) (o : Option (Data S → Any → Result (List (Option M))))
      → run_multi reg pack d cmd o ≡ (d', err e)
      → IsUnrecorded reg d d'
  run_multi-error cmd none h = inl (cc h)
  run_multi-error cmd (some handler) h = finish_multi-error (handler (ensure_state reg d) cmd) h

  run_single-error :
      (cmd : Any) (o : Option (Data S → Any → Result (Option M)))
      → run_single reg pack d cmd o ≡ (d', err e)
      → IsUnrecorded reg d d'
  run_single-error cmd none h = run_multi-error cmd (match_type cmd.type_url reg.multi_handlers) h
  run_single-error cmd (some handler) h = finish_single-error (handler (ensure_state reg d) cmd) h

  -- A dispatch that ends in an error records no event: the data is as before or, when a handler was
  -- reached, as `State()` leaves it.
  pub dispatch-error :
      (cmd : Option Any) → dispatch reg pack d cmd ≡ (d', err e) → IsUnrecorded reg d d'
  unfolding dispatch
  dispatch-error none h = inl (cc h)
  dispatch-error (some cmd) h = elim (Bool-cases (str_eq cmd.type_url "")) [
    | inl blank ↦ inl (cc (blank, h))
    | inr named ↦ run_single-error cmd (match_type cmd.type_url reg.handlers) (rw named at h)
  ]

module _ {S M : Type 0} (reg : Registry S M) (pack : M → Result Any) (codec : Codec) where
  events_response-ok :
      (r : Data S × Result (Unit {0})) (d' : Data S) (resp : Option BusinessResponse)
      → events_response reg pack r ≡ (d', ok resp)
      → (r ≡ (d', ok tt)) × (resp ≡ some (BusinessResponse.events (some d'.event_book)))
  events_response-ok (d1, err e) d' resp h = absurd (cc h)
  events_response-ok (d1, ok tt) d' resp h =
      let same : d1 ≡ d' = ap (λ r. r.0) h in (ap (λ x. (x, ok tt)) same, cc (h, same))

  handle-events_response :
      (d : Data S) (book : CommandBook) (cmd : Any)
      → command_of (head? book.pages) ≡ some cmd
      → str_eq cmd.type_url "" ≡ false
      → is_notification cmd.type_url ≡ false
      → handle reg pack codec d book ≡ events_response reg pack (dispatch reg pack d (some cmd))
  unfolding handle
  handle-events_response d book cmd carried named other =
      ap (handle_command reg pack codec d) carried ∙ rw (named, other)

  -- A request that carries a command other than a notification, on a base whose state was not built
  -- yet: an answer without an error holds the event book with the recorded events, which continue
  -- the prior ones, and the state in memory is their replay.
  pub handle-replay :
      (d d' : Data S) (book : CommandBook) (cmd : Any) (resp : Option BusinessResponse)
      → d.state_set ≡ false
      → d.event_book.next_sequence < 2 ^ 32
      → command_of (head? book.pages) ≡ some cmd
      → is_notification cmd.type_url ≡ false
      → handle reg pack codec d book ≡ (d', ok resp)
      → (resp ≡ some (BusinessResponse.events (some d'.event_book)))
        × IsSound reg d.event_book.next_sequence d.event_book.pages d'
  unfolding handle
  handle-replay d d' book cmd resp unset small carried other h =
      elim (Bool-cases (str_eq cmd.type_url "")) [
        | inl blank ↦ absurd (cc (sym (ap (handle_command reg pack codec d) carried) ∙ h, blank))
        | inr named ↦
            let (dispatched, answered) =
              events_response-ok (dispatch reg pack d (some cmd)) d' resp
                (sym (handle-events_response d book cmd carried named other) ∙ h) in
            (answered, dispatch-replay reg pack d d' (some cmd) unset small dispatched)
      ]
