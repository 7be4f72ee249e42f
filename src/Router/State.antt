-- ===== src/Router/State.antt =====
-- `StateRouter` of router.go: state is rebuilt from events by registered appliers. A function that
-- writes to `*S` returns the new state.
pub mod Rebuild
use angzarr_client_go.Prelude.{String, Option, none, some, List, [], ◌∷◌, ◌++◌}
use angzarr_client_go.Proto.{Bytes, Any, EventPage, EventBook}
use angzarr_client_go.Errors.{Result, ok, err}
use angzarr_client_go.Helpers.TypeUrl.{Registrations, match_type}

-- `EventApplier`.
abbrev pub EventApplier : Type 0 → Type 0
EventApplier S = S → Bytes → S

-- `factory` is the value that the state factory makes, afresh on each call.
pub record StateRouter (S : Type 0) : Type 0 where
  pub factory : S
  pub handlers : Registrations (EventApplier S)

-- The wrapper that `makeEventApplier` makes, and `Applies` of aggregate_oo.go too: bytes that do not
-- decode leave the state as it is.
abbrev pub apply_decoded : {S E : Type 0} → (S → E → S) → S → Result E → S
apply_decoded handler state (ok event) = handler state event
apply_decoded handler state (err e) = state

-- `makeEventApplier`: reflection gives the event type's full name and decoder.
abbrev pub make_event_applier :
    {S E : Type 0}
    → (full_name : String) (unmarshal : Bytes → Result E) → (S → E → S)
    → String × EventApplier S
make_event_applier full_name unmarshal handler =
    (full_name, λ state value. apply_decoded handler state (unmarshal value))

module _ {S : Type 0} where
  -- `NewStateRouter`.
  abbrev pub new_state_router : S → StateRouter S
  new_state_router factory = record { factory = factory; handlers = [] }

  -- `On`, with what `makeEventApplier` made of its argument.
  abbrev pub on : StateRouter S → String × EventApplier S → StateRouter S
  on r (full_name, applier) = record r { handlers = r.handlers ++ (full_name, applier) ∷ [] }

  abbrev pub apply_matched : S → Any → Option (EventApplier S) → S
  apply_matched state event none = state
  apply_matched state event (some applier) = applier state event.value

  -- `ApplySingle`.
  abbrev apply_single : StateRouter S → S → Any → S
  apply_single r state event = apply_matched state event (match_type event.type_url r.handlers)

  abbrev apply_payload : StateRouter S → S → Option Any → S
  apply_payload r state none = state
  apply_payload r state (some event) = apply_single r state event

  -- The loop of `WithEvents`.
  pub apply_pages : StateRouter S → S → List EventPage → S
  apply_pages r state [] = state
  apply_pages r state (page ∷ pages) = apply_pages r (apply_payload r state page.event) pages

  -- `WithEvents`.
  unfoldable pub with_events : StateRouter S → List EventPage → S
  unfolding apply_pages
  with_events r pages = apply_pages r r.factory pages

  -- `WithEventBook`, which `ToRebuilder` and `RebuildFromEventBook` hand on.
  unfoldable pub with_event_book : StateRouter S → Option EventBook → S
  unfolding with_events
  with_event_book r none = r.factory
  with_event_book r (some book) = with_events r book.pages

  -- `ToRebuilder`.
  abbrev pub to_rebuilder : StateRouter S → Option EventBook → S
  to_rebuilder r = with_event_book r
