-- ===== src/CloudEvents.antt =====
-- cloudevents.go: `CloudEventsRouter`. The map lists its entries in the order in which a range meets
-- them. Cloud events are generated messages, which no code of the router looks into: `C`.
pub mod Projecting
pub mod Published
pub mod Base
use angzarr_client_go.Prelude.{
  ℕ, String, Option, none, some, List, [], ◌∷◌, ◌++◌, GoMap, insert, lookup, map, after_last,
}
use angzarr_client_go.Proto.{Bytes, Any, EventPage, EventBook, Projection}
use angzarr_client_go.Errors.{Result, ok, err}
use angzarr_client_go.Helpers.TypeUrl.{match_type}

pub record CloudEventsRouter (C : Type 0) : Type 0 where
  pub name : String
  pub input_domain : String
  pub handlers : GoMap (Bytes → Option C)

-- `suffix`: the last segment of the URL, and of that what follows the last dot.
abbrev after_or_all : ℕ → String → String
after_or_all sep text = elim (after_last sep text) [ some rest ↦ rest | none ↦ text ]

unfoldable pub simple_name : String → String
simple_name type_url = after_or_all b'.' (after_or_all b'/' type_url)

abbrev project_decoded : {E C : Type 0} → (E → Option C) → Result E → Option C
project_decoded handler (err e) = none
project_decoded handler (ok event) = handler event

module _ {C : Type 0} where
  -- `NewCloudEventsRouter`.
  abbrev pub new_cloud_events_router : (name input_domain : String) → CloudEventsRouter C
  new_cloud_events_router name input_domain = record {
    name = name;
    input_domain = input_domain;
    handlers = [];
  }

  -- `On`; reflection gives the event type's full name and decoder.
  abbrev pub on :
      {E : Type 0}
      → CloudEventsRouter C
      → String
      → (Bytes → Result E)
      → (E → Option C)
      → CloudEventsRouter C
  on r full_name unmarshal handler = record r {
    handlers = insert full_name (λ value. project_decoded handler (unmarshal value)) r.handlers;
  }

  -- `OnSuffix`.
  abbrev pub on_suffix : CloudEventsRouter C → String → (Any → Option C) → CloudEventsRouter C
  on_suffix r suffix handler = record r {
    handlers =
        insert suffix (λ value. handler (record { type_url = ""; value = value })) r.handlers;
  }

  -- `EventTypes`, in the order of the range.
  abbrev pub event_types : CloudEventsRouter C → List String
  event_types r = map (λ e. e.0) r.handlers

  -- `Subscriptions`.
  abbrev pub subscriptions : CloudEventsRouter C → GoMap (List String)
  subscriptions r = (r.input_domain, event_types r) ∷ []

  abbrev pub emitted : Any → Option (Bytes → Option C) → List C
  emitted event none = []
  emitted event (some handler) = elim (handler event.value) [ none ↦ [] | some ce ↦ ce ∷ [] ]

  abbrev append_emitted : List C → CloudEventsRouter C → Option Any → List C
  append_emitted done r none = done
  append_emitted done r (some event) =
      (done ++ emitted event (match_type event.type_url r.handlers))
      ++ emitted event (lookup (simple_name event.type_url) r.handlers)

  -- The loop of `Project`, with the cloud events so far.
  pub project_pages : CloudEventsRouter C → List C → List EventPage → List C
  unfolding simple_name
  project_pages r done [] = done
  project_pages r done (page ∷ pages) = project_pages r (append_emitted done r page.event) pages

  -- `Project`, whose response holds the list.
  unfoldable pub project : CloudEventsRouter C → Option EventBook → List C
  unfolding project_pages
  project r none = []
  project r (some source) = project_pages r [] source.pages

  -- `CloudEventsProjectorBase.Handle`, on its router; `pack` is `anypb.New` of the response with these
  -- cloud events.
  abbrev pack_projection : CloudEventsRouter C → Result Any → Result Projection
  pack_projection r (err e) = err e
  pack_projection r (ok projection) =
      ok (record { cover = none; projector = r.name; sequence = 0; projection = some projection })

  abbrev pub projector_base_handle :
      (pack : List C → Result Any) → CloudEventsRouter C → Option EventBook → Result Projection
  projector_base_handle pack r source = pack_projection r (pack (project r source))
