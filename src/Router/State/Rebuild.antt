-- ===== src/Router/State/Rebuild.antt =====
-- Rebuilding of state by `StateRouter` of router.go.
use angzarr_client_go.Prelude.{
  String, ◌⧺◌, Option, none, some, List, [], ◌∷◌, ◌++◌, ◌≡◌, refl, ap, ◌∙◌, sym, lookup,
}
use angzarr_client_go.Proto.{Bytes, Any, EventPage, EventBook}
use angzarr_client_go.Helpers.TypeUrl.{match_type, type_url_prefix}
use angzarr_client_go.Helpers.TypeUrl.Matching.{match_type-prefix, match_type-again}
use angzarr_client_go.Helpers.TypeUrl.Named.{Named, Holds, nothing, onward, any_named}
use angzarr_client_go.Router.State.{
  StateRouter, EventApplier, on, apply_payload, apply_matched, apply_pages, with_events,
  with_event_book,
}

module _ {S : Type 0} (r : StateRouter S) where
  apply_pages-append :
      (s : S) (ps qs : List EventPage)
      → apply_pages r s (ps ++ qs) ≡ apply_pages r (apply_pages r s ps) qs
  unfolding apply_pages
  apply_pages-append s [] qs = refl
  apply_pages-append s (p ∷ ps) qs = apply_pages-append (apply_payload r s p.event) ps qs

  -- The state after a longer history is the state after its first part with the rest applied to it.
  with_events-append :
      (ps qs : List EventPage) → with_events r (ps ++ qs) ≡ apply_pages r (with_events r ps) qs
  unfolding with_events
  with_events-append ps qs = apply_pages-append r.factory ps qs

  -- A page whose event no applier knows.
  abbrev pub IsUnknown : EventPage → Type 0
  IsUnknown p = (event : Any) → p.event ≡ some event → match_type event.type_url r.handlers ≡ none

  apply_payload_of_unknown :
      (s : S) (o : Option Any)
      → ((event : Any) → o ≡ some event → match_type event.type_url r.handlers ≡ none)
      → apply_payload r s o ≡ s
  apply_payload_of_unknown s none h = refl
  apply_payload_of_unknown s (some event) h = rw (h event refl)

  -- A page that no applier knows changes nothing, wherever it stands in the history.
  pub with_events_skips_unknown :
      (ps qs : List EventPage) (p : EventPage)
      → IsUnknown p
      → with_events r (ps ++ p ∷ qs) ≡ with_events r (ps ++ qs)
  with_events_skips_unknown ps qs p h =
      let skip : apply_pages r (with_events r ps) (p ∷ qs) ≡ apply_pages r (with_events r ps) qs =
        unfold apply_pages in
        ap (λ s. apply_pages r s qs) (apply_payload_of_unknown (with_events r ps) p.event h) in
      with_events-append ps (p ∷ qs) ∙ skip ∙ sym (with_events-append ps qs)

  -- A second applier for a registered type is never called.
  pub with_events-on_again :
      (name : String) (old new : EventApplier S) (pages : List EventPage)
      → lookup name r.handlers ≡ some old
      → with_events (on r (name, new)) pages ≡ with_events r pages
  unfolding with_events apply_pages
  with_events-on_again name old new pages found = go r.factory pages
    where
      again : (s : S) (o : Option Any) → apply_payload (on r (name, new)) s o ≡ apply_payload r s o
      again s none = refl
      again s (some event) =
          ap (apply_matched s event) (match_type-again event.type_url name r.handlers old new found)

      go : (s : S) (ps : List EventPage) → apply_pages (on r (name, new)) s ps ≡ apply_pages r s ps
      go s [] = refl
      go s (p ∷ ps) =
          ap (λ t. apply_pages (on r (name, new)) t ps) (again s p.event)
          ∙ go (apply_payload r s p.event) ps

  -- An event of a registered type is applied by the applier that its name is registered for first.
  pub with_events_registered :
      (ps : List EventPage) (p : EventPage) (event : Any) (name : String) (applier : EventApplier S)
      → p.event ≡ some event
      → event.type_url ≡ type_url_prefix ⧺ name
      → lookup name r.handlers ≡ some applier
      → with_events r (ps ++ p ∷ []) ≡ applier (with_events r ps) event.value
  with_events_registered ps p event name applier pe url found =
      let matched : match_type event.type_url r.handlers ≡ some applier =
        ap (λ u. match_type u r.handlers) url ∙ match_type-prefix name r.handlers ∙ found in
      let s = with_events r ps in
      let step : apply_pages r s (p ∷ []) ≡ applier s event.value =
        unfold apply_pages in ap (apply_payload r s) pe ∙ ap (apply_matched s event) matched in
      with_events-append ps (p ∷ []) ∙ step

  -- The plain replay of a history: each event by the applier that its name is registered for first.
  abbrev pub applied : S → Bytes → Option (EventApplier S) → S
  applied state value none = state
  applied state value (some applier) = applier state value

  pub replayed : S → List Named → S
  unfolding lookup
  replayed state [] = state
  replayed state (none ∷ xs) = replayed state xs
  replayed state (some (name, value) ∷ xs) =
      replayed (applied state value (lookup name r.handlers)) xs

  matched-applied :
      (state : S) (name : String) (value : Bytes) (found : Option (EventApplier S))
      → apply_matched state (any_named name value) found ≡ applied state value found
  matched-applied state name value none = refl
  matched-applied state name value (some applier) = refl

  apply_pages-replayed :
      (state : S) {pages : List EventPage} {xs : List Named}
      → Holds pages xs
      → apply_pages r state pages ≡ replayed state xs
  unfolding apply_pages replayed
  apply_pages-replayed state nothing = refl
  apply_pages-replayed state (onward {page = page} {pages = pages} {x = none} {xs = xs} e h) =
      ap (λ o. apply_pages r (apply_payload r state o) pages) e ∙ apply_pages-replayed state h
  apply_pages-replayed state
        (onward {page = page} {pages = pages} {x = some (name, value)} {xs = xs} e h) =
      ap (λ o. apply_pages r (apply_payload r state o) pages) e
      ∙ ap (λ found. apply_pages r (apply_matched state (any_named name value) found) pages)
          (match_type-prefix name r.handlers)
      ∙ ap (λ s. apply_pages r s pages) (matched-applied state name value (lookup name r.handlers))
      ∙ apply_pages-replayed (applied state value (lookup name r.handlers)) h

  -- The state of an event book is the replay of its events from the factory's state: each event is
  -- applied, in the order of the pages, by the applier that its full name is registered for first,
  -- and an event of a name that is not registered is passed over. What is asked of the book: the
  -- events' type URLs have the prefix that `anypb.New` gives.
  pub with_event_book-replayed :
      (book : EventBook) (xs : List Named)
      → Holds book.pages xs
      → with_event_book r (some book) ≡ replayed r.factory xs
  unfolding with_event_book
  with_event_book-replayed book xs h = apply_pages-replayed r.factory h
