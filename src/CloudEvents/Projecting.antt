-- ===== src/CloudEvents/Projecting.antt =====
-- `CloudEventsRouter.Project` of cloudevents.go.
use angzarr_client_go.Prelude.{
  String, ◌⧺◌, Option, none, some, List, [], ◌∷◌, ◌++◌, ◌≡◌, ap, ◌∙◌, sym, append_assoc, append-nil,
  lookup,
}
use angzarr_client_go.Proto.{Bytes, Any, EventPage, EventBook}
use angzarr_client_go.Helpers.TypeUrl.{match_type, type_url_prefix}
use angzarr_client_go.Helpers.TypeUrl.Matching.{match_type-prefix}
use angzarr_client_go.CloudEvents.{
  CloudEventsRouter, simple_name, emitted, append_emitted, project_pages, project,
}

module _ {C : Type 0} (r : CloudEventsRouter C) where
  -- What one event gives.
  abbrev pub event_events : Any → List C
  event_events event =
      emitted event (match_type event.type_url r.handlers)
      ++ emitted event (lookup (simple_name event.type_url) r.handlers)

  abbrev pub page_events : Option Any → List C
  page_events none = []
  page_events (some event) = event_events event

  -- What the events of a history give, event by event.
  unfoldable pub translate_events : List EventPage → List C
  translate_events [] = []
  translate_events (page ∷ pages) = page_events page.event ++ translate_events pages

  append_emitted-page_events :
      (done : List C) (event : Option Any) → append_emitted done r event ≡ done ++ page_events event
  append_emitted-page_events done none = sym (append-nil done)
  append_emitted-page_events done (some event) =
      append_assoc done (emitted event (match_type event.type_url r.handlers)) _

  pub project_pages-translate_events :
      (done : List C) (pages : List EventPage)
      → project_pages r done pages ≡ done ++ translate_events pages
  unfolding project_pages translate_events
  project_pages-translate_events done [] = sym (append-nil done)
  project_pages-translate_events done (page ∷ pages) =
      project_pages-translate_events (append_emitted done r page.event) pages
      ∙ ap (λ xs. xs ++ translate_events pages) (append_emitted-page_events done page.event)
      ∙ append_assoc done (page_events page.event) (translate_events pages)

emitted-one :
    {C : Type 0} (event : Any) (o : Option (Bytes → Option C)) (handler : Bytes → Option C) (ce : C)
    → o ≡ some handler
    → handler event.value ≡ some ce
    → emitted event o ≡ ce ∷ []
emitted-one event o handler ce found gives =
    ap (emitted event) found ∙ ap (λ c. elim c [ none ↦ [] | some ce' ↦ ce' ∷ [] ]) gives

-- An event whose type is registered by its full name `name` and also by its simple name, when both
-- handlers give a cloud event, is projected by both: the match by the simple name is tried after
-- the exact match has succeeded, too.
project_twice :
    {C : Type 0} (r : CloudEventsRouter C) (source : EventBook) (page : EventPage) (event : Any)
    (name : String) (exact by_suffix : Bytes → Option C) (first second : C)
    → source.pages ≡ page ∷ []
    → page.event ≡ some event
    → event.type_url ≡ type_url_prefix ⧺ name
    → lookup name r.handlers ≡ some exact
    → lookup (simple_name event.type_url) r.handlers ≡ some by_suffix
    → exact event.value ≡ some first
    → by_suffix event.value ≡ some second
    → project r (some source) ≡ first ∷ second ∷ []
unfolding project
project_twice r source page event name exact by_suffix first second paged has typed found found' e
      e' =
    ap (project_pages r []) paged
    ∙ project_pages-translate_events r [] (page ∷ [])
    ∙ unfold translate_events in
      append-nil (page_events r page.event)
      ∙ ap (page_events r) has
      ∙ ap (λ xs. xs ++ emitted event (lookup (simple_name event.type_url) r.handlers))
          (emitted-one event (match_type event.type_url r.handlers) exact first
            (ap (λ url. match_type url r.handlers) typed
              ∙ match_type-prefix name r.handlers
              ∙ found)
            e)
      ∙ ap (λ xs. first ∷ xs)
          (emitted-one event (lookup (simple_name event.type_url) r.handlers) by_suffix second
            found' e')
