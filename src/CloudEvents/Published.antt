-- ===== src/CloudEvents/Published.antt =====
-- What `CloudEventsRouter.Project` of cloudevents.go publishes of a history, by the events' names.
use angzarr_client_go.Prelude.{
  String, ◌⧺◌, Option, none, some, List, [], ◌∷◌, ◌++◌, ◌≡◌, refl, ap, ◌∙◌, lookup, Lacks,
  after_last-append, map,
}
use angzarr_client_go.Proto.{Bytes, Any, EventPage, EventBook}
use angzarr_client_go.Helpers.TypeUrl.{type_url_prefix}
use angzarr_client_go.Helpers.TypeUrl.Matching.{match_type-prefix, after_last-type_url_prefix}
use angzarr_client_go.Helpers.TypeUrl.Named.{Named, Holds, nothing, onward, any_named}
use angzarr_client_go.CloudEvents.{CloudEventsRouter, simple_name, after_or_all, emitted, project}
use angzarr_client_go.CloudEvents.Projecting.{
  event_events, page_events, translate_events, project_pages-translate_events,
}

-- An event by its package, its simple name and its bytes.
pub record Fact : Type 0 where
  pub package_name : String
  pub simple : String
  pub value : Bytes

abbrev full_name : Fact → String
full_name fact = fact.package_name ⧺ "." ⧺ fact.simple

-- The name has no slash, and the simple name no dot.
pub record IsTyped (fact : Fact) : Type 0 where
  pub no_slash : Lacks b'/' (fact.package_name ⧺ "." ⧺ fact.simple)
  pub no_dot : Lacks b'.' fact.simple

-- The events of a history; a page may be without one.
abbrev pub AllTyped : List (Option Fact) → Type 0
AllTyped [] = Unit
AllTyped (none ∷ facts) = AllTyped facts
AllTyped (some fact ∷ facts) = IsTyped fact × AllTyped facts

abbrev pub named : Option Fact → Named
named none = none
named (some fact) = some (full_name fact, fact.value)

simple_name-full_name :
    (fact : Fact) → IsTyped fact → simple_name (type_url_prefix ⧺ full_name fact) ≡ fact.simple
unfolding simple_name
simple_name-full_name fact h =
    ap
      (λ o.
        after_or_all b'.' (elim o [ some rest ↦ rest | none ↦ type_url_prefix ⧺ full_name fact ]))
      (after_last-type_url_prefix (full_name fact) h.no_slash)
    ∙ ap (λ o. elim o [ some rest ↦ rest | none ↦ full_name fact ])
        (after_last-append b'.' fact.package_name "." fact.simple refl h.no_dot)

module _ {C : Type 0} (r : CloudEventsRouter C) where
  abbrev pub given : Bytes → Option (Bytes → Option C) → List C
  given value none = []
  given value (some handler) = elim (handler value) [ none ↦ [] | some ce ↦ ce ∷ [] ]

  -- What is published of a history: for each event what the handler of its full name gives, and then
  -- what the handler of its simple name gives.
  pub published : List (Option Fact) → List C
  unfolding lookup
  published [] = []
  published (none ∷ facts) = published facts
  published (some fact ∷ facts) =
      (given fact.value (lookup (fact.package_name ⧺ "." ⧺ fact.simple) r.handlers)
        ++ given fact.value (lookup fact.simple r.handlers))
      ++ published facts

  emitted-given :
      (event : Any) (found : Option (Bytes → Option C))
      → emitted event found ≡ given event.value found
  emitted-given event none = refl
  emitted-given event (some handler) = refl

  event_events-given :
      (fact : Fact)
      → IsTyped fact
      → event_events r (any_named (full_name fact) fact.value)
        ≡ given fact.value (lookup (full_name fact) r.handlers)
          ++ given fact.value (lookup fact.simple r.handlers)
  event_events-given fact h =
      let event = any_named (full_name fact) fact.value in
      ap
        (λ found.
          emitted event found ++ emitted event (lookup (simple_name event.type_url) r.handlers))
        (match_type-prefix (full_name fact) r.handlers)
      ∙ ap
          (λ name.
            emitted event (lookup (full_name fact) r.handlers)
            ++ emitted event (lookup name r.handlers))
          (simple_name-full_name fact h)
      ∙ ap (λ xs. xs ++ emitted event (lookup fact.simple r.handlers))
          (emitted-given event (lookup (full_name fact) r.handlers))
      ∙ ap (λ xs. given fact.value (lookup (full_name fact) r.handlers) ++ xs)
          (emitted-given event (lookup fact.simple r.handlers))

  translate_events-published :
      (facts : List (Option Fact)) {pages : List EventPage}
      → Holds pages (map named facts)
      → AllTyped facts
      → translate_events r pages ≡ published facts
  unfolding translate_events published
  translate_events-published [] nothing h = refl
  translate_events-published (none ∷ facts) (onward {pages = pages} e held) h =
      ap (λ o. page_events r o ++ translate_events r pages) e
      ∙ translate_events-published facts held h
  translate_events-published (some fact ∷ facts) (onward {pages = pages} e held) (typed, h) =
      ap (λ o. page_events r o ++ translate_events r pages) e
      ∙ ap (λ xs. xs ++ translate_events r pages) (event_events-given fact typed)
      ∙ ap
          (λ xs.
            (given fact.value (lookup (full_name fact) r.handlers)
              ++ given fact.value (lookup fact.simple r.handlers))
            ++ xs)
          (translate_events-published facts held h)

  -- `Project` publishes, event by event in the order of the pages, the cloud event of the handler
  -- that the full name is registered for, if there is one and it gives one, and then that of the
  -- handler that the simple name is registered for, likewise. What is asked of the book: the events'
  -- type URLs have the prefix that `anypb.New` gives, and are made of a package, a dot and a simple
  -- name without slashes.
  pub project-published :
      (source : EventBook) (facts : List (Option Fact))
      → Holds source.pages (map named facts)
      → AllTyped facts
      → project r (some source) ≡ published facts
  unfolding project
  project-published source facts held typed =
      project_pages-translate_events r [] source.pages ∙ translate_events-published facts held typed
