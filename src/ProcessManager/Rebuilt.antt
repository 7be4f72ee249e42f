-- ===== src/ProcessManager/Rebuilt.antt =====
-- `ProcessManagerBase.RebuildState` of pm_oo.go, by the names of the events.
use angzarr_client_go.Prelude.{Option, none, some, List, [], ◌∷◌, ◌≡◌, refl, ap, ◌∙◌, lookup}
use angzarr_client_go.Proto.{Any, EventPage, EventBook}
use angzarr_client_go.Helpers.TypeUrl.Matching.{match_type-prefix}
use angzarr_client_go.Helpers.TypeUrl.Named.{Named, Holds, nothing, onward, any_named}
use angzarr_client_go.ProcessManager.{
  ProcessManager, initial, rebuild_state, apply_pages, apply_payload, apply_matched,
}

-- The pages of a process state, which may be nil.
abbrev pub state_pages : Option EventBook → List EventPage
state_pages none = []
state_pages (some book) = book.pages

-- What the state is before any event: the factory's, or the zero value without a factory.
abbrev pub started : {S : Type 0} → S → Option S → S
started zero none = zero
started zero (some state) = state

abbrev pub applied : {S : Type 0} → S → Any → Option (S → Any → S) → S
applied state event none = state
applied state event (some applier) = applier state event

module _ {S : Type 0} (pm : ProcessManager S) where
  -- The plain replay of a history: each event by the applier of its full name.
  pub replayed : S → List Named → S
  replayed state [] = state
  replayed state (none ∷ xs) = replayed state xs
  replayed state (some (name, value) ∷ xs) =
      replayed (applied state (any_named name value) (lookup name pm.appliers)) xs

  matched-applied :
      (state : S) (event : Any) (found : Option (S → Any → S))
      → apply_matched state event found ≡ applied state event found
  matched-applied state event none = refl
  matched-applied state event (some applier) = refl

  apply_pages-replayed :
      (state : S) {pages : List EventPage} {xs : List Named}
      → Holds pages xs
      → apply_pages pm state pages ≡ replayed state xs
  unfolding apply_pages replayed
  apply_pages-replayed state nothing = refl
  apply_pages-replayed state (onward {pages = pages} {x = none} e h) =
      ap (λ o. apply_pages pm (apply_payload pm state o) pages) e ∙ apply_pages-replayed state h
  apply_pages-replayed state (onward {pages = pages} {x = some (name, value)} e h) =
      ap (λ o. apply_pages pm (apply_payload pm state o) pages) e
      ∙ ap (λ found. apply_pages pm (apply_matched state (any_named name value) found) pages)
          (match_type-prefix name pm.appliers)
      ∙ ap (λ s. apply_pages pm s pages)
          (matched-applied state (any_named name value) (lookup name pm.appliers))
      ∙ apply_pages-replayed (applied state (any_named name value) (lookup name pm.appliers)) h

  initial-started : (zero : S) → initial zero pm ≡ started zero pm.state_factory
  initial-started zero = go pm.state_factory
    where
      go : (o : Option S) → elim o [ none ↦ zero | some state ↦ state ] ≡ started zero o
      go none = refl
      go (some state) = refl

  -- The rebuilt state is the replay of the process state's events from the factory's state.
  pub rebuild_state-replayed :
      (zero : S) (process_state : Option EventBook) (ys : List Named)
      → Holds (state_pages process_state) ys
      → rebuild_state zero pm process_state ≡ replayed (started zero pm.state_factory) ys
  unfolding rebuild_state replayed
  rebuild_state-replayed zero none ys h =
      ap (λ s. apply_pages pm s []) (initial-started zero)
      ∙ apply_pages-replayed (started zero pm.state_factory) h
  rebuild_state-replayed zero (some book) ys h =
      ap (λ s. apply_pages pm s book.pages) (initial-started zero)
      ∙ apply_pages-replayed (started zero pm.state_factory) h
