-- ===== src/Helpers/Books/Sequences.antt =====
-- `NewEventBookMulti` of helpers.go and its sequence numbers.
use mathlib.Core.Path.{subst}
use angzarr_client_go.Prelude.{ℕ, ◌+◌, Option, some, List, [], ◌∷◌, ◌≡◌, refl, arith, ap, map}
use angzarr_client_go.Proto.{Any, Timestamp, Cover, EventPage, sequence_header}
use angzarr_client_go.Helpers.Books.{u32, multi_pages, new_event_book_multi}

-- The pages are numbered from `seq` on, each the next modulo 2^32.
abbrev pub IsNumbered : ℕ → List EventPage → Type 0
IsNumbered seq [] = Unit
IsNumbered seq (p ∷ ps) = (p.header ≡ some (sequence_header (u32 seq))) × IsNumbered (seq + 1) ps

multi_pages-IsNumbered :
    (now : Timestamp) (start i : ℕ) (events : List Any)
    → IsNumbered (start + i) (multi_pages now start i events)
unfolding multi_pages
multi_pages-IsNumbered now start i [] = tt
multi_pages-IsNumbered now start i (e ∷ events) = (
  ap (λ n. some (sequence_header n)) (omega arith),
  subst (λ n. IsNumbered n (multi_pages now start (i + 1) events)) (omega arith)
      (multi_pages-IsNumbered now start (i + 1) events),
)

events-multi_pages :
    (now : Timestamp) (start i : ℕ) (events : List Any)
    → map (λ p. p.event) (multi_pages now start i events) ≡ map some events
unfolding multi_pages
events-multi_pages now start i [] = refl
events-multi_pages now start i (e ∷ events) =
    ap (λ es. some e ∷ es) (events-multi_pages now start (i + 1) events)

-- A book of several events has a page for each of them, in their order, and its pages are numbered
-- from `start` on, modulo 2^32.
pub new_event_book_multi-IsNumbered :
    (now : Timestamp) (cover : Option Cover) (start : ℕ) (events : List Any)
    → (map (λ p. p.event) (new_event_book_multi now cover start events).pages ≡ map some events)
      × IsNumbered start (new_event_book_multi now cover start events).pages
unfolding new_event_book_multi
new_event_book_multi-IsNumbered now cover start events = (
  events-multi_pages now start 0 events,
  subst (λ n. IsNumbered n (multi_pages now start 0 events)) (omega arith)
      (multi_pages-IsNumbered now start 0 events),
)
