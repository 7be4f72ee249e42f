-- ===== src/Destinations.antt =====
-- destinations.go and saga_context.go: destination sequences, and stamping commands with them.
-- A pointer receiver is an `Option`, and a map that may be nil is one too.
pub mod Stamping
use angzarr_client_go.Prelude.{
  ℕ, String, ◌⧺◌, Option, none, some, Bool, true, false, List, [], ◌∷◌, map, GoMap, lookup,
}
use angzarr_client_go.Proto.{CommandPage, CommandBook, sequence_header}
use angzarr_client_go.Errors.{Result, ok, err, plain}

pub record Destinations : Type 0 where
  pub sequences : Option (GoMap ℕ)

-- `NewDestinations`: a nil map is replaced by an empty one.
abbrev pub new_destinations : Option (GoMap ℕ) → Destinations
new_destinations none = record { sequences = some [] }
new_destinations (some m) = record { sequences = some m }

-- `d == nil || d.sequences == nil`, and else the map.
abbrev sequences_of : Option Destinations → Option (GoMap ℕ)
sequences_of none = none
sequences_of (some d) = d.sequences

abbrev seq_or_zero : Option ℕ → ℕ × Bool
seq_or_zero none = (0, false)
seq_or_zero (some seq) = (seq, true)

abbrev sequence_in : Option (GoMap ℕ) → String → ℕ × Bool
sequence_in none domain = (0, false)
sequence_in (some m) domain = seq_or_zero (lookup domain m)

-- `SequenceFor`.
unfoldable pub sequence_for : Option Destinations → String → ℕ × Bool
sequence_for d domain = sequence_in (sequences_of d) domain

-- `page.Header = &pb.PageHeader{…}` for every page.
abbrev stamp_page : ℕ → CommandPage → CommandPage
stamp_page seq page = record page { header = some (sequence_header seq) }

stamp_pages : ℕ → List CommandPage → List CommandPage
stamp_pages seq [] = []
stamp_pages seq (page ∷ pages) = stamp_page seq page ∷ stamp_pages seq pages

abbrev no_sequence : String → String
no_sequence domain = "no sequence for domain '" ⧺ domain ⧺ "' - check output_domains config"

abbrev stamp_with : CommandBook → String → Option ℕ → Result CommandBook
stamp_with cmd domain none = err (plain (no_sequence domain))
stamp_with cmd domain (some seq) = ok (record cmd { pages = stamp_pages seq cmd.pages })

abbrev stamp_in : Option (GoMap ℕ) → CommandBook → String → Result CommandBook
stamp_in none cmd domain = err (plain "destinations is nil")
stamp_in (some m) cmd domain = stamp_with cmd domain (lookup domain m)

-- `StampCommand` writes to the command in place: the result is the command after a nil error, and
-- an error leaves it as it was.
unfoldable pub stamp_command : Option Destinations → CommandBook → String → Result CommandBook
unfolding stamp_pages
stamp_command d cmd domain = stamp_in (sequences_of d) cmd domain

abbrev is_found : Option ℕ → Bool
is_found none = false
is_found (some seq) = true

abbrev has_in : Option (GoMap ℕ) → String → Bool
has_in none domain = false
has_in (some m) domain = is_found (lookup domain m)

-- `Has`.
unfoldable pub has : Option Destinations → String → Bool
has d domain = has_in (sequences_of d) domain

-- `Domains`, in the order of the range.
abbrev domains_in : Option (GoMap ℕ) → List String
domains_in none = []
domains_in (some m) = map (λ e. e.0) m

pub domains : Option Destinations → List String
domains d = domains_in (sequences_of d)

-- `SagaContext`.
pub record SagaContext : Type 0 where
  pub destinations : Option Destinations

-- `NewSagaContext`.
abbrev pub new_saga_context : Option (GoMap ℕ) → SagaContext
new_saga_context sequences = record { destinations = some (new_destinations sequences) }

-- `ctx == nil || ctx.destinations == nil`, and else the destinations.
abbrev destinations_of : Option SagaContext → Option Destinations
destinations_of none = none
destinations_of (some ctx) = ctx.destinations

abbrev get_sequence_from : Option Destinations → String → ℕ
get_sequence_from none domain = 0
get_sequence_from (some d) domain =
    let (seq, found) = sequence_for (some d) domain in elim found [ true ↦ seq | false ↦ 0 ]

-- `GetSequence`.
pub get_sequence : Option SagaContext → String → ℕ
unfolding sequence_for
get_sequence ctx domain = get_sequence_from (destinations_of ctx) domain

-- `SagaContext.StampCommand`: without destinations nothing is stamped, and there is no error.
abbrev stamp_from : Option Destinations → CommandBook → String → Result CommandBook
stamp_from none cmd domain = ok cmd
stamp_from (some d) cmd domain = stamp_command (some d) cmd domain

saga_stamp_command : Option SagaContext → CommandBook → String → Result CommandBook
unfolding stamp_command
saga_stamp_command ctx cmd domain = stamp_from (destinations_of ctx) cmd domain

-- `HasDestination`.
pub has_destination : Option SagaContext → String → Bool
unfolding has
has_destination ctx domain = has (destinations_of ctx) domain
