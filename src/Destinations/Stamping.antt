-- ===== src/Destinations/Stamping.antt =====
-- Stamping of commands in destinations.go and saga_context.go.
use angzarr_client_go.Prelude.{
  ℕ, String, Option, none, some, true, false, List, [], ◌∷◌, map, ◌≡◌, ◌↔◌, refl, arith, All, ap,
  lookup, GoMap, ◌⊎◌,
}
use angzarr_client_go.Proto.{CommandPage, CommandBook, sequence_header}
use angzarr_client_go.Errors.{ok}
use angzarr_client_go.Destinations.{
  Destinations, stamp_pages, is_found, stamp_in, stamp_with, has_in, sequences_of, stamp_command,
  has, sequence_for, get_sequence, has_destination, new_saga_context,
}

-- `after` is `before` with every page stamped with `seq`.
pub record IsStamped (seq : ℕ) (before after : CommandBook) : Type 0 where
  pub headers : All (λ p. p.header ≡ some (sequence_header seq)) after.pages
  pub commands : map (λ p. p.command) after.pages ≡ map (λ p. p.command) before.pages
  pub strategies :
      map (λ p. p.merge_strategy) after.pages ≡ map (λ p. p.merge_strategy) before.pages
  pub cover : after.cover ≡ before.cover

stamp_pages-headers :
    (seq : ℕ) (pages : List CommandPage)
    → All (λ p. p.header ≡ some (sequence_header seq)) (stamp_pages seq pages)
unfolding stamp_pages
stamp_pages-headers seq [] = tt
stamp_pages-headers seq (p ∷ pages) = (refl, stamp_pages-headers seq pages)

stamp_pages-commands :
    (seq : ℕ) (pages : List CommandPage)
    → map (λ p. p.command) (stamp_pages seq pages) ≡ map (λ p. p.command) pages
unfolding stamp_pages
stamp_pages-commands seq [] = refl
stamp_pages-commands seq (p ∷ pages) = ap (λ cs. p.command ∷ cs) (stamp_pages-commands seq pages)

stamp_pages-strategies :
    (seq : ℕ) (pages : List CommandPage)
    → map (λ p. p.merge_strategy) (stamp_pages seq pages) ≡ map (λ p. p.merge_strategy) pages
unfolding stamp_pages
stamp_pages-strategies seq [] = refl
stamp_pages-strategies seq (p ∷ pages) =
    ap (λ cs. p.merge_strategy ∷ cs) (stamp_pages-strategies seq pages)

stamp_pages-IsStamped :
    (seq : ℕ) (cmd : CommandBook)
    → IsStamped seq cmd (record cmd { pages = stamp_pages seq cmd.pages })
stamp_pages-IsStamped seq cmd = record {
  headers = stamp_pages-headers seq cmd.pages;
  commands = stamp_pages-commands seq cmd.pages;
  strategies = stamp_pages-strategies seq cmd.pages;
  cover = refl;
}

-- For a domain with the sequence `seq`, `StampCommand` has no error, every page of the command has
-- that sequence, and the payloads, merge strategies and cover are as before.
pub stamp_command-IsStamped :
    (d : Option Destinations) (cmd : CommandBook) (domain : String) (seq : ℕ)
    → sequence_for d domain ≡ (seq, true)
    → (after : CommandBook) × (stamp_command d cmd domain ≡ ok after) × IsStamped seq cmd after
unfolding stamp_command sequence_for
stamp_command-IsStamped d cmd domain seq e =
    (record cmd { pages = stamp_pages seq cmd.pages }, ground arith, stamp_pages-IsStamped seq cmd)

stamp_with_iff :
    (cmd : CommandBook) (domain : String) (o : Option ℕ)
    → (is_found o ≡ true) ↔ ((after : CommandBook) × (stamp_with cmd domain o ≡ ok after))
stamp_with_iff cmd domain none = (λ e. cc, λ (after, e). cc)
stamp_with_iff cmd domain (some seq) = (λ e. (_, refl), λ e. refl)

stamp_in_iff :
    (o : Option (GoMap ℕ)) (cmd : CommandBook) (domain : String)
    → (has_in o domain ≡ true) ↔ ((after : CommandBook) × (stamp_in o cmd domain ≡ ok after))
stamp_in_iff none cmd domain = (λ e. cc, λ (after, e). cc)
stamp_in_iff (some m) cmd domain = stamp_with_iff cmd domain (lookup domain m)

-- `StampCommand` has no error exactly where `Has` says that the domain has a sequence.
pub stamp_command_ok_iff :
    (d : Option Destinations) (cmd : CommandBook) (domain : String)
    → (has d domain ≡ true) ↔ ((after : CommandBook) × (stamp_command d cmd domain ≡ ok after))
unfolding stamp_command has
stamp_command_ok_iff d cmd domain = stamp_in_iff (sequences_of d) cmd domain

-- A saga context made of a map stamps as its destinations do, and reads 0 for an absent domain.
saga_context-sequences :
    (m : GoMap ℕ) (domain : String)
    → (has_destination (some (new_saga_context (some m))) domain ≡ false)
      ⊎ (lookup domain m ≡ some (get_sequence (some (new_saga_context (some m))) domain))
unfolding has_destination get_sequence
saga_context-sequences m domain = ground arith
