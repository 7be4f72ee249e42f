-- ===== src/Tests/Messages.antt =====
-- Messages that the helpers and wrappers build, read and stamp.
use angzarr_client_go.Prelude.{
  ℕ, String, none, some, true, List, [], ◌∷◌, ◌++◌, map, ◌≡◌, ◌↔◌, refl, arith, lookup,
}
use angzarr_client_go.Proto.{Any, CommandBook, empty_cover}
use angzarr_client_go.Errors.{ok}
use angzarr_client_go.Helpers.TypeUrl.{Registrations}
use angzarr_client_go.Helpers.Books.{new_event_book_multi}
use angzarr_client_go.Helpers.Books.Sequences.{IsNumbered, new_event_book_multi-IsNumbered}
use angzarr_client_go.Helpers.Covers.{CoverBearing, cover_of, domain, root_id_hex}
use angzarr_client_go.Helpers.Covers.Keys.{cache_key-injective}
use angzarr_client_go.Helpers.Uuid.{UuidLib}
use angzarr_client_go.Destinations.{
  Destinations, new_destinations, has, stamp_command, sequence_for,
}
use angzarr_client_go.Destinations.Stamping.{
  IsStamped, stamp_command-IsStamped, stamp_command_ok_iff,
}
use angzarr_client_go.Upcaster.{UpcasterRouter, new_upcaster_router, on, upcast}
use angzarr_client_go.Upcaster.Laws.{upcast_registered}
use angzarr_client_go.Wrappers.Agreement.{IsCommandBookWAgreement, CommandBookW-agrees}
use angzarr_client_go.Tests.Data.{add, added, any_of, closed, command_book, event_page, history}

abbrev destinations : Destinations
destinations = new_destinations (some (("stock", 7) ∷ []))

stamp_command-IsStamped_example :
    (after : CommandBook) × (stamp_command (some destinations) (command_book add) "stock"
      ≡ ok after)
    × IsStamped 7 (command_book add) after
unfolding sequence_for lookup
stamp_command-IsStamped_example =
    stamp_command-IsStamped (some destinations) (command_book add) "stock" 7 refl

stamp_command_ok_iff_example : (has (some destinations) "bank" ≡ true) ↔ (
    (after : CommandBook) × (stamp_command (some destinations) (command_book add) "bank"
      ≡ ok after))
stamp_command_ok_iff_example = stamp_command_ok_iff (some destinations) (command_book add) "bank"

abbrev upcaster : UpcasterRouter
upcaster = on (new_upcaster_router "bank") "bank.AddedV1" (λ any. some added)

abbrev old : Any
old = any_of "bank.AddedV1" []

upcast_registered_example :
    upcast upcaster (history.pages ++ event_page 2 old ∷ [])
    ≡ upcast upcaster history.pages ++ event_page 2 added ∷ upcast upcaster []
unfolding lookup
upcast_registered_example =
    upcast_registered upcaster history.pages [] (event_page 2 old) "bank.AddedV1" old
      (λ any. some added) refl refl refl

-- One map, listed in two orders.
abbrev forth : Registrations ℕ
forth = ("a", 1) ∷ ("b", 2) ∷ []

abbrev back : Registrations ℕ
back = ("b", 2) ∷ ("a", 1) ∷ []

abbrev rooted : CoverBearing
rooted =
    CoverBearing.cover
      (some (record empty_cover { domain = "bank"; root = some (record { value = 171 ∷ [] }) }))

cache_key-injective_example :
    (domain rooted ≡ domain rooted) × (root_id_hex rooted ≡ root_id_hex rooted)
unfolding cover_of
cache_key-injective_example =
    cache_key-injective rooted rooted (omega arith, tt) (omega arith, tt) refl

abbrev stock : String
stock = "stock"

abbrev reserve : String
reserve = "Reserve"

new_event_book_multi-IsNumbered_example :
    (map
        (λ p. p.event)
        (new_event_book_multi
          (record { seconds = 0; nanos = 0 })
          none
          4294967295
          (added ∷ closed ∷ [])).pages
      ≡ some added ∷ some closed ∷ [])
    × IsNumbered 4294967295
        (new_event_book_multi
          (record { seconds = 0; nanos = 0 })
          none
          4294967295
          (added ∷ closed ∷ [])).pages
new_event_book_multi-IsNumbered_example =
    new_event_book_multi-IsNumbered (record { seconds = 0; nanos = 0 }) none 4294967295
      (added ∷ closed ∷ [])

abbrev lib : UuidLib
lib = record {
  Uuid = List ℕ;
  zero_uuid = [];
  bytes = λ u. u;
  from_bytes = λ b. ok b;
  text = λ u. "text";
}

CommandBookW-agrees_example : IsCommandBookWAgreement lib (some (command_book add))
CommandBookW-agrees_example = CommandBookW-agrees lib (some (command_book add))
