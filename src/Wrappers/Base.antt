-- ===== src/Wrappers/Base.antt =====
-- The types and constructors of wrappers.go, and the bodies that its methods share.
use angzarr_client_go.Prelude.{String, Option, none, some, Bool, true, false, str_eq, if◌then◌else◌}
use angzarr_client_go.Proto.{
  Bytes, Cover, ProtoEdition, EventPage, EventBook, CommandPage, CommandBook, CommandResponse,
  Query, empty_cover,
}
use angzarr_client_go.Errors.{Result, ok, err}
use angzarr_client_go.Helpers.Hex.{hex_encode}
use angzarr_client_go.Helpers.Covers.{unknown_domain}
use angzarr_client_go.Helpers.Uuid.{UuidLib}

pub record CoverW : Type 0 where
  pub cover : Option Cover

pub record EventBookW : Type 0 where
  pub event_book : Option EventBook

pub record CommandBookW : Type 0 where
  pub command_book : Option CommandBook

pub record QueryW : Type 0 where
  pub query : Option Query

pub record EventPageW : Type 0 where
  pub event_page : Option EventPage

pub record CommandPageW : Type 0 where
  pub command_page : Option CommandPage

pub record CommandResponseW : Type 0 where
  pub command_response : Option CommandResponse

-- `NewCoverW` and the other constructors.
abbrev pub new_cover_w : Option Cover → CoverW
new_cover_w proto = record { cover = proto }

abbrev pub new_event_book_w : Option EventBook → EventBookW
new_event_book_w proto = record { event_book = proto }

abbrev pub new_command_book_w : Option CommandBook → CommandBookW
new_command_book_w proto = record { command_book = proto }

abbrev pub new_query_w : Option Query → QueryW
new_query_w proto = record { query = proto }

abbrev pub new_event_page_w : EventPage → EventPageW
new_event_page_w proto = record { event_page = some proto }

abbrev pub new_command_page_w : CommandPage → CommandPageW
new_command_page_w proto = record { command_page = some proto }

abbrev pub new_command_response_w : Option CommandResponse → CommandResponseW
new_command_response_w proto = record { command_response = proto }

-- The bodies that the methods of the wrappers share, on `c := w.cover()`.
abbrev pub domain_of : Option Cover → String
domain_of none = unknown_domain
domain_of (some c) = if str_eq c.domain "" then unknown_domain else c.domain

abbrev pub correlation_id_of : Option Cover → String
correlation_id_of none = ""
correlation_id_of (some c) = c.correlation_id

abbrev pub root_of : Option Cover → Option Bytes
root_of none = none
root_of (some c) = elim c.root [ none ↦ none | some u ↦ some u.value ]

abbrev pub hex_of : Option Bytes → String
hex_of none = ""
hex_of (some b) = hex_encode b

abbrev pub name_of : Option ProtoEdition → Option String
name_of none = none
name_of (some e) = if str_eq e.name "" then none else some e.name

abbrev pub edition_of : Option Cover → Option String
edition_of none = none
edition_of (some c) = name_of c.edition

abbrev pub cover_or_empty : Option Cover → CoverW
cover_or_empty none = new_cover_w (some empty_cover)
cover_or_empty (some c) = new_cover_w (some c)

module _ (lib : UuidLib) where
  open lib use {Uuid, zero_uuid, from_bytes}

  abbrev pub uuid_if_ok : Result Uuid → Uuid × Bool
  uuid_if_ok (ok u) = (u, true)
  uuid_if_ok (err e) = (zero_uuid, false)

  abbrev pub uuid_of : Option Bytes → Uuid × Bool
  uuid_of none = (zero_uuid, false)
  uuid_of (some b) = uuid_if_ok (from_bytes b)
