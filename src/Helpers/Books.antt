-- ===== src/Helpers/Books.antt =====
-- The book helpers of helpers.go.
pub mod Sequences
use angzarr_client_go.Prelude.{
  ℕ, ◌+◌, ◌%◌, ◌^◌, Option, none, some, List, [], ◌∷◌, String, Bool, false, if◌then◌else◌, str_eq,
}
use angzarr_client_go.Proto.{
  Bytes, Any, Timestamp, Cover, EventPage, EventBook, CommandPage, CommandBook, CommandResponse,
  sequence_header,
}
use angzarr_client_go.Helpers.TypeUrl.{type_url_matches}

-- `uint32` arithmetic.
abbrev pub u32 : ℕ → ℕ
u32 n = n % 2 ^ 32

-- `NextSequence`.
abbrev pub next_sequence : Option EventBook → ℕ
next_sequence none = 0
next_sequence (some book) = book.next_sequence

-- `EventPages`.
abbrev pub event_pages : Option EventBook → List EventPage
event_pages none = []
event_pages (some book) = book.pages

-- `CommandPages`.
abbrev pub command_pages : Option CommandBook → List CommandPage
command_pages none = []
command_pages (some book) = book.pages

-- `EventsFromResponse`.
abbrev pub events_from_response : Option CommandResponse → List EventPage
events_from_response none = []
events_from_response (some resp) = event_pages resp.events

-- `NewEventBook`, at the time `now`.
new_event_book : Timestamp → Option Cover → ℕ → Any → EventBook
new_event_book now cover seq event = record {
  cover = cover;
  pages =
      record { header = some (sequence_header seq); event = some event; created_at = some now }
      ∷ [];
  snapshot = none;
  next_sequence = 0;
}

-- The loop of `NewEventBookMulti` from the index `i`.
pub multi_pages : Timestamp → ℕ → ℕ → List Any → List EventPage
multi_pages now start_seq i [] = []
multi_pages now start_seq i (event ∷ events) =
    record {
      header = some (sequence_header (u32 (start_seq + u32 i)));
      event = some event;
      created_at = some now;
    }
    ∷ multi_pages now start_seq (i + 1) events

-- `NewEventBookMulti`, at the time `now`.
pub new_event_book_multi : Timestamp → Option Cover → ℕ → List Any → EventBook
unfolding multi_pages
new_event_book_multi now cover start_seq events = record {
  cover = cover;
  pages = multi_pages now start_seq 0 events;
  snapshot = none;
  next_sequence = 0;
}

-- `NewCommandPage`.
abbrev new_command_page : ℕ → Any → CommandPage
new_command_page seq command = record {
  header = some (sequence_header seq);
  command = some command;
  merge_strategy = 0;
}

-- `NewCommandBook`.
abbrev new_command_book : Option Cover → List CommandPage → CommandBook
new_command_book cover pages = record { cover = cover; pages = pages }

-- `DecodeEvent`: `unmarshal` is the message's own method, true where it returns no error.
abbrev decode_any : (Bytes → Bool) → String → Option Any → Bool
decode_any unmarshal type_suffix none = false
decode_any unmarshal type_suffix (some event) =
    if type_url_matches event.type_url type_suffix then unmarshal event.value else false

pub decode_event : (Bytes → Bool) → Option EventPage → String → Bool
decode_event unmarshal none type_suffix = false
decode_event unmarshal (some page) type_suffix = decode_any unmarshal type_suffix page.event
