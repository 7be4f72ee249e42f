-- ===== src/Wrappers/Pages.antt =====
-- The methods of the page and response wrappers of wrappers.go.
use angzarr_client_go.Prelude.{
  ℕ, String, Option, none, some, Bool, false, List, [], map, if◌then◌else◌,
}
use angzarr_client_go.Proto.{Bytes, Any, EventBook, CommandResponse, PageHeader, get_sequence}
use angzarr_client_go.Helpers.TypeUrl.{type_url_matches}
use angzarr_client_go.Wrappers.Base.{
  EventBookW, EventPageW, CommandPageW, CommandResponseW, new_event_page_w, new_event_book_w,
}

-- `EventPageW.DecodeEvent`.
abbrev decode_any : (Bytes → Bool) → String → Option Any → Bool
decode_any unmarshal type_suffix none = false
decode_any unmarshal type_suffix (some event) =
    if type_url_matches event.type_url type_suffix then unmarshal event.value else false

unfoldable pub decode_event : (Bytes → Bool) → EventPageW → String → Bool
decode_event unmarshal w type_suffix = elim w.event_page [
  | none ↦ false
  | some page ↦ decode_any unmarshal type_suffix page.event
]

-- `CommandPageW.Sequence`.
abbrev header_sequence : Option PageHeader → ℕ
header_sequence none = 0
header_sequence (some header) = get_sequence header

unfoldable pub sequence : CommandPageW → ℕ
sequence w = elim w.command_page [ none ↦ 0 | some page ↦ header_sequence page.header ]

-- `CommandResponseW.EventsBook`.
abbrev book_of : Option CommandResponse → Option EventBook
book_of none = none
book_of (some resp) = resp.events

unfoldable events_book : CommandResponseW → Option EventBookW
events_book w = elim (book_of w.command_response) [
  | none ↦ none
  | some b ↦ some (new_event_book_w (some b))
]

-- `CommandResponseW.Events`.
unfoldable pub events : CommandResponseW → List EventPageW
events w = elim (book_of w.command_response) [ none ↦ [] | some b ↦ map new_event_page_w b.pages ]
