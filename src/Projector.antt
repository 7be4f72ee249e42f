-- ===== src/Projector.antt =====
-- projector_oo.go: `ProjectorBase`. The map lists its entries in the order in which a range meets
-- them.
pub mod Handling
use angzarr_client_go.Prelude.{ℕ, String, Option, none, some, List, [], ◌∷◌, GoMap, insert}
use angzarr_client_go.Proto.{
  Bytes, Any, Cover, EventPage, EventBook, PageHeader, Projection, get_sequence,
}
use angzarr_client_go.Errors.{Result, ok, err}
use angzarr_client_go.Helpers.TypeUrl.{match_type}

pub record Projector : Type 0 where
  pub name : String
  pub domains : List String
  pub handlers : GoMap (Bytes → Option Projection)

-- `Init`.
abbrev pub init : String → List String → Projector
init name domains = record { name = name; domains = domains; handlers = [] }

abbrev project_decoded : {E : Type 0} → (E → Option Projection) → Result E → Option Projection
project_decoded handler (err e) = none
project_decoded handler (ok event) = handler event

-- `Projects`; reflection gives the event type's full name and decoder.
abbrev pub projects :
    {E : Type 0} → Projector → String → (Bytes → Result E) → (E → Option Projection) → Projector
projects p full_name unmarshal handler = record p {
  handlers = insert full_name (λ value. project_decoded handler (unmarshal value)) p.handlers;
}

-- `lastSeq` after a page with an event.
abbrev pub sequence_after : ℕ → Option PageHeader → ℕ
sequence_after last none = last
sequence_after last (some header) = get_sequence header

abbrev project_matched : Any → Option (Bytes → Option Projection) → Option Projection
project_matched event none = none
project_matched event (some handler) = handler event.value

-- What the registered handler gives for an event.
abbrev pub project_event : Projector → Any → Option Projection
project_event p event = project_matched event (match_type event.type_url p.handlers)

abbrev page_sequence : ℕ → EventPage → Option Any → ℕ
page_sequence last page none = last
page_sequence last page (some event) = sequence_after last page.header

abbrev page_projection : Projector → Option Any → Option Projection
page_projection p none = none
page_projection p (some event) = project_event p event

abbrev stop_at : Option Projection → Projection → Projection
stop_at (some projection) rest = projection
stop_at none rest = rest

-- The default projection.
abbrev pub default_projection : Projector → Cover → ℕ → Projection
default_projection p cover last = record {
  cover = some cover;
  projector = p.name;
  sequence = last;
  projection = none;
}

-- The loop of `Handle`, with `lastSeq` so far.
pub handle_pages : Projector → Cover → ℕ → List EventPage → Projection
handle_pages p cover last [] = default_projection p cover last
handle_pages p cover last (page ∷ pages) =
    let rest = handle_pages p cover (page_sequence last page page.event) pages in
    stop_at (page_projection p page.event) rest

abbrev handle_covered : Projector → EventBook → Option Cover → Projection
unfolding handle_pages
handle_covered p book none = record {
  cover = none;
  projector = p.name;
  sequence = 0;
  projection = none;
}
handle_covered p book (some cover) = handle_pages p cover 0 book.pages

-- `Handle`, which gives no error.
pub handle : Projector → Option EventBook → Projection
handle p none = record { cover = none; projector = p.name; sequence = 0; projection = none }
handle p (some book) = handle_covered p book book.cover
