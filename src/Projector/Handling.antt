-- ===== src/Projector/Handling.antt =====
-- `ProjectorBase.Handle` of projector_oo.go.
use angzarr_client_go.Prelude.{ℕ, none, some, List, [], ◌∷◌, ◌++◌, ◌≡◌, ap, ◌∙◌, All}
use angzarr_client_go.Proto.{Any, Cover, EventPage, EventBook, Projection, PageHeader, get_sequence}
use angzarr_client_go.Projector.{
  Projector, page_projection, page_sequence, handle_pages, handle_covered, handle,
  default_projection, project_event, stop_at, sequence_after,
}

-- No handler gives a projection for the page's event.
abbrev pub IsSilent : Projector → EventPage → Type 0
IsSilent p page = page_projection p page.event ≡ none

module _ (p : Projector) (cover : Cover) where
  silent-step :
      (last : ℕ) (page : EventPage) (rest : List EventPage)
      → IsSilent p page
      → handle_pages p cover last (page ∷ rest)
        ≡ handle_pages p cover (page_sequence last page page.event) rest
  unfolding handle_pages
  silent-step last page rest silent =
      ap (λ o. stop_at o (handle_pages p cover (page_sequence last page page.event) rest)) silent

  pages-first :
      (last : ℕ) (before : List EventPage) (page : EventPage) (after : List EventPage)
      (projection : Projection)
      → All (IsSilent p) before
      → page_projection p page.event ≡ some projection
      → handle_pages p cover last (before ++ page ∷ after) ≡ projection
  unfolding handle_pages
  pages-first last [] page after projection silent gives =
      ap (λ o. stop_at o (handle_pages p cover (page_sequence last page page.event) after)) gives
  pages-first last (q ∷ before) page after projection (h, silent) gives =
      silent-step last q (before ++ page ∷ after) h
      ∙ pages-first (page_sequence last q q.event) before page after projection silent gives

  pages-default :
      (last : ℕ) (before : List EventPage) (page : EventPage) (event : Any) (header : PageHeader)
      → All (IsSilent p) before
      → page.event ≡ some event
      → page.header ≡ some header
      → project_event p event ≡ none
      → handle_pages p cover last (before ++ page ∷ [])
        ≡ default_projection p cover (get_sequence header)
  unfolding handle_pages
  pages-default last [] page event header silent has headed gives =
      silent-step last page [] (ap (page_projection p) has ∙ gives)
      ∙ ap (default_projection p cover)
          (ap (page_sequence last page) has ∙ ap (sequence_after last) headed)
  pages-default last (q ∷ before) page event header (h, silent) has headed gives =
      silent-step last q (before ++ page ∷ []) h
      ∙ pages-default (page_sequence last q q.event) before page event header silent has headed
          gives

-- For a book with a cover, the result is the first projection that a handler gives for an event of
-- the book; the events behind it are not looked at.
pub handle-first :
    (p : Projector) (book : EventBook) (cover : Cover) (before : List EventPage) (page : EventPage)
    (after : List EventPage) (projection : Projection)
    → book.cover ≡ some cover
    → book.pages ≡ before ++ page ∷ after
    → All (IsSilent p) before
    → page_projection p page.event ≡ some projection
    → handle p (some book) ≡ projection
unfolding handle handle_covered handle_pages
handle-first p book cover before page after projection covered paged silent gives =
    ap (handle_covered p book) covered
    ∙ ap (handle_pages p cover 0) paged
    ∙ pages-first p cover 0 before page after projection silent gives

-- For a book with a cover whose last page holds an event and a header, when no handler gives a
-- projection, the result is the default one with the sequence of that last page.
handle-default :
    (p : Projector) (book : EventBook) (cover : Cover) (before : List EventPage) (page : EventPage)
    (event : Any) (header : PageHeader)
    → book.cover ≡ some cover
    → book.pages ≡ before ++ page ∷ []
    → All (IsSilent p) before
    → page.event ≡ some event
    → page.header ≡ some header
    → project_event p event ≡ none
    → handle p (some book) ≡ default_projection p cover (get_sequence header)
unfolding handle handle_covered handle_pages
handle-default p book cover before page event header covered paged silent has headed gives =
    ap (handle_covered p book) covered
    ∙ ap (handle_pages p cover 0) paged
    ∙ pages-default p cover 0 before page event header silent has headed gives
