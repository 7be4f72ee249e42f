-- ===== src/Saga/Facts.antt =====
-- `SagaBase.Handle` of saga_oo.go, its commands and its facts.
use angzarr_client_go.Prelude.{some, List, [], ◌∷◌, ◌++◌, ◌≡◌, refl, sym, ap, ◌∙◌, append-nil}
use angzarr_client_go.Proto.{EventPage, EventBook, CommandBook}
use angzarr_client_go.Errors.{Result, ok, err, ◌⊕◌, ⊕_assoc, nil-⊕}
use angzarr_client_go.Saga.{
  SagaBase, page_commands, continue, handle_pages, response, handle_book, handle,
}

-- Facts that an earlier call left in the queue do not reach the response to a book with events, and
-- do not stay in the queue.
handle_forgets :
    (s : SagaBase) (facts : List EventBook) (source : EventBook) (page : EventPage)
    (rest : List EventPage)
    → source.pages ≡ page ∷ rest
    → handle s facts (some source) ≡ handle s [] (some source)
unfolding handle
handle_forgets s facts source page rest e = rw e

-- The events of a book one by one: what each queues and gives, the commands in order, up to the
-- first error.
abbrev join :
    List CommandBook
    → List EventBook × Result (List CommandBook)
    → List EventBook × Result (List CommandBook)
join done (facts, r) = (facts, ok done ⊕ r)

abbrev pub translate :
    SagaBase → List EventBook → List EventPage → List EventBook × Result (List CommandBook)
translate s facts [] = (facts, ok [])
translate s facts (p ∷ ps) =
    continue (page_commands s facts p.event) (λ facts' cmds. join cmds (translate s facts' ps))

join_twice :
    (done cmds : List CommandBook) (r : List EventBook × Result (List CommandBook))
    → join (done ++ cmds) r ≡ join done (join cmds r)
join_twice done cmds (facts, r) = ap (λ x. (facts, x)) (⊕_assoc (ok done) (ok cmds) r)

module _ (s : SagaBase) where
  page-step :
      (done : List CommandBook) (ps : List EventPage)
      (r : List EventBook × Result (List CommandBook))
      → ((facts : List EventBook) (before : List CommandBook)
          → handle_pages s facts before ps ≡ join before (translate s facts ps))
      → continue r (λ facts' cmds. handle_pages s facts' (done ++ cmds) ps)
        ≡ join done (continue r (λ facts' cmds. join cmds (translate s facts' ps)))
  page-step done ps (facts, err e) ih = refl
  page-step done ps (facts, ok cmds) ih =
      ih facts (done ++ cmds) ∙ join_twice done cmds (translate s facts ps)

  handle_pages-translate :
      (facts : List EventBook) (done : List CommandBook) (ps : List EventPage)
      → handle_pages s facts done ps ≡ join done (translate s facts ps)
  unfolding handle_pages
  handle_pages-translate facts done [] = ap (λ cmds. (facts, ok cmds)) (sym (append-nil done))
  handle_pages-translate facts done (p ∷ ps) =
      page-step done ps (page_commands s facts p.event)
        (λ facts' before. handle_pages-translate facts' before ps)

-- Joining nothing changes nothing.
join-nil : (r : List EventBook × Result (List CommandBook)) → join [] r ≡ r
join-nil (facts, r) = ap (λ x. (facts, x)) (nil-⊕ r)

-- For a book with events, `Handle` gives the commands that each event gives, in the order of the
-- pages, and the facts that its handlers queued, whatever was queued before; the first error ends
-- it.
pub handle-eq-translate :
    (s : SagaBase) (facts : List EventBook) (source : EventBook) (page : EventPage)
    (rest : List EventPage)
    → source.pages ≡ page ∷ rest
    → handle s facts (some source) ≡ response (translate s [] source.pages)
unfolding handle
handle-eq-translate s facts source page rest e =
    ap (handle_book s facts) e
    ∙ ap response (handle_pages-translate s [] [] (page ∷ rest) ∙ join-nil _)
    ∙ ap (λ ps. response (translate s [] ps)) (sym e)
