-- ===== src/Router/Event/Dispatch.antt =====
-- `EventRouter.Dispatch` and `On` of router.go.
use angzarr_client_go.Prelude.{
  ℕ, String, Option, none, some, List, [], ◌∷◌, ◌++◌, ◌≡◌, refl, ap, ◌∙◌, sym, arith, lookup,
  lookup-insert, GoMap, str_eq, append-nil, if◌then◌else◌, Bool-cases, inl, inr, insert,
}
use angzarr_client_go.Proto.{Cover, EventPage, EventBook, CommandBook}
use angzarr_client_go.Errors.{Result, ok, err, ◌>>=◌, ◌⊕◌, ⊕_assoc, nil-⊕}
use angzarr_client_go.Helpers.TypeUrl.{Registrations}
use angzarr_client_go.Destinations.{Destinations, new_destinations}
use angzarr_client_go.Router.Event.{
  EventRouter, EventHandler, domain, on, page_commands, dispatch_pages, dispatch_for, source_domain,
  with_domain, registered_for, dispatch,
}

-- The commands of a history, event by event: an error ends it.
abbrev pub translate :
    Registrations EventHandler
    → EventBook
    → Destinations
    → List EventPage
    → Result (List CommandBook)
translate regs source destinations [] = ok []
translate regs source destinations (p ∷ ps) =
    page_commands regs source destinations p.event ⊕ translate regs source destinations ps

module _ (regs : Registrations EventHandler) (source : EventBook) (d : Destinations) where
  page-step :
      (done : List CommandBook) (ps : List EventPage) (r : Result (List CommandBook))
      → ((before : List CommandBook)
          → dispatch_pages regs source d before ps ≡ ok before ⊕ translate regs source d ps)
      → (r >>= λ cmds. dispatch_pages regs source d (done ++ cmds) ps)
        ≡ ok done ⊕ r ⊕ translate regs source d ps
  page-step done ps (err e) ih = refl
  page-step done ps (ok cmds) ih =
      ih (done ++ cmds) ∙ ⊕_assoc (ok done) (ok cmds) (translate regs source d ps)

  dispatch_pages-eq :
      (done : List CommandBook) (ps : List EventPage)
      → dispatch_pages regs source d done ps ≡ ok done ⊕ translate regs source d ps
  unfolding dispatch_pages
  dispatch_pages-eq done [] = ap ok (sym (append-nil done))
  dispatch_pages-eq done (p ∷ ps) =
      page-step done ps (page_commands regs source d p.event)
        (λ before. dispatch_pages-eq before ps)

  -- A longer history gives the commands of its first part, then those of the rest.
  pub translate-append :
      (ps qs : List EventPage)
      → translate regs source d (ps ++ qs) ≡ translate regs source d ps ⊕ translate regs source d qs
  translate-append [] qs = sym (nil-⊕ (translate regs source d qs))
  translate-append (p ∷ ps) qs =
      ap (λ t. page_commands regs source d p.event ⊕ t) (translate-append ps qs)
      ∙ sym (⊕_assoc (page_commands regs source d p.event) _ (translate regs source d qs))

-- For a source whose domain has registrations, the result is the join of what each event gives, in
-- the order of the pages: the commands of all events, or the error of the first event that fails.
pub dispatch-eq-translate :
    (r : EventRouter) (source : EventBook) (cover : Cover) (sequences : Option (GoMap ℕ))
    (regs : Registrations EventHandler)
    → source.cover ≡ some cover
    → lookup cover.domain r.handlers ≡ some regs
    → dispatch r (some source) sequences
      ≡ translate regs source (new_destinations sequences) source.pages
unfolding dispatch
dispatch-eq-translate r source cover sequences regs has_cover found =
    let named : lookup (source_domain source.cover) r.handlers ≡ some regs =
      ap (λ c. lookup (source_domain c) r.handlers) has_cover ∙ found in
    ap (λ o. dispatch_for o source (new_destinations sequences)) named
    ∙ dispatch_pages-eq regs source (new_destinations sequences) [] source.pages
    ∙ nil-⊕ (translate regs source (new_destinations sequences) source.pages)

-- A source of a domain that was never registered gives no commands and no error.
dispatch_other_domain :
    (r : EventRouter) (source : EventBook) (sequences : Option (GoMap ℕ))
    → lookup (source_domain source.cover) r.handlers ≡ none
    → dispatch r (some source) sequences ≡ ok []
unfolding dispatch
dispatch_other_domain r source sequences missing =
    ap (λ o. dispatch_for o source (new_destinations sequences)) missing

-- A handler that `On` adds after `Domain d` is found by the sources of `d`, unless its type was
-- registered there before, and by no other domain's.
on-registers :
    (r s : EventRouter) (d e full_name : String) (handler : EventHandler)
    (regs : Registrations EventHandler)
    → on (domain r d) full_name handler ≡ some s
    → lookup d r.handlers ≡ some regs
    → lookup e s.handlers
      ≡ (if str_eq d e then some (regs ++ (full_name, handler) ∷ []) else lookup e r.handlers)
unfolding on domain
on-registers r s d e full_name handler regs added found =
    let r' : EventRouter = record r { current_domain = d } in
    let opened : domain r d ≡ r' = ap (with_domain r d) found in
    let added' : on r' full_name handler ≡ some s =
      ap (λ x. on x full_name handler) (sym opened) ∙ added in
    elim (Bool-cases (str_eq d "")) [
      | inl blank ↦ absurd (cc (added', blank))
      | inr named ↦
          let same : s.handlers
              ≡ insert d (registered_for (lookup d r.handlers) ++ (full_name, handler) ∷ [])
                  r.handlers =
            ground arith in
          ap (lookup e) same ∙ lookup-insert d e _ r.handlers ∙ rw found
    ]
