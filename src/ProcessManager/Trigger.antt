-- ===== src/ProcessManager/Trigger.antt =====
-- `ProcessManagerBase.Handle` and `RebuildState` of pm_oo.go.
use angzarr_client_go.Prelude.{
  Option, none, some, List, [], ◌∷◌, ◌++◌, ◌≡◌, refl, sym, ap, ◌∙◌, append-nil, append_assoc,
  or_else,
}
use angzarr_client_go.Proto.{EventPage, EventBook}
use angzarr_client_go.Errors.{Result, ok, err, ◌>>=◌}
use angzarr_client_go.Codec.{Codec}
use angzarr_client_go.Destinations.{Destinations}
use angzarr_client_go.ProcessManager.{
  ProcessManager, Response, empty_response, gather, page_response, handle_pages, initial,
  rebuild_state, apply_pages, apply_payload,
}

-- Two results gathered: the first error, or both responses in order.
infixr 60 ◌⊗◌
abbrev pub ◌⊗◌ : Result Response → Result Response → Result Response
err e ⊗ r = err e
ok a ⊗ err e = err e
ok a ⊗ ok b = ok (record {
  commands = a.commands ++ b.commands;
  process_pages = a.process_pages ++ b.process_pages;
  notification = or_else b.notification a.notification;
})

or_else_assoc : {A : Type 0} (a b c : Option A) → or_else c (or_else b a) ≡ or_else (or_else c b) a
or_else_assoc a b none = refl
or_else_assoc a b (some c) = refl

gather_assoc : (a b c : Response) → gather (gather a b) c ≡ gather a (gather b c)
gather_assoc a b c i = record {
  commands = append_assoc a.commands b.commands c.commands i;
  process_pages = append_assoc a.process_pages b.process_pages c.process_pages i;
  notification = or_else_assoc a.notification b.notification c.notification i;
}

or_else-none : {A : Type 0} (o : Option A) → or_else o none ≡ o
or_else-none none = refl
or_else-none (some a) = refl

⊗_assoc : (r s t : Result Response) → (r ⊗ s) ⊗ t ≡ r ⊗ s ⊗ t
⊗_assoc (err e) s t = refl
⊗_assoc (ok a) (err e) t = refl
⊗_assoc (ok a) (ok b) (err e) = refl
⊗_assoc (ok a) (ok b) (ok c) = ap ok (gather_assoc a b c)

gather-empty_response : (a : Response) → gather empty_response a ≡ a
gather-empty_response a i = record {
  commands = a.commands;
  process_pages = a.process_pages;
  notification = or_else-none a.notification i;
}

pub empty-⊗ : (r : Result Response) → ok empty_response ⊗ r ≡ r
empty-⊗ (err e) = refl
empty-⊗ (ok a) = ap ok (gather-empty_response a)

⊗-empty : (a : Response) → gather a empty_response ≡ a
⊗-empty a i = record {
  commands = append-nil a.commands i;
  process_pages = append-nil a.process_pages i;
  notification = a.notification;
}

module _ {S : Type 0} (codec : Codec) (pm : ProcessManager S) (trigger : EventBook) (state : S)
    (dests : Option Destinations) where
  -- The pages of a trigger one by one: what each gives, joined in order.
  unfoldable pub translate : List EventPage → Result Response
  translate [] = ok empty_response
  translate (p ∷ ps) = page_response codec pm trigger state dests p.event ⊗ translate ps

  page-step :
      (done : Response) (ps : List EventPage) (r : Result Response)
      → ((before : Response)
          → handle_pages codec pm trigger state dests before ps ≡ ok before ⊗ translate ps)
      → (r >>= λ resp. handle_pages codec pm trigger state dests (gather done resp) ps)
        ≡ ok done ⊗ r ⊗ translate ps
  page-step done ps (err e) ih = refl
  page-step done ps (ok resp) ih =
      ih (gather done resp) ∙ ⊗_assoc (ok done) (ok resp) (translate ps)

  pub handle_pages-translate :
      (done : Response) (ps : List EventPage)
      → handle_pages codec pm trigger state dests done ps ≡ ok done ⊗ translate ps
  unfolding handle_pages translate
  handle_pages-translate done [] = ap ok (sym (⊗-empty done))
  handle_pages-translate done (p ∷ ps) =
      page-step done ps (page_response codec pm trigger state dests p.event)
        (λ before. handle_pages-translate before ps)

-- A process manager's state after a longer history is the state after its first part with the rest
-- applied to it.
rebuild_state-append :
    {S : Type 0} (zero : S) (pm : ProcessManager S) (book : EventBook) (more : List EventPage)
    → rebuild_state zero pm (some (record book { pages = book.pages ++ more }))
      ≡ apply_pages pm (rebuild_state zero pm (some book)) more
unfolding rebuild_state apply_pages
rebuild_state-append zero pm book more = go (initial zero pm) book.pages
  where
    go :
        (s : _) (ps : List EventPage)
        → apply_pages pm s (ps ++ more) ≡ apply_pages pm (apply_pages pm s ps) more
    go s [] = refl
    go s (p ∷ ps) = go (apply_payload pm s p.event) ps
