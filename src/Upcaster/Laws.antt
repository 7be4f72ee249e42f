-- ===== src/Upcaster/Laws.antt =====
-- `UpcasterRouter.Upcast` of upcaster.go.
use angzarr_client_go.Prelude.{
  String, ◌⧺◌, Option, none, some, List, [], ◌∷◌, ◌++◌, map, ◌≡◌, refl, ap, ◌∙◌, sym, arith, All,
  append-nil, append_assoc, lookup,
}
use mathlib.Core.List.{map-append}
use angzarr_client_go.Proto.{Any, EventPage}
use angzarr_client_go.Helpers.TypeUrl.{match_type, type_url_prefix}
use angzarr_client_go.Helpers.TypeUrl.Matching.{match_type-prefix}
use angzarr_client_go.Upcaster.{
  UpcasterRouter, UpcasterHandler, upcast_event, upcast_payload, upcast_page, upcast_loop, upcast,
}

upcast_loop-eq-map :
    (r : UpcasterRouter) (result pages : List EventPage)
    → upcast_loop r result pages ≡ result ++ map (upcast_page r) pages
unfolding upcast_loop
upcast_loop-eq-map r result [] = sym (append-nil result)
upcast_loop-eq-map r result (p ∷ pages) =
    upcast_loop-eq-map r (result ++ upcast_page r p ∷ []) pages ∙ append_assoc result _ _

-- The result has a page for each page, in their order, each upcast on its own.
upcast-eq-map :
    (r : UpcasterRouter) (pages : List EventPage) → upcast r pages ≡ map (upcast_page r) pages
unfolding upcast
upcast-eq-map r pages = upcast_loop-eq-map r [] pages

headers-upcast_page : (r : UpcasterRouter) (p : EventPage) → (upcast_page r p).header ≡ p.header
headers-upcast_page r p = ground arith

map-headers :
    (r : UpcasterRouter) (pages : List EventPage)
    → map (λ p. p.header) (map (upcast_page r) pages) ≡ map (λ p. p.header) pages
map-headers r [] = refl
map-headers r (p ∷ pages) = cc (headers-upcast_page r p, map-headers r pages)

-- Upcasting keeps the headers, and so the sequence numbers, page by page.
upcast-headers :
    (r : UpcasterRouter) (pages : List EventPage)
    → map (λ p. p.header) (upcast r pages) ≡ map (λ p. p.header) pages
upcast-headers r pages = rw upcast-eq-map (map-headers r pages)

-- No handler is registered for the page's event, or the page has none.
abbrev pub IsCurrent : UpcasterRouter → EventPage → Type 0
IsCurrent r p = (event : Any) → p.event ≡ some event → match_type event.type_url r.handlers ≡ none

upcast_payload_of_current :
    (r : UpcasterRouter) (p : EventPage) (o : Option Any)
    → ((event : Any) → o ≡ some event → match_type event.type_url r.handlers ≡ none)
    → upcast_payload r p o ≡ p
upcast_payload_of_current r p none h = refl
upcast_payload_of_current r p (some event) h = rw (h event refl)

-- Pages without a handler for their events pass through unchanged.
upcast_of_IsCurrent :
    (r : UpcasterRouter) (pages : List EventPage) → All (IsCurrent r) pages → upcast r pages ≡ pages
upcast_of_IsCurrent r pages h = upcast-eq-map r pages ∙ go pages h
  where
    go : (ps : List EventPage) → All (IsCurrent r) ps → map (upcast_page r) ps ≡ ps
    go [] h = refl
    go (p ∷ ps) (h, hs) = cc (upcast_payload_of_current r p p.event h, go ps hs)

-- An event whose type name is registered, first for `handler`, is replaced by what `handler` makes
-- of it, wherever its page stands; header and creation time stay.
pub upcast_registered :
    (r : UpcasterRouter) (before after : List EventPage) (p : EventPage) (name : String)
    (event : Any) (handler : UpcasterHandler)
    → p.event ≡ some event
    → event.type_url ≡ type_url_prefix ⧺ name
    → lookup name r.handlers ≡ some handler
    → upcast r (before ++ p ∷ after)
      ≡ upcast r before ++ record p { event = handler event } ∷ upcast r after
upcast_registered r before after p name event handler pe url found =
    let matched : match_type event.type_url r.handlers ≡ some handler =
      ap (λ u. match_type u r.handlers) url ∙ match_type-prefix name r.handlers ∙ found in
    let here : upcast_page r p ≡ record p { event = handler event } =
      ap (upcast_payload r p) pe ∙ ap (upcast_event p event) matched in
    simp (upcast-eq-map, map-append, here)
