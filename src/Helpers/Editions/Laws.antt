-- ===== src/Helpers/Editions/Laws.antt =====
-- `DivergenceFor` of helpers.go.
use angzarr_client_go.Prelude.{
  String, some, List, [], ◌∷◌, ◌++◌, ◌≡◌, ◌≢◌, ◌↔◌, refl, arith, All, eq_iff,
}
use angzarr_client_go.Proto.{ProtoEdition, DomainDivergence}
use angzarr_client_go.Helpers.Editions.{
  pos, negsuc, explicit_edition, divergence_in, divergence_for,
}

divergence_in-append :
    (domain : String) (before after : List DomainDivergence) (d : DomainDivergence)
    → All (λ b. b.domain ≢ domain) before
    → d.domain ≡ domain
    → divergence_in domain (before ++ d ∷ after) ≡ pos d.sequence
unfolding divergence_in
divergence_in-append domain [] after d h e = ground (arith, eq_iff d.domain domain)
divergence_in-append domain (b ∷ before) after d (h, hs) e =
    ground (arith, eq_iff b.domain domain, divergence_in-append domain before after d hs e)

-- The divergence of an explicit edition for a domain is the first one listed for it.
divergence_for-first :
    (name domain : String) (before after : List DomainDivergence) (d : DomainDivergence)
    → All (λ b. b.domain ≢ domain) before
    → d.domain ≡ domain
    → divergence_for (some (explicit_edition name (before ++ d ∷ after))) domain ≡ pos d.sequence
unfolding divergence_for
divergence_for-first name domain before after d h e = divergence_in-append domain before after d h e

divergence_in-eq-none_iff :
    (domain : String) (ds : List DomainDivergence)
    → (divergence_in domain ds ≡ negsuc 0) ↔ All (λ b. b.domain ≢ domain) ds
unfolding divergence_in
divergence_in-eq-none_iff domain [] = (λ _. tt, λ _. refl)
divergence_in-eq-none_iff domain (d ∷ ds) =
    ground (arith, eq_iff d.domain domain, divergence_in-eq-none_iff domain ds)

-- The result -1 means exactly that no divergence of the edition is for the domain.
divergence_for-eq-none_iff :
    (e : ProtoEdition) (domain : String)
    → (divergence_for (some e) domain ≡ negsuc 0) ↔ All (λ b. b.domain ≢ domain) e.divergences
unfolding divergence_for
divergence_for-eq-none_iff e domain = divergence_in-eq-none_iff domain e.divergences
