-- ===== src/Helpers/TypeUrl/Matching.antt =====
-- Matching of type URLs, as all routers do it, and `TypeNameFromURL` of helpers.go.
use Prim.Native.Char.{code}
use native.Mathlib.Decide.{ℕ_discrete}
use text.Mathlib.TextLemmas.{
  append_assoc, append_cancel_left, nil-append, cons-append, nil≢cons, head-eq_of_cons-eq,
  tail-eq_of_cons-eq,
}
use text.Mathlib.TextEquality.{Char-path}
use angzarr_client_go.Prelude.{
  String, ◌⧺◌, Option, none, some, [], ◌∷◌, ◌++◌, ◌≡◌, refl, sym, ◌∙◌, ap, ◌⊎◌, arith, eq_iff,
  after_last, Lacks, after_last-append, after_last-Lacks, Lacks-of_after_last, or_else,
  lookup-again, inl, inr, lookup, ◌≢◌,
}
use angzarr_client_go.Helpers.TypeUrl.{
  type_url_prefix, type_name_from_url, match_type, Registrations,
}

pub after_last-type_url_prefix :
    (name : String) → Lacks b'/' name → after_last b'/' (type_url_prefix ⧺ name) ≡ some name
after_last-type_url_prefix name h =
    ap (after_last b'/') (append_assoc "type.googleapis.com" "/" name)
    ∙ after_last-append b'/' "type.googleapis.com" "/" name refl h

-- The type name is read back from the URL that `TypeURL` or the routers make of it.
type_name_from_url-prefix :
    (name : String) → Lacks b'/' name → type_name_from_url (type_url_prefix ⧺ name) ≡ name
unfolding type_name_from_url
type_name_from_url-prefix name h = rw (after_last-type_url_prefix name h, type_name_from_url)

name_or-Lacks :
    (url : String) (o : Option String)
    → after_last b'/' url ≡ o
    → Lacks b'/' (elim o [ some name ↦ name | none ↦ url ])
name_or-Lacks url none e = Lacks-of_after_last b'/' url e
name_or-Lacks url (some r) e = after_last-Lacks b'/' url r e

-- The type name of any URL has no slash.
pub type_name_from_url-Lacks : (url : String) → Lacks b'/' (type_name_from_url url)
unfolding type_name_from_url
type_name_from_url-Lacks url = name_or-Lacks url (after_last b'/' url) refl

-- The URL of a registered name is matched as the map of registrations is looked up.
pub match_type-prefix {ℓ} :
    {H : Type ℓ} (name : String) (regs : Registrations H)
    → match_type (type_url_prefix ⧺ name) regs ≡ lookup name regs
unfolding match_type lookup
match_type-prefix name [] = refl
match_type-prefix name ((n, h) ∷ regs) = ground (
  arith,
  match_type-prefix name regs,
  eq_iff (type_url_prefix ⧺ name) (type_url_prefix ⧺ n),
  eq_iff n name,
  append_cancel_left type_url_prefix name n,
)

-- A text begins with another, or no rest makes it so.
prefix-cases : (p s : String) → ((n : String) × (s ≡ p ⧺ n)) ⊎ ((n : String) → s ≢ p ⧺ n)
prefix-cases String.[] s = inl (s, sym (nil-append s))
prefix-cases (String.◌∷◌ c p) String.[] = inr (λ n e. nil≢cons (e ∙ cons-append c p n))
prefix-cases (String.◌∷◌ c p) (String.◌∷◌ d s) = elim (ℕ_discrete (code d) (code c)) [
  | yes same ↦ elim (prefix-cases p s) [
    | inl (n, e) ↦ inl (n, cc (Char-path d c same, e, cons-append c p n))
    | inr none_of ↦ inr (λ n e. none_of n (tail-eq_of_cons-eq (e ∙ cons-append c p n)))
  ]
  | no differ ↦ inr (λ n e. differ (ap code (head-eq_of_cons-eq (e ∙ cons-append c p n))))
]

match_type-other {ℓ} :
    {H : Type ℓ} (url : String) (regs : Registrations H)
    → ((n : String) → url ≢ type_url_prefix ⧺ n)
    → match_type url regs ≡ none
unfolding match_type
match_type-other url [] h = refl
match_type-other url ((n, f) ∷ regs) h =
    ground (arith, match_type-other url regs h, eq_iff url (type_url_prefix ⧺ n), h n)

-- A range over a map meets its entries in some order. Two listings of one map reach one handler.
match_type-order {ℓ} :
    {H : Type ℓ} (url : String) (xs ys : Registrations H)
    → ((name : String) → lookup name xs ≡ lookup name ys)
    → match_type url xs ≡ match_type url ys
match_type-order url xs ys same = elim (prefix-cases type_url_prefix url) [
  | inl (n, e) ↦ rw e (match_type-prefix n xs ∙ same n ∙ sym (match_type-prefix n ys))
  | inr other ↦ match_type-other url xs other ∙ sym (match_type-other url ys other)
]

-- Of two lists of registrations the first is searched first.
match_type-append {ℓ} :
    {H : Type ℓ} (url : String) (xs ys : Registrations H)
    → match_type url (xs ++ ys) ≡ or_else (match_type url xs) (match_type url ys)
unfolding match_type
match_type-append url [] ys = refl
match_type-append url ((n, h) ∷ xs) ys = ground (arith, match_type-append url xs ys)

-- A registration behind another of its name is never reached.
pub match_type-again {ℓ} :
    {H : Type ℓ} (url name : String) (regs : Registrations H) (old new : H)
    → lookup name regs ≡ some old
    → match_type url (regs ++ (name, new) ∷ []) ≡ match_type url regs
match_type-again url name regs old new found = elim (prefix-cases type_url_prefix url) [
  | inl (n, e) ↦ rw e (
      match_type-prefix n (regs ++ (name, new) ∷ [])
      ∙ lookup-again name n new regs found
      ∙ sym (match_type-prefix n regs))
  | inr other ↦
      match_type-other url (regs ++ (name, new) ∷ []) other ∙ sym (match_type-other url regs other)
]
