-- ===== src/Generator/Source/Domains.antt =====
-- The domain that cmd/angzarr-gen/main.go derives from a type's name.
use Prim.Native.Char.{Char}
use Prim.Native.String.{count}
use text.Mathlib.TextLemmas.{cons-append, nil-append, length-cons, length-append}
use angzarr_client_go.Prelude.{
  String, ◌⧺◌, false, List, [], ◌∷◌, ◌++◌, ◌≡◌, refl, ap, ◌∙◌, arith, str_eq, eq_refl,
  if◌then◌else◌, has_suffix, All, Bool-cases, inl, inr, eq_iff,
}
use angzarr_client_go.Generator.Source.{
  TypeInfo, trim_suffix, trim_suffixes, common_suffixes, derive_domain,
}

-- A text does not end in a suffix.
abbrev pub Misses : (name suffix : String) → Type 0
Misses name suffix = has_suffix name suffix ≡ false

trim_suffix_missing : (s t : String) → Misses s t → trim_suffix s t ≡ s
unfolding trim_suffix has_suffix
trim_suffix_missing String.[] t h = refl
trim_suffix_missing (String.◌∷◌ c s) t h = ground (arith, trim_suffix_missing s t)

trim_suffixes_missing :
    (name : String) (suffixes : List String)
    → All (Misses name) suffixes
    → trim_suffixes name suffixes ≡ name
unfolding trim_suffixes
trim_suffixes_missing name [] h = refl
trim_suffixes_missing name (suffix ∷ suffixes) (h, hs) =
    ap (λ s. trim_suffixes s suffixes) (trim_suffix_missing name suffix h)
    ∙ trim_suffixes_missing name suffixes hs

trim_suffix_whole : (t : String) → trim_suffix t t ≡ String.[]
unfolding trim_suffix
trim_suffix_whole String.[] = refl
trim_suffix_whole (String.◌∷◌ c t) = rw (eq_refl (String.◌∷◌ c t)) refl

longer_differs : (c : Char) (s t : String) → str_eq (String.◌∷◌ c (s ⧺ t)) t ≡ false
longer_differs c s t = elim (Bool-cases (str_eq (String.◌∷◌ c (s ⧺ t)) t)) [
  | inl same ↦
      let sizes = ap count ((eq_iff (String.◌∷◌ c (s ⧺ t)) t).0 same) in
      absurd (omega (arith, sizes, length-cons c (s ⧺ t), length-append s t))
  | inr differ ↦ differ
]

trim_suffix-append : (s t : String) → trim_suffix (s ⧺ t) t ≡ s
unfolding trim_suffix
trim_suffix-append String.[] t = ap (λ u. trim_suffix u t) (nil-append t) ∙ trim_suffix_whole t
trim_suffix-append (String.◌∷◌ c s) t =
    rw (cons-append, longer_differs c s t, trim_suffix-append s t) refl

-- Trimming the suffixes of the list in turn gives the base back from a name that is a base and one of
-- them, if the name ends in none of the earlier ones and the base in none of the later ones.
trim_suffixes-append :
    (base suffix : String) (before after : List String)
    → All (Misses (base ⧺ suffix)) before
    → All (Misses base) after
    → trim_suffixes (base ⧺ suffix) (before ++ suffix ∷ after) ≡ base
unfolding trim_suffixes
trim_suffixes-append base suffix [] after h later =
    ap (λ s. trim_suffixes s after) (trim_suffix-append base suffix)
    ∙ trim_suffixes_missing base after later
trim_suffixes-append base suffix (other ∷ before) after (h, hs) later =
    ap (λ s. trim_suffixes s (before ++ suffix ∷ after))
      (trim_suffix_missing (base ⧺ suffix) other h)
    ∙ trim_suffixes-append base suffix before after hs later

-- Where no domain is set, the domain of a type whose name is a base and one of the common suffixes is
-- the base in lower case, if the name ends in none of the suffixes that are trimmed earlier and the
-- base in none of those that are trimmed later.
derive_domain-append :
    (to_lower : String → String) (info : TypeInfo) (base suffix : String)
    (before after : List String)
    → common_suffixes ≡ before ++ suffix ∷ after
    → info.domain ≡ ""
    → All (Misses (base ⧺ suffix)) before
    → All (Misses base) after
    → (derive_domain to_lower (base ⧺ suffix) info).domain ≡ to_lower base
derive_domain-append to_lower info base suffix before after listed unset earlier later =
    ap
      (λ d.
        (if str_eq d ""
          then record info { domain = to_lower (trim_suffixes (base ⧺ suffix) common_suffixes) }
          else info).domain)
      unset
    ∙ ap (λ suffixes. to_lower (trim_suffixes (base ⧺ suffix) suffixes)) listed
    ∙ ap to_lower (trim_suffixes-append base suffix before after earlier later)
