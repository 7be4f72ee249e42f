-- ===== src/Prelude/Text.antt =====
-- The functions of Go's `strings` that the program calls, on native texts.
use Prim.Native.Nat.{ℕ, ◌≤◌}
use Prim.Native.Char.{Char, code}
use Prim.Native.String
use Prim.Native.String.{String, count}
use mathlib.Core.Path.{◌≡◌, refl, subst}
use mathlib.Core.Logic.{◌≢◌, inl, inr}
use mathlib.Core.Bool.{Bool, true, false}
use mathlib.Core.Option.{Option, none, some}
use native.Mathlib.Omega.{arith}
use text.Mathlib.TextEquality.{eq_iff}
use text.Mathlib.TextLemmas.{append_cancel_left, cons-append, nil-append, length-cons, length-nil}
use angzarr_client_go.Prelude.Tests.{◌==◌, str_eq, if◌then◌else◌, Option-cases}

-- Concatenation of texts, Go's `+`.
infixr 65 ◌⧺◌
abbrev pub ◌⧺◌ : String → String → String
◌⧺◌ = String.◌++◌

-- `s[strings.LastIndex(s, sep)+1:]` for a one-character `sep`; `none` where the index is -1.
unfoldable pub after_last : ℕ → String → Option String
after_last sep String.[] = none
after_last sep (String.◌∷◌ c s) =
    let rest = after_last sep s in
    elim rest [ some r ↦ some r | none ↦ if code c == sep then some s else none ]

-- `strings.HasSuffix`.
unfoldable pub has_suffix : String → String → Bool
has_suffix String.[] suffix = str_eq "" suffix
has_suffix (String.◌∷◌ c s) suffix =
    if str_eq (String.◌∷◌ c s) suffix then true else has_suffix s suffix

-- `strings.HasPrefix`.
unfoldable pub has_prefix : String → String → Bool
has_prefix s String.[] = true
has_prefix String.[] (String.◌∷◌ d p) = false
has_prefix (String.◌∷◌ c s) (String.◌∷◌ d p) =
    let rest = has_prefix s p in if code c == code d then rest else false

-- The text holds no character of the code `sep`.
abbrev pub Lacks : ℕ → String → Type 0
Lacks sep String.[] = Unit
Lacks sep (String.◌∷◌ c s) = (code c ≢ sep) × Lacks sep s

pub after_last_of_Lacks : (sep : ℕ) (s : String) → Lacks sep s → after_last sep s ≡ none
unfolding after_last
after_last_of_Lacks sep String.[] h = refl
after_last_of_Lacks sep (String.◌∷◌ c s) (h, hs) = ground (arith, after_last_of_Lacks sep s hs)

after_last-append_cons :
    (sep : ℕ) (p : String) (c : Char) (s : String)
    → code c ≡ sep
    → Lacks sep s
    → after_last sep (p ⧺ String.◌∷◌ c s) ≡ some s
unfolding after_last
after_last-append_cons sep String.[] c s e h =
    rw nil-append (ground (arith, after_last_of_Lacks sep s h))
after_last-append_cons sep (String.◌∷◌ d p) c s e h =
    rw cons-append (ground (arith, after_last-append_cons sep p c s e h))

pub after_last-append :
    (sep : ℕ) (p : String) (c : Char) (s : String)
    → code c ≡ sep
    → Lacks sep s
    → after_last sep (p ⧺ String.◌∷◌ c String.[] ⧺ s) ≡ some s
after_last-append sep p c s e h =
    rw (cons-append, nil-append) (after_last-append_cons sep p c s e h)

pub Lacks-of_after_last : (sep : ℕ) (s : String) → after_last sep s ≡ none → Lacks sep s
unfolding after_last
Lacks-of_after_last sep String.[] e = tt
Lacks-of_after_last sep (String.◌∷◌ c s) e =
    (ground arith, Lacks-of_after_last sep s (ground arith))

-- What stands behind the last separator holds no separator.
pub after_last-Lacks : (sep : ℕ) (s r : String) → after_last sep s ≡ some r → Lacks sep r
after_last-Lacks sep String.[] r e = unfold after_last in (cc)
after_last-Lacks sep (String.◌∷◌ c s) r e = elim (Option-cases (after_last sep s)) [
  | inl q ↦
      let same : s ≡ r = unfold after_last in ground arith in
      subst (Lacks sep) same (Lacks-of_after_last sep s q)
  | inr (t, q) ↦
      let same : t ≡ r = unfold after_last in ground arith in
      after_last-Lacks sep s r (rw (← same) q)
]

-- Texts behind one prefix are compared behind it.
pub str_eq-append : (p s t : String) → str_eq (p ⧺ s) (p ⧺ t) ≡ str_eq s t
str_eq-append p s t = ground (arith, eq_iff (p ⧺ s) (p ⧺ t), eq_iff s t, append_cancel_left p s t)

-- A prefix that is no longer than the first of two texts is looked for in that one only.
pub has_prefix-append : (s t p : String) → count p ≤ count s → has_prefix (s ⧺ t) p ≡ has_prefix s p
unfolding has_prefix
has_prefix-append s t String.[] h = refl
has_prefix-append String.[] t (String.◌∷◌ d p) h =
    absurd (omega (arith, h, length-cons d p, length-nil))
has_prefix-append (String.◌∷◌ c s) t (String.◌∷◌ d p) h =
    rw cons-append
      (ground (arith, has_prefix-append s t p (omega (arith, h, length-cons c s, length-cons d p))))
