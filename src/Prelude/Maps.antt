-- ===== src/Prelude/Maps.antt =====
-- Go's `map[string]V`, as a list of its entries in the order in which a `range` meets them.
use Prim.Native.String.{String}
use mathlib.Core.Path.{◌≡◌, refl, sym, ap, ◌∙◌}
use mathlib.Core.Logic.{◌≢◌, inl, inr}
use mathlib.Core.Option.{Option, none, some}
use mathlib.Core.List.{List, [], ◌∷◌, ◌++◌}
use native.Mathlib.Omega.{arith}
use text.Mathlib.TextEquality.{eq_iff}
use angzarr_client_go.Prelude.Tests.{str_eq, if◌then◌else◌, Bool-cases}

abbrev pub GoMap {ℓ} : Type ℓ → Type ℓ
GoMap V = List (String × V)

module _ {ℓ} {V : Type ℓ} where
  -- `v, ok := m[k]`.
  unfoldable pub lookup : String → GoMap V → Option V
  lookup key [] = none
  lookup key ((here, value) ∷ rest) = if str_eq here key then some value else lookup key rest

  -- `m[k] = v`.
  unfoldable pub insert : String → V → GoMap V → GoMap V
  insert key new [] = (key, new) ∷ []
  insert key new ((here, old) ∷ rest) =
      if str_eq here key then (here, new) ∷ rest else (here, old) ∷ insert key new rest

  pub lookup-insert :
      (key asked : String) (new : V) (entries : GoMap V)
      → lookup asked (insert key new entries)
        ≡ (if str_eq key asked then some new else lookup asked entries)
  unfolding lookup insert
  lookup-insert key asked new [] = refl
  lookup-insert key asked new ((here, old) ∷ rest) =
      let behind = lookup-insert key asked new rest in
      ground (arith, behind, eq_iff here asked, eq_iff here key, eq_iff key asked)

pub lookup-insert_ne {ℓ} :
    {V : Type ℓ} (k j : String) (v : V) (m : GoMap V) → k ≢ j → lookup j (insert k v m) ≡ lookup j m
lookup-insert_ne k j v m h = lookup-insert k j v m ∙ elim (Bool-cases (str_eq k j)) [
  | inl same ↦ absurd (h ((eq_iff k j).0 same))
  | inr differ ↦ rw differ
]

abbrev pub or_else {ℓ} : {A : Type ℓ} → Option A → Option A → Option A
or_else none other = other
or_else (some a) other = some a

module _ {ℓ} {V : Type ℓ} where
  lookup-append :
      (k : String) (m n : GoMap V) → lookup k (m ++ n) ≡ or_else (lookup k m) (lookup k n)
  unfolding lookup
  lookup-append k [] n = refl
  lookup-append k ((j, v) ∷ m) n = ground (arith, lookup-append k m n)

  lookup_one : (k j : String) (v : V) → k ≢ j → lookup k ((j, v) ∷ []) ≡ none
  unfolding lookup
  lookup_one k j v h = ground (arith, eq_iff j k)

  or_else-none : (o : Option V) → or_else o none ≡ o
  or_else-none none = refl
  or_else-none (some v) = refl

  -- An entry behind another of its key is never found.
  pub lookup-again :
      (j k : String) {v : V} (w : V) (m : GoMap V)
      → lookup j m ≡ some v
      → lookup k (m ++ (j, w) ∷ []) ≡ lookup k m
  lookup-again j k w m found = elim (Bool-cases (str_eq k j)) [
    | inl same ↦
        let e : lookup k m ≡ some _ = ap (λ i. lookup i m) ((eq_iff k j).0 same) ∙ found in
        lookup-append k m _ ∙ ap (λ o. or_else o (lookup k ((j, w) ∷ []))) e ∙ sym e
    | inr differ ↦
        lookup-append k m _
        ∙ ap (or_else (lookup k m)) (lookup_one k j w (λ e. cc (differ, (eq_iff k j).1 e)))
        ∙ or_else-none (lookup k m)
  ]
