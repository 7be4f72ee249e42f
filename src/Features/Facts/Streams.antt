-- ===== src/Features/Facts/Streams.antt =====
-- Streams of numbered events, and properties of the values of a map, for features/fact_flow.go.
use mathlib.Core.Path.{subst}
use angzarr_client_go.Prelude.{
  ℕ, zero, suc, ◌+◌, String, some, List, [], ◌∷◌, ◌++◌, ◌≡◌, refl, sym, ap, ◌∙◌, arith, length,
  length-append, str_eq, if◌then◌else◌, Bool-cases, inl, inr, GoMap, lookup, insert,
}
use angzarr_client_go.Proto.{EventPage, sequence_header}
use angzarr_client_go.Helpers.Books.{u32}
use angzarr_client_go.Helpers.Books.Sequences.{IsNumbered}
use angzarr_client_go.Features.Facts.{fact_page, made_events}

-- The events are numbered from one, and the next one's number follows them.
pub record IsStream (events : List EventPage) (sequence : ℕ) : Type 0 where
  pub numbered : IsNumbered 1 events
  pub next : sequence ≡ u32 (length events + 1)

-- A property of every value of a map.
abbrev pub Values {ℓ} : {V : Type ℓ} → (V → Type 0) → GoMap V → Type 0
Values P [] = Unit
Values P ((k, v) ∷ m) = P v × Values P m

module _ {ℓ} {V : Type ℓ} (P : V → Type 0) where
  pub Values-insert :
      (k : String) (v : V) (m : GoMap V) → P v → Values P m → Values P (insert k v m)
  unfolding insert
  Values-insert k v [] h hs = (h, tt)
  Values-insert k v ((j, w) ∷ m) h (hw, hs) = elim (Bool-cases (str_eq j k)) [
    | inl same ↦
        subst (λ b. Values P (if b then (j, v) ∷ m else (j, w) ∷ insert k v m)) (sym same) (h, hs)
    | inr differ ↦
        subst (λ b. Values P (if b then (j, v) ∷ m else (j, w) ∷ insert k v m)) (sym differ)
          (hw, Values-insert k v m h hs)
  ]

  pub Values-swapped :
      (before : GoMap V) (x y : String × V) (after : GoMap V)
      → Values P (before ++ x ∷ y ∷ after)
      → Values P (before ++ y ∷ x ∷ after)
  Values-swapped [] (j, v) (k, w) after (hv, (hw, hs)) = (hw, (hv, hs))
  Values-swapped ((i, u) ∷ before) x y after (hu, hs) = (hu, Values-swapped before x y after hs)

  pub Values-lookup : (k : String) (v : V) (m : GoMap V) → Values P m → lookup k m ≡ some v → P v
  unfolding lookup
  Values-lookup k v [] hs e = absurd (cc e)
  Values-lookup k v ((j, w) ∷ m) (hw, hs) e = elim (Bool-cases (str_eq j k)) [
    | inl same ↦ let found : w ≡ v = cc (rw same at e) in subst P found hw
    | inr differ ↦ Values-lookup k v m hs (rw differ at e)
  ]

IsNumbered-append :
    (k : ℕ) (ps : List EventPage) (p : EventPage)
    → IsNumbered k ps
    → p.header ≡ some (sequence_header (u32 (k + length ps)))
    → IsNumbered k (ps ++ p ∷ [])
IsNumbered-append k [] p h e = (e ∙ ap (λ n. some (sequence_header (u32 n))) (omega arith), tt)
IsNumbered-append k (q ∷ ps) p (hq, hs) e = (
  hq,
  IsNumbered-append (k + 1) ps p hs (e ∙ ap (λ n. some (sequence_header (u32 n))) (omega arith)),
)

-- A fact with the stream's next number keeps it a stream.
pub IsStream-inject :
    (events : List EventPage) (sequence : ℕ) (type_name : String)
    → IsStream events sequence
    → IsStream (events ++ fact_page sequence type_name ∷ []) (u32 (sequence + 1))
IsStream-inject events sequence type_name h = record {
  numbered =
      IsNumbered-append 1 events (fact_page sequence type_name) h.numbered
        (ap (λ n. some (sequence_header n)) (h.next ∙ ap u32 (omega arith)));
  next =
      let longer = length-append events (fact_page sequence type_name ∷ []) in
      omega (arith, h.next, longer);
}

pub made_events-IsNumbered : (n i : ℕ) → IsNumbered (i + 1) (made_events n i)
unfolding made_events
made_events-IsNumbered zero i = tt
made_events-IsNumbered (suc n) i = (refl, made_events-IsNumbered n (i + 1))

pub length-made_events : (n i : ℕ) → length (made_events n i) ≡ n
unfolding made_events
length-made_events zero i = refl
length-made_events (suc n) i = ap suc (length-made_events n (i + 1))
