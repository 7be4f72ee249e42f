-- ===== src/Generator/Patterns/RoundTrip.antt =====
-- Markers that are written as cmd/angzarr-gen/main.go documents them are found by its patterns.
use Prim.Native.Char.{Char, code}
use mathlib.Core.Path.{subst}
use text.Mathlib.TextLemmas.{cons-append, nil-append}
use angzarr_client_go.Prelude.{
  String, ◌⧺◌, Option, none, some, true, false, ◌≡◌, ◌≢◌, refl, sym, ap, ◌∙◌, arith, str_eq, eq_iff,
  Lacks, Bool-cases, inl, inr, or_else,
}
use angzarr_client_go.Generator.Patterns.{
  is_word, is_space, after_literal, drop_spaces, after_spaces, split_word, word_at, ◌>>=◌,
  find_from, marked_at, marked, handler_pattern, field_at, rejected_at, rejected_pattern,
}

-- Every character is a letter, a digit or `_`.
abbrev pub AllWord : String → Type 0
AllWord String.[] = Unit
AllWord (String.◌∷◌ c s) = (is_word c ≡ true) × AllWord s

-- A word: not empty, and of word characters.
pub record IsWord (s : String) : Type 0 where
  pub not_empty : s ≢ ""
  pub all_word : AllWord s

-- A text that does not go on with a word character.
abbrev pub EndsWord : String → Type 0
EndsWord String.[] = Unit
EndsWord (String.◌∷◌ c s) = is_word c ≡ false

after_literal-append : (p s : String) → after_literal p (p ⧺ s) ≡ some s
unfolding after_literal
after_literal-append String.[] s = ap some (nil-append s)
after_literal-append (String.◌∷◌ d p) s = rw cons-append (ground (arith, after_literal-append p s))

split_word_end : (s : String) → EndsWord s → split_word s ≡ (String.[], s)
unfolding split_word
split_word_end String.[] h = refl
split_word_end (String.◌∷◌ c s) h = rw h refl

split_word-append : (w s : String) → AllWord w → EndsWord s → split_word (w ⧺ s) ≡ (w, s)
unfolding split_word
split_word-append String.[] s h e = rw nil-append (split_word_end s e)
split_word-append (String.◌∷◌ c w) s (hc, hw) e =
    rw (cons-append, hc, split_word-append w s hw e) refl

word_at-append : (w s : String) → IsWord w → EndsWord s → word_at (w ⧺ s) ≡ some (w, s)
word_at-append w s h e =
    let filled : str_eq w "" ≡ false = filled_of w h.not_empty in
    rw (split_word-append w s h.all_word e, filled) refl
  where
    filled_of : (t : String) → t ≢ "" → str_eq t "" ≡ false
    filled_of t h = elim (Bool-cases (str_eq t "")) [
      | inl same ↦ absurd (h ((eq_iff t "").0 same))
      | inr differ ↦ differ
    ]

drop_spaces-word : (w s : String) → IsWord w → drop_spaces (w ⧺ s) ≡ w ⧺ s
unfolding drop_spaces
drop_spaces-word String.[] s h = absurd (h.not_empty refl)
drop_spaces-word (String.◌∷◌ c w) s h =
    let (hc, _) = h.all_word in rw cons-append (ground (arith, hc))

-- One space, and a text that starts with none.
spaced :
    (c : Char) (t : String)
    → is_space c ≡ false
    → (s : String) → s ≡ String.◌∷◌ c t
    → after_spaces (" " ⧺ s) ≡ some s
unfolding drop_spaces
spaced c t hc s same =
    let split : " " ⧺ s ≡ String.◌∷◌ " " s =
      cons-append " " "" s ∙ ap (String.◌∷◌ " ") (nil-append s) in
    let kept : drop_spaces s ≡ s = ap drop_spaces same ∙ rw hc (sym same) in
    ap after_spaces split ∙ ap some kept

-- One space and a word.
spaced-word : (w s : String) → IsWord w → after_spaces (" " ⧺ w ⧺ s) ≡ some (w ⧺ s)
spaced-word w s h =
    let split : " " ⧺ w ⧺ s ≡ String.◌∷◌ " " (w ⧺ s) =
      cons-append " " "" (w ⧺ s) ∙ ap (String.◌∷◌ " ") (nil-append (w ⧺ s)) in
    ap after_spaces split ∙ ap some (drop_spaces-word w s h)

-- A marker, a space and a word.
marked_at-append :
    (keyword w s : String)
    → IsWord w
    → EndsWord s
    → marked_at keyword (keyword ⧺ " " ⧺ w ⧺ s) ≡ some (w, s)
marked_at-append keyword w s h e =
    ap (λ o. o >>= λ spaces. after_spaces spaces >>= λ word. word_at word)
      (after_literal-append keyword (" " ⧺ w ⧺ s))
    ∙ ap (λ o. o >>= λ word. word_at word) (spaced-word w s h)
    ∙ word_at-append w s h e

find_from_hit :
    {A : Type 0} (at : String → Option A) (s : String) (a : A)
    → at s ≡ some a
    → find_from at s ≡ some a
unfolding find_from
find_from_hit at String.[] a h = h
find_from_hit at (String.◌∷◌ c s) a h = ap (λ o. or_else o (find_from at s)) h

-- What a pattern that starts with `@` finds is not before the first `@`.
find_from-Lacks :
    {A : Type 0} (at : String → Option A) (p s : String)
    → ((c : Char) (t : String) → code c ≢ b'@' → at (String.◌∷◌ c t) ≡ none)
    → Lacks b'@' p
    → find_from at (p ⧺ s) ≡ find_from at s
unfolding find_from
find_from-Lacks at String.[] s miss h = ap (find_from at) (nil-append s)
find_from-Lacks at (String.◌∷◌ c p) s miss (hc, hp) = rw cons-append (
    ap (λ o. or_else o (find_from at (p ⧺ s))) (miss c (p ⧺ s) hc) ∙ find_from-Lacks at p s miss hp)

after_literal_miss :
    (k : String) (c : Char) (t : String)
    → code c ≢ b'@'
    → after_literal (String.◌∷◌ "@" k) (String.◌∷◌ c t) ≡ none
unfolding after_literal
after_literal_miss k c t h = ground (arith, h)

-- `handlerPattern` on a comment of a word that it marks.
marked-append :
    (k before w after : String)
    → Lacks b'@' before
    → IsWord w
    → EndsWord after
    → marked (String.◌∷◌ "@" k) (before ⧺ String.◌∷◌ "@" k ⧺ " " ⧺ w ⧺ after) ≡ some w
unfolding marked
marked-append k before w after free h e =
    let at : String → Option (String × String) = marked_at (String.◌∷◌ "@" k) in
    ap (λ o. o >>= λ found. some found.0)
      (find_from-Lacks at before (String.◌∷◌ "@" k ⧺ " " ⧺ w ⧺ after)
          (λ c t miss.
            ap (λ o. o >>= λ spaces. after_spaces spaces >>= λ word. word_at word)
              (after_literal_miss k c t miss))
          free
        ∙ find_from_hit at (String.◌∷◌ "@" k ⧺ " " ⧺ w ⧺ after) (w, after)
            (marked_at-append (String.◌∷◌ "@" k) w after h e))

-- A comment that holds `@handler`, a space and a word, with no `@` before them and no word character
-- behind them, is found to mark a handler of that command.
handler_pattern-append :
    (before w after : String)
    → Lacks b'@' before
    → IsWord w
    → EndsWord after
    → handler_pattern (before ⧺ "@handler" ⧺ " " ⧺ w ⧺ after) ≡ some w
handler_pattern-append = marked-append "handler"

-- ` keyword=word`, where the keyword starts with no space.
field_at-append :
    (c : Char) (k w s : String)
    → is_space c ≡ false
    → IsWord w
    → EndsWord s
    → field_at (String.◌∷◌ c k) (" " ⧺ String.◌∷◌ c k ⧺ w ⧺ s) ≡ some (w, s)
field_at-append c k w s hc h e =
    ap (λ o. o >>= λ field. after_literal (String.◌∷◌ c k) field >>= λ word. word_at word)
      (spaced c (k ⧺ w ⧺ s) hc (String.◌∷◌ c k ⧺ w ⧺ s) (cons-append c k (w ⧺ s)))
    ∙ ap (λ o. o >>= λ word. word_at word) (after_literal-append (String.◌∷◌ c k) (w ⧺ s))
    ∙ word_at-append w s h e

ends_of_space : (s : String) → EndsWord (" " ⧺ s)
ends_of_space s = subst EndsWord (sym (cons-append " " "" s)) refl

-- A comment that holds `@rejected domain=X command=Y`, with no `@` before it and no word character
-- behind it, is found to mark the compensation of the command Y of the domain X.
pub rejected_pattern-append :
    (before domain command after : String)
    → Lacks b'@' before
    → IsWord domain
    → IsWord command
    → EndsWord after
    → rejected_pattern
        (before ⧺ "@rejected" ⧺ " " ⧺ "domain=" ⧺ domain ⧺ " " ⧺ "command=" ⧺ command ⧺ after)
      ≡ some (domain, command)
unfolding rejected_pattern
rejected_pattern-append before domain command after free hd hc e =
    find_from-Lacks rejected_at before ("@rejected" ⧺ rest)
      (λ c t miss.
        ap
          (λ o. o >>= λ fields.
            field_at "domain=" fields >>= λ d. field_at "command=" d.1 >>= λ k. some (d.0, k.0))
          (after_literal_miss "rejected" c t miss))
      free
    ∙ find_from_hit rejected_at ("@rejected" ⧺ rest) (domain, command) found
  where
    last : String
    last = " " ⧺ "command=" ⧺ command ⧺ after

    rest : String
    rest = " " ⧺ "domain=" ⧺ domain ⧺ last

    found : rejected_at ("@rejected" ⧺ rest) ≡ some (domain, command)
    found =
        ap
          (λ o. o >>= λ fields.
            field_at "domain=" fields >>= λ d. field_at "command=" d.1 >>= λ k. some (d.0, k.0))
          (after_literal-append "@rejected" rest)
        ∙ ap (λ o. o >>= λ d. field_at "command=" d.1 >>= λ k. some (d.0, k.0))
            (field_at-append "d" "omain=" domain last refl hd (ends_of_space _))
        ∙ ap (λ o. o >>= λ k. some (domain, k.0))
            (field_at-append "c" "ommand=" command after refl hc e)
