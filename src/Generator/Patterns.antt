-- ===== src/Generator/Patterns.antt =====
-- The marker patterns of cmd/angzarr-gen/main.go: what `FindStringSubmatch` gives for its five regular
-- expressions. `\s` is a blank of ASCII and `\w` a letter, a digit or `_`; since no character is
-- both, a greedy run is never given back.
pub mod RoundTrip
use Prim.Native.Char.{Char, code}
use Prim.Native.String
use angzarr_client_go.Prelude.{
  ℕ, String, Option, none, some, Bool, true, false, ◌==◌, leb, ◌&&◌, ◌||◌, str_eq, if◌then◌else◌,
  or_else,
}

-- `\s`: tab, line feed, form feed, carriage return and space.
abbrev pub is_space : Char → Bool
is_space c = code c == 9 || code c == 10 || code c == 12 || code c == 13 || code c == 32

-- `\w`.
abbrev pub is_word : Char → Bool
is_word c =
    leb 48 (code c) && leb (code c) 57
    || leb 65 (code c) && leb (code c) 90
    || leb 97 (code c) && leb (code c) 122
    || code c == 95

-- What follows a literal.
unfoldable pub after_literal : (literal text : String) → Option String
after_literal String.[] text = some text
after_literal (String.◌∷◌ d p) String.[] = none
after_literal (String.◌∷◌ d p) (String.◌∷◌ c s) =
    let rest = after_literal p s in if code c == code d then rest else none

unfoldable pub drop_spaces : String → String
drop_spaces String.[] = String.[]
drop_spaces (String.◌∷◌ c s) =
    let rest = drop_spaces s in if is_space c then rest else String.◌∷◌ c s

-- `\s+`: what follows it.
abbrev pub after_spaces : String → Option String
after_spaces String.[] = none
after_spaces (String.◌∷◌ c s) = if is_space c then some (drop_spaces s) else none

-- The word at the start of a text, and what follows it.
unfoldable pub split_word : String → String × String
split_word String.[] = (String.[], String.[])
split_word (String.◌∷◌ c s) =
    let (word, rest) = split_word s in
    if is_word c then (String.◌∷◌ c word, rest) else (String.[], String.◌∷◌ c s)

-- `(\w+)`.
abbrev pub word_at : String → Option (String × String)
word_at s = if str_eq (split_word s).0 "" then none else some (split_word s)

infixl 5 ◌>>=◌
abbrev pub ◌>>=◌ {ℓ κ} : {A : Type ℓ} {B : Type κ} → Option A → (A → Option B) → Option B
none >>= f = none
some a >>= f = f a

-- The leftmost match.
unfoldable pub find_from {ℓ} : {A : Type ℓ} → (String → Option A) → String → Option A
find_from at String.[] = at String.[]
find_from at (String.◌∷◌ c s) = or_else (at (String.◌∷◌ c s)) (find_from at s)

-- `keyword\s+(\w+)` at the start of a text.
abbrev pub marked_at : (keyword text : String) → Option (String × String)
marked_at keyword text =
    after_literal keyword text >>= λ spaces. after_spaces spaces >>= λ word. word_at word

-- `keyword\s+(\w+)`, anywhere.
unfoldable pub marked : (keyword text : String) → Option String
unfolding find_from after_literal drop_spaces split_word
marked keyword text = find_from (marked_at keyword) text >>= λ found. some found.0

-- `handlerPattern`.
abbrev pub handler_pattern : String → Option String
handler_pattern = marked "@handler"

-- `preparesPattern`.
abbrev pub prepares_pattern : String → Option String
prepares_pattern = marked "@prepares"

-- `projectsPattern`.
abbrev pub projects_pattern : String → Option String
projects_pattern = marked "@projects"

-- `\s+keyword=(\w+)` at the start of a text.
abbrev pub field_at : (keyword text : String) → Option (String × String)
field_at keyword text =
    after_spaces text >>= λ field. after_literal keyword field >>= λ word. word_at word

-- `(?:\s+domain=(\w+))?`: the empty text where the group does not match.
abbrev pub domain_or_empty : Option (String × String) → String
domain_or_empty none = ""
domain_or_empty (some (domain, rest)) = domain

abbrev reacts_at : String → Option (String × String)
reacts_at text = marked_at "@reacts" text >>= λ event.
    some (event.0, domain_or_empty (field_at "domain=" event.1))

-- `reactsPattern`: the event type and the domain.
unfoldable pub reacts_pattern : String → Option (String × String)
unfolding find_from after_literal drop_spaces split_word
reacts_pattern = find_from reacts_at

abbrev pub rejected_at : String → Option (String × String)
rejected_at text = after_literal "@rejected" text >>= λ fields.
    field_at "domain=" fields >>= λ domain.
    field_at "command=" domain.1 >>= λ command. some (domain.0, command.0)

-- `rejectedPattern`: the domain and the command.
unfoldable pub rejected_pattern : String → Option (String × String)
unfolding find_from after_literal drop_spaces split_word
rejected_pattern = find_from rejected_at
