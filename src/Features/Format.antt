-- ===== src/Features/Format.antt =====
-- What the steps use of Go's `fmt` and `strings`.
use angzarr_client_go.Prelude.{ℕ, String, Option, some, Bool, ◌||◌, has_prefix}
use angzarr_client_go.Errors.{Error, plain}

pub record Format : Type 0 where
  -- `%d`.
  pub decimal : ℕ → String
  -- `%q`.
  pub quoted : String → String
  -- `%v` of an error, and its `Error()`.
  pub shown : Error → String

-- `return fmt.Errorf(…)`.
abbrev pub errorf : String → Option Error
errorf message = some (plain message)

-- `strings.Contains`.
unfoldable pub contains : String → String → Bool
unfolding has_prefix
contains String.[] part = has_prefix String.[] part
contains (String.◌∷◌ c s) part = has_prefix (String.◌∷◌ c s) part || contains s part
