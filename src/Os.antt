-- ===== src/Os.antt =====
-- What the sources use of Go's `os`: the environment, and the files that exist, by their paths.
use angzarr_client_go.Prelude.{
  String, Option, none, some, Bool, true, false, List, [], ◌∷◌, str_eq, if◌then◌else◌, GoMap,
  lookup, insert, ◌≡◌, ◌≢◌, refl, ap, ◌∙◌, arith, lookup-insert, lookup-insert_ne, eq_refl,
}

abbrev pub Environment : Type 0
Environment = GoMap String

-- `os.Getenv`: a variable that is not set reads as the empty text.
abbrev text_or_empty : Option String → String
text_or_empty none = ""
text_or_empty (some value) = value

abbrev pub getenv : Environment → String → String
getenv environment name = text_or_empty (lookup name environment)

-- `v := os.Getenv(name); if v == "" { v = fallback }`.
abbrev pub or_default : String → String → String
or_default value fallback = if str_eq value "" then fallback else value

pub record Os : Type 0 where
  pub environment : Environment
  pub files : List String

-- `os.Setenv`.
abbrev pub setenv : String → String → Os → Os
setenv name value os = record os { environment = insert name value os.environment }

abbrev pub without : String → List String → List String
without path [] = []
without path (file ∷ files) =
    let rest = without path files in if str_eq file path then rest else file ∷ rest

-- `os.Remove`, with its error ignored.
abbrev pub remove : String → Os → Os
remove path os = record os { files = without path os.files }

abbrev pub exists : String → List String → Bool
exists path [] = false
exists path (file ∷ files) =
    let later = exists path files in if str_eq file path then true else later

pub exists-without :
    (path : String) (files : List String) → exists path (without path files) ≡ false
exists-without path [] = refl
exists-without path (file ∷ files) = ground (arith, exists-without path files)

pub without-without :
    (path : String) (files : List String) → without path (without path files) ≡ without path files
without-without path [] = refl
without-without path (file ∷ files) = ground (arith, without-without path files)

-- A variable is read as it was before another one was set.
pub getenv-setenv_ne :
    (name other value : String) (os : Os)
    → name ≢ other
    → getenv (setenv name value os).environment other ≡ getenv os.environment other
getenv-setenv_ne name other value os h =
    ap text_or_empty (lookup-insert_ne name other value os.environment h)

pub getenv-setenv :
    (name value : String) (os : Os) → getenv (setenv name value os).environment name ≡ value
getenv-setenv name value os =
    ap text_or_empty (lookup-insert name name value os.environment) ∙ rw (eq_refl name) refl
