-- ===== src/Generator.antt =====
-- cmd/angzarr-gen/main.go: the tool that writes a router's constructor from the comments on a type's
-- methods. Flags, the directory's files, formatting and writing are those of Go and are parameters.
pub mod Patterns
pub mod Source
pub mod Templates
use angzarr_client_go.Prelude.{
  String, ◌⧺◌, Option, none, some, Bool, true, false, List, [], ◌∷◌, str_eq, if◌then◌else◌,
}
use angzarr_client_go.Errors.{Error, Result, ok, err, plain, wrapped, ◌>>=◌}
use angzarr_client_go.Os.{or_default}
use angzarr_client_go.Generator.Source.{TypeInfo, File, parse_type}
use angzarr_client_go.Generator.Templates.{
  each, aggregate_template, saga_template, pm_template, projector_template,
}

-- The flags of `main`.
pub record Flags : Type 0 where
  pub type_name : String
  pub domain : String
  pub state_type : String
  pub output : String

-- `ComponentType`.
pub data Component : Type 0 where
  aggregate saga process_manager projector : Component
  other : String → Component

-- `ComponentType(os.Args[1])`.
abbrev component_of : String → Component
component_of name =
    if str_eq name "aggregate"
    then aggregate
    else if str_eq name "saga"
    then saga
    else if str_eq name "pm"
    then process_manager
    else if str_eq name "projector"
    then projector
    else other name

abbrev formatted : Option String → String → String
formatted none code = code
formatted (some better) code = better

-- `generate`; `format` is `format.Source`, whose error leaves the code as it is.
unfoldable pub generate : (format : String → Option String) → TypeInfo → Component → Result String
unfolding each
generate format info aggregate =
    ok (formatted (format (aggregate_template info)) (aggregate_template info))
generate format info saga = ok (formatted (format (saga_template info)) (saga_template info))
generate format info process_manager = ok (formatted (format (pm_template info)) (pm_template info))
generate format info projector =
    ok (formatted (format (projector_template info)) (projector_template info))
generate format info (other name) = err (plain ("unknown component type: " ⧺ name))

-- The flags that replace what was parsed.
abbrev with_flags : Flags → TypeInfo → TypeInfo
with_flags flags info = record info {
  domain = or_default flags.domain info.domain;
  state_type = or_default flags.state_type info.state_type;
}

-- The output file and the code that `main` writes; its error is the message before `os.Exit(1)`.
module _ (to_lower : String → String) (format : String → Option String)
    (parse_flags : List String → Result Flags)
    (parse_dir : Result (List (String × List File))) where
  abbrev pub written : Flags → Result String → Result (String × String)
  written flags (err e) = err (wrapped "Error generating code: " e)
  written flags (ok code) =
      ok (or_default flags.output (to_lower flags.type_name ⧺ "_gen.go"), code)

  abbrev pub generated : Flags → Component → Result TypeInfo → Result (String × String)
  generated flags component (err e) = err (wrapped "Error parsing type: " e)
  generated flags component (ok info) =
      written flags (generate format (with_flags flags info) component)

  abbrev run_flags : Component → Result Flags → Result (String × String)
  run_flags component (err e) = err (wrapped "Error parsing flags: " e)
  run_flags component (ok flags) =
      if str_eq flags.type_name ""
      then err (plain "Error: --type is required")
      else generated flags component (parse_type to_lower parse_dir flags.type_name)

  -- `main`, on its arguments behind the program's name.
  unfoldable pub main : List String → Result (String × String)
  unfolding generate parse_type
  main [] = err (plain "Usage: angzarr-gen <component> [flags]")
  main (name ∷ arguments) = run_flags (component_of name) (parse_flags arguments)
