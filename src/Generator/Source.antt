-- ===== src/Generator/Source.antt =====
-- What cmd/angzarr-gen/main.go reads of a package: `parseFile`, `getReceiverType`, and the domain
-- that `parseType` derives. A Go file is given as its declarations in the form that `go/parser` makes,
-- with what the code reads of them.
pub mod Collected
pub mod Domains
use Prim.Native.String
use angzarr_client_go.Prelude.{
  String, Option, none, some, Bool, true, false, List, [], ◌∷◌, ◌++◌, str_eq, if◌then◌else◌, GoMap,
  lookup, insert,
}
use angzarr_client_go.Errors.{Error, Result, ok, err, wrapped}
use angzarr_client_go.Generator.Patterns.{
  handler_pattern, reacts_pattern, prepares_pattern, rejected_pattern, projects_pattern,
}

-- The type of a receiver: `*ast.StarExpr` on an identifier or on something else, `*ast.Ident`, or
-- another expression.
pub data TypeExpr : Type 0 where
  star_ident : String → TypeExpr
  star_other : TypeExpr
  ident : String → TypeExpr
  other_expr : TypeExpr

-- `*ast.FuncDecl`: its name, its receivers and the comments of its doc.
pub record FuncDecl : Type 0 where
  pub name : String
  pub recv : Option (List TypeExpr)
  pub doc : Option (List String)

pub data Decl : Type 0 where
  func_decl : FuncDecl → Decl
  other_decl : Decl

abbrev pub File : Type 0
File = List Decl

-- `HandlerInfo`.
pub record HandlerInfo : Type 0 where
  pub method_name : String
  pub command_type : String
  pub event_type : String
  pub domain : String
  pub command : String
  pub is_prepare : Bool
  pub is_rejected : Bool

abbrev empty_handler_info : String → HandlerInfo
empty_handler_info method_name = record {
  method_name = method_name;
  command_type = "";
  event_type = "";
  domain = "";
  command = "";
  is_prepare = false;
  is_rejected = false;
}

-- `TypeInfo`.
pub record TypeInfo : Type 0 where
  pub type_name : String
  pub package_name : String
  pub state_type : String
  pub domain : String
  pub handlers : List HandlerInfo
  pub input_domains : GoMap (List String)

-- `info.Handlers = append(info.Handlers, h)`.
abbrev pub add_handler : TypeInfo → HandlerInfo → TypeInfo
add_handler info h = record info { handlers = info.handlers ++ h ∷ [] }

abbrev types_or_empty : Option (List String) → List String
types_or_empty none = []
types_or_empty (some types) = types

-- `info.InputDomains[domain] = append(info.InputDomains[domain], eventType)`.
abbrev pub add_input : TypeInfo → (domain event_type : String) → TypeInfo
add_input info domain event_type = if str_eq domain "" then info else record info {
  input_domains =
      insert domain (types_or_empty (lookup domain info.input_domains) ++ event_type ∷ [])
        info.input_domains;
}

-- The five blocks of the loop over a method's comments, on what their pattern found.
abbrev pub add_command : String → TypeInfo → Option String → TypeInfo
add_command name info none = info
add_command name info (some command_type) =
    add_handler info (record (empty_handler_info name) { command_type = command_type })

abbrev pub add_reaction : String → TypeInfo → Option (String × String) → TypeInfo
add_reaction name info none = info
add_reaction name info (some (event_type, domain)) =
    add_handler (add_input info domain event_type)
      (record (empty_handler_info name) { event_type = event_type; domain = domain })

abbrev pub add_prepare : String → TypeInfo → Option String → TypeInfo
add_prepare name info none = info
add_prepare name info (some event_type) =
    add_handler info
      (record (empty_handler_info name) { event_type = event_type; is_prepare = true })

abbrev pub add_rejected : String → TypeInfo → Option (String × String) → TypeInfo
add_rejected name info none = info
add_rejected name info (some (domain, command)) =
    add_handler info
      (record (empty_handler_info name) { domain = domain; command = command; is_rejected = true })

abbrev pub add_projection : String → TypeInfo → Option String → TypeInfo
add_projection name info none = info
add_projection name info (some event_type) =
    add_handler info (record (empty_handler_info name) { event_type = event_type })

-- The body of the loop.
unfoldable pub parse_comment : String → TypeInfo → String → TypeInfo
unfolding insert lookup
parse_comment name info text =
    let commands = add_command name info (handler_pattern text) in
    let reactions = add_reaction name commands (reacts_pattern text) in
    let prepared = add_prepare name reactions (prepares_pattern text) in
    let rejections = add_rejected name prepared (rejected_pattern text) in
    add_projection name rejections (projects_pattern text)

unfoldable pub parse_comments : String → TypeInfo → List String → TypeInfo
unfolding parse_comment
parse_comments name info [] = info
parse_comments name info (text ∷ texts) = parse_comments name (parse_comment name info text) texts

-- `getReceiverType`.
abbrev pub get_receiver_type : List TypeExpr → String
get_receiver_type [] = ""
get_receiver_type (star_ident name ∷ _) = name
get_receiver_type (star_other ∷ _) = ""
get_receiver_type (ident name ∷ _) = name
get_receiver_type (other_expr ∷ _) = ""

abbrev pub parse_doc : String → TypeInfo → Option (List String) → TypeInfo
parse_doc name info none = info
parse_doc name info (some texts) = parse_comments name info texts

abbrev pub parse_method : FuncDecl → TypeInfo → Option (List TypeExpr) → TypeInfo
parse_method fn info none = info
parse_method fn info (some recv) =
    if str_eq (get_receiver_type recv) info.type_name then parse_doc fn.name info fn.doc else info

abbrev pub parse_decl : TypeInfo → Decl → TypeInfo
parse_decl info other_decl = info
parse_decl info (func_decl fn) = parse_method fn info fn.recv

-- `parseFile`, which returns no error.
unfoldable pub parse_file : TypeInfo → File → TypeInfo
unfolding parse_comments
parse_file info [] = info
parse_file info (decl ∷ decls) = parse_file (parse_decl info decl) decls

-- `strings.TrimSuffix`.
unfoldable pub trim_suffix : (name suffix : String) → String
trim_suffix String.[] suffix = String.[]
trim_suffix (String.◌∷◌ c s) suffix =
    let rest = trim_suffix s suffix in
    if str_eq (String.◌∷◌ c s) suffix then String.[] else String.◌∷◌ c rest

-- The loop over the suffixes.
unfoldable pub trim_suffixes : String → List String → String
unfolding trim_suffix
trim_suffixes name [] = name
trim_suffixes name (suffix ∷ suffixes) = trim_suffixes (trim_suffix name suffix) suffixes

abbrev pub common_suffixes : List String
common_suffixes = "Aggregate" ∷ "Saga" ∷ "PM" ∷ "ProcessManager" ∷ "Projector" ∷ []

unfoldable parse_files : TypeInfo → List File → TypeInfo
unfolding parse_file
parse_files info [] = info
parse_files info (file ∷ files) = parse_files (parse_file info file) files

unfoldable parse_packages : TypeInfo → List (String × List File) → TypeInfo
unfolding parse_files
parse_packages info [] = info
parse_packages info ((name, files) ∷ packages) =
    parse_packages (parse_files (record info { package_name = name }) files) packages

-- The domain that is derived from the type's name where none is set; `to_lower` is
-- `strings.ToLower`.
abbrev pub derive_domain : (to_lower : String → String) → String → TypeInfo → TypeInfo
derive_domain to_lower type_name info =
    if str_eq info.domain ""
    then record info { domain = to_lower (trim_suffixes type_name common_suffixes) }
    else info

abbrev pub new_type_info : String → TypeInfo
new_type_info type_name = record {
  type_name = type_name;
  package_name = "";
  state_type = "";
  domain = "";
  handlers = [];
  input_domains = [];
}

-- `parseType`, on the packages that `parser.ParseDir` gives.
unfoldable pub parse_type :
    (to_lower : String → String) → Result (List (String × List File)) → String → Result TypeInfo
unfolding parse_packages trim_suffixes
parse_type to_lower (err e) type_name = err (wrapped "parsing directory: " e)
parse_type to_lower (ok packages) type_name =
    ok (derive_domain to_lower type_name (parse_packages (new_type_info type_name) packages))
