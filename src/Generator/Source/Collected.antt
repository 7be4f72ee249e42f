-- ===== src/Generator/Source/Collected.antt =====
-- What cmd/angzarr-gen/main.go collects of a package.
use angzarr_client_go.Prelude.{
  String, Option, none, some, Bool, true, false, List, [], ◌∷◌, ◌&&◌, ◌≡◌, refl, sym, ap, ◌∙◌,
  arith, str_eq, if◌then◌else◌, Bool-cases, inl, inr,
}
use angzarr_client_go.Generator.Patterns.{
  handler_pattern, reacts_pattern, prepares_pattern, rejected_pattern, projects_pattern,
}
use angzarr_client_go.Generator.Source.{
  TypeExpr, FuncDecl, Decl, func_decl, other_decl, File, TypeInfo, add_command, add_reaction,
  add_prepare, add_rejected, add_projection, add_input, parse_comment, parse_comments,
  get_receiver_type, parse_doc, parse_method, parse_decl, parse_file,
}

-- The type that is looked for stays the same.
add_input-type : (info : TypeInfo) (d e : String) → (add_input info d e).type_name ≡ info.type_name
add_input-type info d e = ground arith

module _ (name : String) (info : TypeInfo) where
  add_command-type : (o : Option String) → (add_command name info o).type_name ≡ info.type_name
  add_command-type none = refl
  add_command-type (some c) = refl

  add_reaction-type :
      (o : Option (String × String)) → (add_reaction name info o).type_name ≡ info.type_name
  add_reaction-type none = refl
  add_reaction-type (some (event, domain)) = add_input-type info domain event

  add_prepare-type : (o : Option String) → (add_prepare name info o).type_name ≡ info.type_name
  add_prepare-type none = refl
  add_prepare-type (some e) = refl

  add_rejected-type :
      (o : Option (String × String)) → (add_rejected name info o).type_name ≡ info.type_name
  add_rejected-type none = refl
  add_rejected-type (some (d, c)) = refl

  add_projection-type :
      (o : Option String) → (add_projection name info o).type_name ≡ info.type_name
  add_projection-type none = refl
  add_projection-type (some e) = refl

parse_comment-type :
    (name : String) (info : TypeInfo) (text : String)
    → (parse_comment name info text).type_name ≡ info.type_name
unfolding parse_comment
parse_comment-type name info text =
    let commands = add_command name info (handler_pattern text) in
    let reactions = add_reaction name commands (reacts_pattern text) in
    let prepared = add_prepare name reactions (prepares_pattern text) in
    let rejections = add_rejected name prepared (rejected_pattern text) in
    add_projection-type name rejections (projects_pattern text)
    ∙ add_rejected-type name prepared (rejected_pattern text)
    ∙ add_prepare-type name reactions (prepares_pattern text)
    ∙ add_reaction-type name commands (reacts_pattern text)
    ∙ add_command-type name info (handler_pattern text)

parse_comments-type :
    (name : String) (info : TypeInfo) (texts : List String)
    → (parse_comments name info texts).type_name ≡ info.type_name
unfolding parse_comments
parse_comments-type name info [] = refl
parse_comments-type name info (text ∷ texts) =
    parse_comments-type name (parse_comment name info text) texts
    ∙ parse_comment-type name info text

-- A declaration is a documented method of the type.
abbrev is_method_of : String → Option (List TypeExpr) → Bool
is_method_of type_name none = false
is_method_of type_name (some recv) = str_eq (get_receiver_type recv) type_name

abbrev is_documented : Option (List String) → Bool
is_documented none = false
is_documented (some texts) = true

abbrev concerns : String → Decl → Bool
concerns type_name other_decl = false
concerns type_name (func_decl fn) = is_method_of type_name fn.recv && is_documented fn.doc

parse_doc-type :
    (name : String) (info : TypeInfo) (doc : Option (List String))
    → (parse_doc name info doc).type_name ≡ info.type_name
parse_doc-type name info none = refl
parse_doc-type name info (some texts) = parse_comments-type name info texts

parse_method-type :
    (fn : FuncDecl) (info : TypeInfo) (recv : Option (List TypeExpr))
    → (parse_method fn info recv).type_name ≡ info.type_name
parse_method-type fn info none = refl
parse_method-type fn info (some recv) = go (str_eq (get_receiver_type recv) info.type_name)
  where
    go : (b : Bool) → (if b then parse_doc fn.name info fn.doc else info).type_name ≡ info.type_name
    go true = parse_doc-type fn.name info fn.doc
    go false = refl

parse_decl-type :
    (info : TypeInfo) (decl : Decl) → (parse_decl info decl).type_name ≡ info.type_name
parse_decl-type info other_decl = refl
parse_decl-type info (func_decl fn) = parse_method-type fn info fn.recv

parse_doc_undocumented :
    (name : String) (info : TypeInfo) (doc : Option (List String))
    → is_documented doc ≡ false
    → parse_doc name info doc ≡ info
parse_doc_undocumented name info none h = refl
parse_doc_undocumented name info (some texts) h = absurd (cc h)

parse_method_unconcerned :
    (fn : FuncDecl) (info : TypeInfo) (recv : Option (List TypeExpr))
    → (is_method_of info.type_name recv && is_documented fn.doc) ≡ false
    → parse_method fn info recv ≡ info
parse_method_unconcerned fn info none h = refl
parse_method_unconcerned fn info (some recv) h =
    go (str_eq (get_receiver_type recv) info.type_name) h
  where
    go :
        (b : Bool)
        → (b && is_documented fn.doc) ≡ false
        → (if b then parse_doc fn.name info fn.doc else info) ≡ info
    go true h = parse_doc_undocumented fn.name info fn.doc h
    go false h = refl

parse_decl_unconcerned :
    (info : TypeInfo) (decl : Decl)
    → concerns info.type_name decl ≡ false
    → parse_decl info decl ≡ info
parse_decl_unconcerned info other_decl h = refl
parse_decl_unconcerned info (func_decl fn) h = parse_method_unconcerned fn info fn.recv h

-- The declarations that are documented methods of the type.
abbrev pub only : String → File → File
only type_name [] = []
only type_name (decl ∷ decls) =
    let rest = only type_name decls in if concerns type_name decl then decl ∷ rest else rest

-- What a file adds to the information on a type is what its documented methods of that type add:
-- functions, methods of other types, undocumented methods and other declarations have no effect.
pub parse_file-only :
    (type_name : String) (info : TypeInfo) (file : File)
    → info.type_name ≡ type_name
    → parse_file info file ≡ parse_file info (only type_name file)
unfolding parse_file
parse_file-only type_name info [] h = refl
parse_file-only type_name info (decl ∷ decls) h = elim (Bool-cases (concerns type_name decl)) [
  | inl concerned ↦
      parse_file-only type_name (parse_decl info decl) decls (parse_decl-type info decl ∙ h)
      ∙ ap (λ b. parse_file info (if b then decl ∷ only type_name decls else only type_name decls))
          (sym concerned)
  | inr other ↦
      let skipped : parse_decl info decl ≡ info =
        parse_decl_unconcerned info decl (ap (λ t. concerns t decl) h ∙ other) in
      ap (λ i. parse_file i decls) skipped
      ∙ parse_file-only type_name info decls h
      ∙ ap (λ b. parse_file info (if b then decl ∷ only type_name decls else only type_name decls))
          (sym other)
]
