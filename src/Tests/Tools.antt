-- ===== src/Tests/Tools.antt =====
-- The generator on small sources.
use angzarr_client_go.Prelude.{String, ◌⧺◌, some, [], ◌∷◌, ◌≡◌, refl}
use angzarr_client_go.Generator.Patterns.{rejected_pattern}
use angzarr_client_go.Generator.Patterns.RoundTrip.{IsWord, rejected_pattern-append}
use angzarr_client_go.Generator.Source.{
  File, TypeInfo, func_decl, other_decl, star_ident, new_type_info, parse_file,
}
use angzarr_client_go.Generator.Source.Collected.{only, parse_file-only}

abbrev payment : String
payment = "payment"

abbrev pay : String
pay = "ProcessPayment"

payment-IsWord : IsWord payment
payment-IsWord = record {
  not_empty = λ e. cc e;
  all_word = (refl, (refl, (refl, (refl, (refl, (refl, (refl, tt)))))));
}

pay-IsWord : IsWord pay
pay-IsWord = record {
  not_empty = λ e. cc e;
  all_word = (
    refl,
    (
      refl,
      (
        refl,
        (refl, (refl, (refl, (refl, (refl, (refl, (refl, (refl, (refl, (refl, (refl, tt))))))))))),
      ),
    ),
  );
}

abbrev comment : String
comment = "// "

abbrev nothing : String
nothing = ""

rejected_pattern-append_example :
    rejected_pattern
      (comment ⧺ "@rejected" ⧺ " " ⧺ "domain=" ⧺ payment ⧺ " " ⧺ "command=" ⧺ pay ⧺ nothing)
    ≡ some (payment, pay)
rejected_pattern-append_example =
    rejected_pattern-append comment payment pay nothing
      ((λ e. absurd (cc e)), ((λ e. absurd (cc e)), ((λ e. absurd (cc e)), tt))) payment-IsWord
      pay-IsWord tt

-- A method of the type, a method of another type, and another declaration.
abbrev file : File
file =
    func_decl (record {
      name = "Register";
      recv = some (star_ident "PlayerAggregate" ∷ []);
      doc = some ("// @handler RegisterPlayer" ∷ []);
    })
    ∷ func_decl (record {
      name = "Sit";
      recv = some (star_ident "TableAggregate" ∷ []);
      doc = some ("// @handler Sit" ∷ []);
    })
    ∷ other_decl
    ∷ []

abbrev player : TypeInfo
player = new_type_info "PlayerAggregate"

parse_file-only_example : parse_file player file ≡ parse_file player (only "PlayerAggregate" file)
parse_file-only_example = parse_file-only "PlayerAggregate" player file refl
