-- ===== src/Builder.antt =====
-- builder.go: `CommandBuilder` and `QueryBuilder`. The client that they hand their message to stands
-- beside them, in Execution. `mergeStrategy` is an enumeration's number. A method changes the builder
-- and returns it.
pub mod Commands
pub mod Execution
pub mod Queries
use angzarr_client_go.Prelude.{
  ℕ, String, ◌⧺◌, Option, none, some, Bool, true, false, List, [], ◌∷◌, str_eq, if◌then◌else◌,
}
use angzarr_client_go.Proto.{
  Bytes, Any, Timestamp, Cover, ProtoEdition, CommandPage, CommandBook, Query, Selection,
  SequenceRange, TemporalQuery, as_of_sequence, as_of_time, sequence_header,
}
use angzarr_client_go.Errors.{Error, Result, ok, err, invalid_argument_error}
use angzarr_client_go.Helpers.Uuid.{UuidLib, uuid_to_proto}
use angzarr_client_go.Helpers.Editions.{implicit_edition}

module _ (lib : UuidLib) where
  open lib use {Uuid}

  pub record CommandBuilder : Type 0 where
    pub domain : String
    pub root : Option Uuid
    pub correlation_id : String
    pub sequence : ℕ
    pub sequence_set : Bool
    pub merge_strategy : ℕ
    pub type_url : String
    pub payload : Option Bytes
    pub error : Option Error

  pub record QueryBuilder : Type 0 where
    pub domain : String
    pub root : Option Uuid
    pub correlation_id : String
    pub range_select : Option SequenceRange
    pub temporal : Option TemporalQuery
    pub edition : String
    pub error : Option Error

-- `if b.root != nil { cover.Root = UUIDToProto(*b.root) }`.
abbrev pub covered :
    (lib : UuidLib) → String → String → Option (UuidLib.Uuid lib) → Option ProtoEdition → Cover
covered lib domain correlation_id none edition = record {
  domain = domain;
  correlation_id = correlation_id;
  root = none;
  edition = edition;
}
covered lib domain correlation_id (some root) edition = record {
  domain = domain;
  correlation_id = correlation_id;
  root = some (uuid_to_proto lib root);
  edition = edition;
}

-- The selection that `Build` sets.
abbrev selection_of : Option SequenceRange → Option TemporalQuery → Selection
selection_of (some r) temporal = Selection.range r
selection_of none (some t) = Selection.temporal t
selection_of none none = Selection.unset

module _ {lib : UuidLib} where
  open lib use {Uuid, text}

  -- `NewCommandBuilder` and `NewCommandBuilderNew`, which has no root.
  abbrev pub new_command_builder : String → Option Uuid → CommandBuilder lib
  new_command_builder domain root = record {
    domain = domain;
    root = root;
    correlation_id = "";
    sequence = 0;
    sequence_set = false;
    merge_strategy = 0;
    type_url = "";
    payload = none;
    error = none;
  }

  -- `CommandBuilder.WithCorrelationID`.
  abbrev pub with_correlation_id : CommandBuilder lib → String → CommandBuilder lib
  with_correlation_id b id = record b { correlation_id = id }

  -- `WithSequence`.
  abbrev pub with_sequence : CommandBuilder lib → ℕ → CommandBuilder lib
  with_sequence b seq = record b { sequence = seq; sequence_set = true }

  -- `WithMergeStrategy`.
  abbrev pub with_merge_strategy : CommandBuilder lib → ℕ → CommandBuilder lib
  with_merge_strategy b strategy = record b { merge_strategy = strategy }

  -- `WithCommand`, on what `proto.Marshal` gives for the message: its bytes, which are nil for a nil
  -- message, or an error with the text `error_text`.
  abbrev pub with_command :
      (error_text : Error → String)
      → CommandBuilder lib
      → String
      → Result (Option Bytes)
      → CommandBuilder lib
  with_command error_text b type_url (err e) = record b {
    error = some (invalid_argument_error ("failed to marshal command: " ⧺ error_text e));
  }
  with_command error_text b type_url (ok payload) = record b {
    type_url = type_url;
    payload = payload;
  }

  abbrev pub command_book : CommandBuilder lib → String → Bytes → CommandBook
  command_book b correlation_id payload = record {
    cover = some (covered lib b.domain correlation_id b.root none);
    pages =
        record {
          header = some (sequence_header b.sequence);
          command = some (record { type_url = b.type_url; value = payload });
          merge_strategy = b.merge_strategy;
        }
        ∷ [];
  }

  abbrev build_payload : CommandBuilder lib → Uuid → Option Bytes → Result CommandBook
  build_payload b fresh none = err (invalid_argument_error "command payload not set")
  build_payload b fresh (some payload) =
      if b.sequence_set
      then ok (
          command_book b (if str_eq b.correlation_id "" then text fresh else b.correlation_id)
            payload)
      else err (invalid_argument_error "sequence not set (call WithSequence)")

  abbrev build_checked : CommandBuilder lib → Uuid → Option Error → Result CommandBook
  build_checked b fresh (some e) = err e
  build_checked b fresh none =
      if str_eq b.type_url ""
      then err (invalid_argument_error "command type_url not set")
      else build_payload b fresh b.payload

  -- `CommandBuilder.Build`; `fresh` is the result of `uuid.New()`.
  unfoldable pub build : CommandBuilder lib → (fresh : Uuid) → Result CommandBook
  build b fresh = build_checked b fresh b.error

  -- `NewQueryBuilder` and `NewQueryBuilderDomain`, which has no root.
  abbrev pub new_query_builder : String → Option Uuid → QueryBuilder lib
  new_query_builder domain root = record {
    domain = domain;
    root = root;
    correlation_id = "";
    range_select = none;
    temporal = none;
    edition = "";
    error = none;
  }

  -- `ByCorrelationID`.
  abbrev by_correlation_id : QueryBuilder lib → String → QueryBuilder lib
  by_correlation_id b id = record b { correlation_id = id; root = none }

  -- `WithEdition`.
  abbrev with_edition : QueryBuilder lib → String → QueryBuilder lib
  with_edition b edition = record b { edition = edition }

  -- `Range`.
  abbrev pub range : QueryBuilder lib → ℕ → QueryBuilder lib
  range b lower = record b { range_select = some (record { lower = lower; upper = none }) }

  -- `RangeTo`.
  abbrev pub range_to : QueryBuilder lib → (lower upper : ℕ) → QueryBuilder lib
  range_to b lower upper = record b {
    range_select = some (record { lower = lower; upper = some upper });
  }

  -- `AsOfSequence`.
  abbrev pub as_of_seq : QueryBuilder lib → ℕ → QueryBuilder lib
  as_of_seq b seq = record b { temporal = some (record { point_in_time = as_of_sequence seq }) }

  -- `AsOfTime`, on what `ParseTimestamp` gives.
  abbrev as_of_parsed : QueryBuilder lib → Result Timestamp → QueryBuilder lib
  as_of_parsed b (err e) = record b { error = some e }
  as_of_parsed b (ok ts) = record b { temporal = some (record { point_in_time = as_of_time ts }) }

  abbrev query_checked : QueryBuilder lib → Option Error → Result Query
  query_checked b (some e) = err e
  query_checked b none = ok (record {
    cover = some (
        covered lib b.domain b.correlation_id b.root
          (if str_eq b.edition "" then none else some (implicit_edition b.edition)));
    selection = selection_of b.range_select b.temporal;
  })

  -- `QueryBuilder.Build`.
  unfoldable pub build_query : QueryBuilder lib → Result Query
  build_query b = query_checked b b.error
