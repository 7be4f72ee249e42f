-- ===== src/Features/Facts/Checks.antt =====
-- The checks of features/fact_flow.go: each is an error or none.
use angzarr_client_go.Prelude.{
  ℕ, String, ◌⧺◌, Option, none, some, Bool, true, false, List, [], ◌∷◌, ◌==◌, str_eq, if◌then◌else◌,
  GoMap, lookup,
}
use angzarr_client_go.Proto.{Any, Cover, EventPage, ProtoUuid, PageHeader, get_sequence}
use angzarr_client_go.Errors.{Error}
use angzarr_client_go.Features.Format.{Format, errorf, contains}
use angzarr_client_go.Features.Facts.{FactFlow, MockPlayer, MockTable}

abbrev require_fact : String → Option EventPage → Option Error
require_fact message none = errorf message
require_fact message (some fact) = none

abbrev require_player : String → Option EventPage → Option MockPlayer → Option Error
require_player name fact none = errorf ("player " ⧺ name ⧺ " not found")
require_player name fact (some player) = require_fact "no fact was injected" fact

-- `thenActionRequestedInjected`.
abbrev then_action_requested_injected : String → FactFlow → Option Error
unfolding lookup
then_action_requested_injected name f = require_player name f.fact (lookup name f.players)

-- `thenFactPersistedWithNextSequence`.
abbrev then_fact_persisted_with_next_sequence : FactFlow → Option Error
then_fact_persisted_with_next_sequence f = require_fact "no fact to check" f.fact

abbrev has_type : String → Option Any → Bool
has_type type_url none = false
has_type type_url (some event) = str_eq event.type_url type_url

unfoldable pub any_page : String → List EventPage → Bool
any_page type_url [] = false
any_page type_url (page ∷ pages) =
    let later = any_page type_url pages in if has_type type_url page.event then true else later

unfoldable any_player : String → GoMap MockPlayer → Bool
unfolding any_page
any_player type_url [] = false
any_player type_url ((name, player) ∷ players) =
    let later = any_player type_url players in
    if any_page type_url player.events then true else later

-- `thenPlayerHasActionRequestedEvent`.
unfoldable then_player_has_action_requested_event : FactFlow → Option Error
unfolding any_player
then_player_has_action_requested_event f =
    if any_player "type.googleapis.com/examples.ActionRequested" f.players
    then none
    else errorf "no ActionRequested event found in any player aggregate"

-- `f.fact.GetHeader().GetSequence()`.
abbrev pub header_sequence : Option PageHeader → ℕ
header_sequence none = 0
header_sequence (some header) = get_sequence header

module _ (format : Format) where
  open format use {decimal, quoted, shown}

  abbrev pub check_sequence : ℕ → Option EventPage → Option Error
  check_sequence expected none = errorf "no fact to check"
  check_sequence expected (some fact) =
      if header_sequence fact.header == expected
      then none
      else errorf (
          "expected sequence "
          ⧺ decimal expected
          ⧺ ", got "
          ⧺ decimal (header_sequence fact.header))

  -- `thenFactPersistedWithSequence`.
  abbrev pub then_fact_persisted_with_sequence : ℕ → FactFlow → Option Error
  then_fact_persisted_with_sequence expected f = check_sequence expected f.fact

  abbrev pub check_next : ℕ → Option MockPlayer → Option Error
  check_next expected none = errorf "test player not found"
  check_next expected (some player) =
      if player.sequence == expected
      then none
      else errorf
          ("expected next sequence " ⧺ decimal expected ⧺ ", got " ⧺ decimal player.sequence)

  -- `thenSubsequentEventsFromSequence`.
  unfoldable pub then_subsequent_events_from_sequence : ℕ → FactFlow → Option Error
  unfolding lookup
  then_subsequent_events_from_sequence expected f =
      check_next expected (lookup "TestPlayer" f.players)

  abbrev check_failed : String → Option Error → Option Error
  check_failed expected none =
      errorf ("expected error containing " ⧺ quoted expected ⧺ " but got none")
  check_failed expected (some e) =
      if contains (shown e) expected
      then none
      else errorf ("expected error containing " ⧺ quoted expected ⧺ ", got " ⧺ quoted (shown e))

  -- `thenSagaFailsWithError`.
  unfoldable then_saga_fails_with_error : String → FactFlow → Option Error
  unfolding contains
  then_saga_fails_with_error expected f = check_failed expected f.error

  -- `thenOnlyOneEventStored`, which counts the injections and looks at no aggregate.
  abbrev then_only_one_event_stored : FactFlow → Option Error
  then_only_one_event_stored f =
      if f.injection_count == 2
      then none
      else errorf ("expected 2 injection attempts, got " ⧺ decimal f.injection_count)

  abbrev pub no_error : Option Error → Option Error
  no_error none = none
  no_error (some e) = errorf ("second injection failed: " ⧺ shown e)

  -- `thenSecondInjectionSucceeds`.
  abbrev then_second_injection_succeeds : FactFlow → Option Error
  then_second_injection_succeeds f = no_error f.error

abbrev check_type : String → String → Option Any → Option Error
check_type type_url message event = if has_type type_url event then none else errorf message

abbrev check_fact_type : String → String → Option EventPage → Option Error
check_fact_type type_url message none = errorf "no fact injected"
check_fact_type type_url message (some fact) = check_type type_url message fact.event

-- `thenPlayerSatOutInjected`.
abbrev then_player_sat_out_injected : FactFlow → Option Error
then_player_sat_out_injected f =
    check_fact_type "type.googleapis.com/examples.PlayerSatOut" "expected PlayerSatOut fact" f.fact

-- `thenPlayerSatInInjected`.
abbrev then_player_sat_in_injected : FactFlow → Option Error
then_player_sat_in_injected f =
    check_fact_type "type.googleapis.com/examples.PlayerSatIn" "expected PlayerSatIn fact" f.fact

-- What the first table that the player is at says of the player.
unfoldable pub recorded : String → GoMap MockTable → Option Bool
unfolding lookup
recorded name [] = none
recorded name ((id, table) ∷ tables) =
    let later = recorded name tables in
    elim (lookup name table.players) [ some sitting_out ↦ some sitting_out | none ↦ later ]

abbrev check_out : String → Option Bool → Option Error
check_out name none = errorf ("player " ⧺ name ⧺ " not found at any table")
check_out name (some true) = none
check_out name (some false) = errorf ("player " ⧺ name ⧺ " is not marked as sitting out")

-- `thenTableRecordsSittingOut`.
unfoldable then_table_records_sitting_out : String → FactFlow → Option Error
unfolding recorded
then_table_records_sitting_out name f = check_out name (recorded name f.tables)

abbrev check_in : String → Option Bool → Option Error
check_in name none = errorf ("player " ⧺ name ⧺ " not found at any table")
check_in name (some true) = errorf ("player " ⧺ name ⧺ " is still marked as sitting out")
check_in name (some false) = none

-- `thenTableRecordsActive`.
unfoldable then_table_records_active : String → FactFlow → Option Error
unfolding recorded
then_table_records_active name f = check_in name (recorded name f.tables)

abbrev check_numbered : Option EventPage → Option Error
check_numbered none = errorf "fact has no sequence number"
check_numbered (some fact) =
    if header_sequence fact.header == 0 then errorf "fact has no sequence number" else none

-- `thenFactHasTableSequence`.
abbrev then_fact_has_table_sequence : FactFlow → Option Error
then_fact_has_table_sequence f = check_numbered f.fact

abbrev check_cover : String → (Cover → Bool) → Option Cover → Option Error
check_cover message lacks none = errorf message
check_cover message lacks (some cover) = if lacks cover then errorf message else none

abbrev has_no_root : Option ProtoUuid → Bool
has_no_root none = true
has_no_root (some root) = false

-- `thenFactCoverHasDomain`.
abbrev then_fact_cover_has_domain : FactFlow → Option Error
then_fact_cover_has_domain f =
    check_cover "fact cover has no domain" (λ cover. str_eq cover.domain "") f.fact_cover

-- `thenFactCoverHasRoot`.
abbrev then_fact_cover_has_root : FactFlow → Option Error
then_fact_cover_has_root f =
    check_cover "fact cover has no root" (λ cover. has_no_root cover.root) f.fact_cover

-- `thenFactCoverHasExternalID`.
abbrev then_fact_cover_has_external_id : FactFlow → Option Error
then_fact_cover_has_external_id f =
    if str_eq f.external_id "" then errorf "fact has no external_id" else none

-- `thenFactCoverHasCorrelationID`.
abbrev then_fact_cover_has_correlation_id : FactFlow → Option Error
then_fact_cover_has_correlation_id f =
    check_cover "fact cover has no correlation_id" (λ cover. str_eq cover.correlation_id "")
      f.fact_cover

abbrev require_error : Option Error → Option Error
require_error none = errorf "expected saga to fail"
require_error (some e) = none

-- `thenNoCommandsExecuted`.
abbrev then_no_commands_executed : FactFlow → Option Error
then_no_commands_executed f = require_error f.error
