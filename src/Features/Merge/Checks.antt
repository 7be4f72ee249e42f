-- ===== src/Features/Merge/Checks.antt =====
-- The checks of features/merge_strategy.go: each is an error or none. `strategy_name` is what `%v`
-- makes of a merge strategy.
use angzarr_client_go.Prelude.{
  ℕ, String, ◌⧺◌, Option, none, some, Bool, true, false, List, ◌==◌, if◌then◌else◌, length,
}
use angzarr_client_go.Errors.{Error, Code, status, aborted, failed_precondition}
use angzarr_client_go.Features.Format.{Format, errorf, contains}
use angzarr_client_go.Features.Merge.{
  Merge, MergeStrategy, merge_commutative, merge_strict, merge_aggregate_handles, SequenceMismatch,
}

-- `status.FromError` on an error that is the status package's own; its code.
abbrev pub status_code : Error → Option Code
status_code (status code message) = some code
status_code _ = none

abbrev is_aborted : Option Code → Bool
is_aborted (some aborted) = true
is_aborted _ = false

abbrev is_failed_precondition : Option Code → Bool
is_failed_precondition (some failed_precondition) = true
is_failed_precondition _ = false

module _ (format : Format) where
  open format use {decimal, quoted, shown}

  abbrev check_none : String → Option Error → Option Error
  check_none message none = none
  check_none message (some e) = errorf (message ⧺ shown e)

  -- `thenCommandSucceeds`.
  abbrev pub then_command_succeeds : Merge → Option Error
  then_command_succeeds m = check_none "expected command to succeed but got error: " m.error

  -- `thenEventsArePersisted`.
  abbrev then_events_are_persisted : Merge → Option Error
  then_events_are_persisted m = check_none "events not persisted due to error: " m.error

  abbrev check_aborted : Option Error → Option Error
  check_aborted none = errorf "expected ABORTED error but command succeeded"
  check_aborted (some e) =
      if is_aborted (status_code e)
      then none
      else errorf ("expected ABORTED status, got " ⧺ shown e)

  -- `thenCommandFailsAborted`.
  abbrev then_command_fails_aborted : Merge → Option Error
  then_command_fails_aborted m = check_aborted m.error

  abbrev check_contains : String → Option Error → Option Error
  check_contains expected none =
      errorf ("expected error containing " ⧺ quoted expected ⧺ " but got none")
  check_contains expected (some e) =
      if contains (shown e) expected
      then none
      else errorf ("expected error containing " ⧺ quoted expected ⧺ ", got " ⧺ quoted (shown e))

  -- `thenErrorContains`.
  unfoldable then_error_contains : String → Merge → Option Error
  unfolding contains
  then_error_contains expected m = check_contains expected m.error

  abbrev check_details : ℕ → Option SequenceMismatch → Option Error
  check_details expected none = errorf "no error details available"
  check_details expected (some details) =
      if details.expected_sequence == expected
      then none
      else errorf (
          "expected next_sequence "
          ⧺ decimal expected
          ⧺ ", got "
          ⧺ decimal details.expected_sequence)

  -- `thenEventBookShowsNextSequence`.
  abbrev pub then_event_book_shows_next_sequence : ℕ → Merge → Option Error
  then_event_book_shows_next_sequence expected m = check_details expected m.error_details

  abbrev check_precondition : Option Error → Option Error
  check_precondition none = errorf "expected FAILED_PRECONDITION error but command succeeded"
  check_precondition (some e) =
      if is_failed_precondition (status_code e)
      then none
      else errorf ("expected FAILED_PRECONDITION status, got " ⧺ shown e)

  -- `thenCommandFailsPrecondition`.
  abbrev then_command_fails_precondition : Merge → Option Error
  then_command_fails_precondition m = check_precondition m.error

  -- `thenRetriedSucceeds`.
  abbrev pub then_retried_succeeds : Merge → Option Error
  then_retried_succeeds m =
      if m.retried
      then check_none "retried command failed: " m.error
      else errorf "command was not retried"

  abbrev is_commutative : MergeStrategy → Bool
  is_commutative merge_commutative = true
  is_commutative merge_strict = false
  is_commutative merge_aggregate_handles = false

  -- `thenEffectiveIsCommutative`.
  abbrev then_effective_is_commutative : (MergeStrategy → String) → Merge → Option Error
  then_effective_is_commutative strategy_name m =
      if is_commutative m.merge_strategy
      then none
      else errorf ("expected COMMUTATIVE, got " ⧺ strategy_name m.merge_strategy)

  -- `thenFinalCounterValue`.
  abbrev then_final_counter_value : ℕ → Merge → Option Error
  then_final_counter_value expected m =
      if m.counter_value == expected
      then none
      else errorf
          ("expected counter value " ⧺ decimal expected ⧺ ", got " ⧺ decimal m.counter_value)

  abbrev check_items : Option (List String) → Option Error
  check_items none = errorf "set aggregate not initialized"
  check_items (some items) =
      if length items == 3
      then none
      else errorf ("expected " ⧺ decimal 3 ⧺ " items, got " ⧺ decimal (length items))

  -- `thenSetContains`, which compares the numbers of items only.
  abbrev then_set_contains : (item1 item2 item3 : String) → Merge → Option Error
  then_set_contains item1 item2 item3 m = check_items m.set_items

abbrev check_some : String → Option Error → Option Error
check_some message none = errorf message
check_some message (some e) = none

-- `thenNoEventsPersisted`.
abbrev then_no_events_persisted : Merge → Option Error
then_no_events_persisted m = check_some "expected no events persisted but command succeeded" m.error

-- `thenCommandFailsWithAggregateError`.
abbrev then_command_fails_with_aggregate_error : Merge → Option Error
then_command_fails_with_aggregate_error m =
    check_some "expected aggregate error but command succeeded" m.error

abbrev has_details : Option SequenceMismatch → Bool
has_details none = false
has_details (some details) = true

-- `thenErrorIncludesEventBook`.
abbrev then_error_includes_event_book : Merge → Option Error
then_error_includes_event_book m =
    if has_details m.error_details then none else errorf "expected error details with EventBook"

abbrev pub retryable : Option Error → Bool
retryable none = false
retryable (some e) = is_failed_precondition (status_code e)

-- `thenErrorIsRetryable`, and `thenCommandFailsRetryable`.
abbrev then_error_is_retryable : Merge → Option Error
then_error_is_retryable m =
    if retryable m.error then none else errorf "expected retryable error (FAILED_PRECONDITION)"

-- `thenNoSequenceValidation`.
abbrev then_no_sequence_validation : Merge → Option Error
then_no_sequence_validation m =
    if m.aggregate_handles
    then none
    else errorf "expected AGGREGATE_HANDLES to bypass sequence validation"
