-- ===== src/Features/Merge/Given.antt =====
-- The given steps of features/merge_strategy.go.
use angzarr_client_go.Prelude.{
  ℕ, String, ◌⧺◌, Option, none, some, true, List, [], ◌∷◌, str_eq, if◌then◌else◌,
}
use angzarr_client_go.Errors.{Error, plain}
use angzarr_client_go.Helpers.Books.{u32}
use angzarr_client_go.Helpers.Editions.{ℤ, pos}
use angzarr_client_go.Features.Format.{errorf}
use angzarr_client_go.Features.Merge.{
  Merge, MockAggregate, ConcurrentCommand, aggregate_at, merge_commutative, merge_strict,
  merge_aggregate_handles,
}

-- `givenAggregateWithEvents`: three events are assumed, whatever the table holds.
abbrev given_aggregate_with_events : String → Merge → Merge
given_aggregate_with_events domain m = record m {
  aggregate = some (record (aggregate_at 3) { domain = domain });
}

-- `givenCommandWithStrict`.
abbrev given_command_with_strict : Merge → Merge
given_command_with_strict m = record m { merge_strategy = merge_strict }

-- `givenCommandWithCommutative`.
abbrev given_command_with_commutative : Merge → Merge
given_command_with_commutative m = record m { merge_strategy = merge_commutative }

-- `givenCommandWithAggregateHandles`.
abbrev given_command_with_aggregate_handles : Merge → Merge
given_command_with_aggregate_handles m = record m {
  merge_strategy = merge_aggregate_handles;
  aggregate_handles = true;
}

-- `givenCommandNoExplicitStrategy`.
abbrev given_command_no_explicit_strategy : Merge → Merge
given_command_no_explicit_strategy m = record m { merge_strategy = merge_commutative }

-- `givenCommandWithStrategy`.
abbrev given_command_with_strategy : String → Merge → Option Error × Merge
given_command_with_strategy strategy m =
    if str_eq strategy "STRICT"
    then (none, given_command_with_strict m)
    else if str_eq strategy "COMMUTATIVE"
    then (none, given_command_with_commutative m)
    else if str_eq strategy "AGGREGATE_HANDLES"
    then (none, given_command_with_aggregate_handles m)
    else (errorf ("unknown strategy: " ⧺ strategy), m)

-- `givenCommandTargetsSequence`.
abbrev given_command_targets_sequence : ℕ → Merge → Merge
given_command_targets_sequence seq m = record m { command_sequence = u32 seq }

abbrev moved_to : ℕ → Option MockAggregate → MockAggregate
moved_to seq none = aggregate_at seq
moved_to seq (some aggregate) = record aggregate { next_sequence = seq }

-- `givenAggregateAtSequence`.
abbrev given_aggregate_at_sequence : ℕ → Merge → Merge
given_aggregate_at_sequence seq m = record m { aggregate = some (moved_to (u32 seq) m.aggregate) }

-- `givenAggregateRejects`.
abbrev given_aggregate_rejects : Merge → Merge
given_aggregate_rejects m = record m { error = some (plain "aggregate rejected: state conflict") }

-- `givenCounterAggregate`.
abbrev given_counter_aggregate : ℕ → Merge → Merge
given_counter_aggregate value m = record m { counter_value = value }

-- A row of the table of `givenConcurrentIncrementCommands`, with the amount that `fmt.Sscanf` reads,
-- and of `givenConcurrentAddItemCommands`, with the sequence.
abbrev increment_command : String × ℤ → ConcurrentCommand
increment_command (client, amount) = record {
  client = client;
  amount = amount;
  sequence = 0;
  item = "";
  merge_strategy = merge_commutative;
}

abbrev add_item_command : String → String × ℕ → ConcurrentCommand
add_item_command item (client, sequence) = record {
  client = client;
  amount = pos 0;
  sequence = sequence;
  item = item;
  merge_strategy = merge_commutative;
}

abbrev commands_of : {A : Type 0} → (A → ConcurrentCommand) → List A → List ConcurrentCommand
commands_of command [] = []
commands_of command (row ∷ rows) = command row ∷ commands_of command rows

-- `givenConcurrentIncrementCommands`, on the rows below the header.
abbrev given_concurrent_increment_commands : List (String × ℤ) → Merge → Merge
given_concurrent_increment_commands rows m = record m {
  concurrent_cmds = commands_of increment_command rows;
}

-- `givenSetAggregate`.
abbrev given_set_aggregate : (item1 item2 : String) → Merge → Merge
given_set_aggregate item1 item2 m = record m { set_items = some (item1 ∷ item2 ∷ []) }

-- `givenConcurrentAddItemCommands`, on the rows below the header.
abbrev given_concurrent_add_item_commands : String → List (String × ℕ) → Merge → Merge
given_concurrent_add_item_commands item rows m = record m {
  concurrent_cmds = commands_of (add_item_command item) rows;
}

-- `givenSagaEmitsCommutative`.
abbrev given_saga_emits_commutative : Merge → Merge
given_saga_emits_commutative m = record m { merge_strategy = merge_commutative }

-- `givenDestinationAdvanced`.
abbrev given_destination_advanced : Merge → Merge
given_destination_advanced m = record m {
  aggregate = some (moved_to 5 m.aggregate);
  command_sequence = 3;
}

-- `givenNewAggregate`.
abbrev given_new_aggregate : Merge → Merge
given_new_aggregate m = record m { aggregate = some (aggregate_at 0) }

-- `givenCommandTargetingSequence`.
abbrev given_command_targeting_sequence : ℕ → Merge → Merge
given_command_targeting_sequence seq m = record m { command_sequence = u32 seq }

-- `givenAggregateWithSnapshot`.
abbrev given_aggregate_with_snapshot : ℕ → Merge → Merge
given_aggregate_with_snapshot seq m = record m {
  aggregate = some (record (aggregate_at 0) { snapshot = some (record { sequence = u32 seq }) });
}

-- `givenNextExpectedSequence`.
abbrev given_next_expected_sequence : ℕ → Merge → Merge
given_next_expected_sequence seq m = record m { aggregate = some (moved_to (u32 seq) m.aggregate) }

-- `givenStrictCommandTargetsSequence`.
abbrev given_strict_command_targets_sequence : ℕ → Merge → Merge
given_strict_command_targets_sequence seq m = record m {
  merge_strategy = merge_strict;
  command_sequence = u32 seq;
}

-- `givenCommandBookNoPages`.
abbrev given_command_book_no_pages : Merge → Merge
given_command_book_no_pages m = record m { command = some (record { cover = none; pages = [] }) }

-- `whenCommandUsesMergeStrategy`.
abbrev when_command_uses_merge_strategy : String → Merge → Option Error × Merge
when_command_uses_merge_strategy = given_command_with_strategy
