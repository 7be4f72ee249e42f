-- ===== src/Features/Merge.antt =====
-- features/merge_strategy.go: how a simulated coordinator treats a command whose sequence is not the
-- aggregate's next one, by the command's merge strategy, and how a client or a saga retries it. A
-- step that reads the aggregate where there is none would be a nil dereference: it is left out. Go's `int` is a number here.
pub mod Given
pub mod Checks
pub mod Retrying
pub mod Refused
pub mod Concurrent
use angzarr_client_go.Prelude.{
  ℕ, ◌+◌, String, ◌⧺◌, Option, none, some, Bool, true, false, List, [], ◌∷◌, ◌++◌, ◌==◌, str_eq,
  not, if◌then◌else◌, ltb,
}
use angzarr_client_go.Proto.{EventPage, CommandBook, CommandResponse}
use angzarr_client_go.Errors.{Error, plain, status, Code, aborted, failed_precondition}
use angzarr_client_go.Helpers.Books.{u32}
use angzarr_client_go.Helpers.Editions.{ℤ, pos, negsuc}
use angzarr_client_go.Features.Format.{errorf}

-- `pb.MergeStrategy`; `merge_commutative` is its zero value.
pub data MergeStrategy : Type 0 where
  merge_commutative merge_strict merge_aggregate_handles : MergeStrategy

-- `pb.SequenceMismatchDetails`.
pub record SequenceMismatch : Type 0 where
  pub expected_sequence : ℕ
  pub actual_sequence : ℕ

-- `MockSnapshot`.
pub record MockSnapshot : Type 0 where
  pub sequence : ℕ

-- `MockMergeAggregate`.
pub record MockAggregate : Type 0 where
  pub domain : String
  pub next_sequence : ℕ
  pub events : List EventPage
  pub snapshot : Option MockSnapshot

-- `ConcurrentCommand`.
pub record ConcurrentCommand : Type 0 where
  pub client : String
  pub amount : ℤ
  pub sequence : ℕ
  pub item : String
  pub merge_strategy : MergeStrategy

-- `MergeStrategyContext`; the items are those of its `MockSetAggregate`.
pub record Merge : Type 0 where
  pub aggregate : Option MockAggregate
  pub command : Option CommandBook
  pub command_sequence : ℕ
  pub merge_strategy : MergeStrategy
  pub response : Option CommandResponse
  pub error : Option Error
  pub error_details : Option SequenceMismatch
  pub retried : Bool
  pub concurrent_cmds : List ConcurrentCommand
  pub set_items : Option (List String)
  pub counter_value : ℕ
  pub aggregate_handles : Bool

-- `newMergeStrategyContext`.
abbrev pub new_merge_strategy_context : Merge
new_merge_strategy_context = record {
  aggregate = none;
  command = none;
  command_sequence = 0;
  merge_strategy = merge_commutative;
  response = none;
  error = none;
  error_details = none;
  retried = false;
  concurrent_cmds = [];
  set_items = none;
  counter_value = 0;
  aggregate_handles = false;
}

-- `&MockMergeAggregate{nextSequence: seq}`.
abbrev pub aggregate_at : ℕ → MockAggregate
aggregate_at seq = record { domain = ""; next_sequence = seq; events = []; snapshot = none }

abbrev pub empty_response : CommandResponse
empty_response = record { events = none }

-- The error of a stale command.
abbrev pub mismatch_error : MergeStrategy → Error
mismatch_error merge_strict = status aborted "Sequence mismatch"
mismatch_error merge_commutative = status failed_precondition "Sequence mismatch - retryable"
mismatch_error merge_aggregate_handles = status failed_precondition "Sequence mismatch - retryable"

-- `whenCoordinatorProcesses`, where the aggregate handles the sequences itself.
abbrev process_handled : Merge → Option Error → Merge
process_handled m none = record m { response = some empty_response }
process_handled m (some e) = m

-- `whenCoordinatorProcesses`, on its aggregate.
abbrev pub process_on : Merge → MockAggregate → Merge
process_on m aggregate =
    if m.aggregate_handles
    then process_handled m m.error
    else if m.command_sequence == aggregate.next_sequence
    then record m { response = some empty_response }
    else record m {
      error = some (mismatch_error m.merge_strategy);
      error_details = some (record {
        expected_sequence = aggregate.next_sequence;
        actual_sequence = m.command_sequence;
      });
    }

abbrev pub aggregate_or_default : Option MockAggregate → MockAggregate
aggregate_or_default none = aggregate_at 3
aggregate_or_default (some aggregate) = aggregate

-- `whenCoordinatorProcesses`, and `whenSagaCoordinatorExecutes`.
unfoldable pub when_coordinator_processes : Merge → Merge
when_coordinator_processes m =
    let aggregate = aggregate_or_default m.aggregate in
    process_on (record m { aggregate = some aggregate }) aggregate

-- `whenRebuildsWithSequence`.
abbrev pub when_rebuilds_with_sequence : ℕ → Merge → Merge
when_rebuilds_with_sequence seq m = record m { command_sequence = u32 seq; error = none }

-- `whenResubmitsCommand`.
abbrev pub when_resubmits_command : Merge → Merge
when_resubmits_command m = when_coordinator_processes (record m { retried = true })

-- `whenSagaRetries`.
abbrev when_saga_retries : Merge → Merge
when_saga_retries m = record m { retried = true }

abbrev pub refreshed : Merge → MockAggregate → Merge
refreshed m aggregate =
    when_coordinator_processes
      (record m { command_sequence = aggregate.next_sequence; error = none })

-- `whenSagaFetchesFreshState`; none where there is no aggregate to read.
abbrev pub when_saga_fetches_fresh_state : Merge → Option Merge
when_saga_fetches_fresh_state m = elim m.aggregate [
  | some aggregate ↦ some (refreshed m aggregate)
  | none ↦ none
]

abbrev handled_by_aggregate : List ConcurrentCommand → List ConcurrentCommand
handled_by_aggregate [] = []
handled_by_aggregate (cmd ∷ cmds) =
    record cmd { merge_strategy = merge_aggregate_handles } ∷ handled_by_aggregate cmds

-- `whenBothUseAggregateHandles`.
abbrev when_both_use_aggregate_handles : Merge → Merge
when_both_use_aggregate_handles m = record m {
  concurrent_cmds = handled_by_aggregate m.concurrent_cmds;
  aggregate_handles = true;
}

-- `if cmd.amount > 0 { m.counterValue += cmd.amount }`.
abbrev pub count_amount : ℕ → ℤ → ℕ
count_amount value (pos n) = if ltb 0 n then value + n else value
count_amount value (negsuc n) = value

unfoldable pub has_item : String → List String → Bool
has_item item [] = false
has_item item (existing ∷ items) =
    let later = has_item item items in if str_eq existing item then true else later

abbrev pub add_item : String → List String → List String
add_item item items = if has_item item items then items else items ++ item ∷ []

abbrev pub add_to_set : String → Option (List String) → Option (List String)
add_to_set item none = none
add_to_set item (some items) = if str_eq item "" then some items else some (add_item item items)

-- The loop of `whenBothProcessed`.
unfoldable pub process_all :
    List ConcurrentCommand → ℕ → Option (List String) → ℕ × Option (List String)
unfolding has_item
process_all [] value items = (value, items)
process_all (cmd ∷ cmds) value items =
    process_all cmds (count_amount value cmd.amount) (add_to_set cmd.item items)

-- `whenBothProcessed`.
unfoldable pub when_both_processed : Merge → Merge
unfolding process_all
when_both_processed m =
    let (value, items) = process_all m.concurrent_cmds m.counter_value m.set_items in
    record m { counter_value = value; set_items = items }
