-- ===== src/Features/Merge/Refused.antt =====
-- Which commands the coordinator of features/merge_strategy.go refuses, and how.
use angzarr_client_go.Prelude.{ℕ, Option, none, some, Bool, ◌≡◌, ◌==◌, not, ◌&&◌, if◌then◌else◌}
use angzarr_client_go.Errors.{Error, status, aborted, failed_precondition}
use angzarr_client_go.Features.Merge.{
  Merge, MockAggregate, MergeStrategy, merge_strict, merge_commutative, merge_aggregate_handles,
  empty_response,
}

-- The sequence that the coordinator expects; without an aggregate it makes one at 3.
abbrev pub expected_at : Option MockAggregate → ℕ
expected_at none = 3
expected_at (some aggregate) = aggregate.next_sequence

abbrev pub is_stale : Merge → Bool
is_stale m = not m.aggregate_handles && not (m.command_sequence == expected_at m.aggregate)

-- A strict command is not to be tried again.
abbrev pub refusal : MergeStrategy → Error
refusal merge_strict = status aborted "Sequence mismatch"
refusal merge_commutative = status failed_precondition "Sequence mismatch - retryable"
refusal merge_aggregate_handles = status failed_precondition "Sequence mismatch - retryable"

-- A context that gives this answer to a command of the context `m`, when the sequence `next` is
-- expected, and the command is stale or not.
abbrev pub Answers : Merge → ℕ → Bool → Merge → Type 0
Answers m next stale after =
    (after.error ≡ (if stale then some (refusal m.merge_strategy) else none))
    × (after.error_details ≡ (
        if stale
        then some (record { expected_sequence = next; actual_sequence = m.command_sequence })
        else m.error_details))
    × (after.response ≡ (if stale then m.response else some empty_response))
