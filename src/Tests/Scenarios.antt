-- ===== src/Tests/Scenarios.antt =====
-- Scenarios of the feature files.
use angzarr_client_go.Prelude.{none, some, ◌≡◌, refl, arith}
use angzarr_client_go.Features.Format.{Format}
use angzarr_client_go.Features.Facts.{FactFlow, new_fact_flow_context}
use angzarr_client_go.Features.Facts.Scenario.{
  step, player_with_events, action_requested_injected, here, onward, taken,
}
use angzarr_client_go.Features.Facts.Numbering.{IsOrderly, reachable-IsOrderly}
use angzarr_client_go.Features.Merge.{
  Merge, MockAggregate, aggregate_at, new_merge_strategy_context, merge_strict, empty_response,
  when_rebuilds_with_sequence, when_resubmits_command, when_saga_fetches_fresh_state,
}
use angzarr_client_go.Features.Merge.Checks.{then_retried_succeeds, then_command_succeeds}
use angzarr_client_go.Features.Merge.Retrying.{retries-succeed}

abbrev format : Format
format = record { decimal = λ n. "n"; quoted = λ s. s; shown = λ e. "e" }

-- A player with three events, and a fact.
abbrev three : FactFlow
three = (step (player_with_events "id" 3) new_fact_flow_context).1

abbrev four : FactFlow
four = (step action_requested_injected three).1

reachable-IsOrderly_example : IsOrderly four
reachable-IsOrderly_example =
    reachable-IsOrderly four
      (onward (taken (player_with_events "id" 3)) (onward (taken action_requested_injected) here))

-- A strict command for the sequence 1, on an aggregate that is at 3.
abbrev at_three : MockAggregate
at_three = aggregate_at 3

abbrev stale : Merge
stale = record new_merge_strategy_context {
  aggregate = some at_three;
  command_sequence = 1;
  merge_strategy = merge_strict;
}

retries-succeed_example :
    (then_retried_succeeds format (when_resubmits_command (when_rebuilds_with_sequence 3 stale))
      ≡ none)
    × ((when_resubmits_command (when_rebuilds_with_sequence 3 stale)).response
        ≡ some empty_response)
    × ((fetched : Merge) × (when_saga_fetches_fresh_state stale ≡ some fetched)
        × (then_command_succeeds format fetched ≡ none)
        × (fetched.response ≡ some empty_response))
retries-succeed_example = retries-succeed format stale at_three refl (omega arith)
