-- ===== src/Features/Merge/Retrying.antt =====
-- What becomes of a command in features/merge_strategy.go, and of its retries.
use angzarr_client_go.Prelude.{◌<◌, ◌^◌, none, some, true, ◌≡◌, refl, ap, ◌∙◌, arith}
use angzarr_client_go.Features.Format.{Format}
use angzarr_client_go.Features.Merge.{
  Merge, MockAggregate, empty_response, process_on, aggregate_or_default,
  when_coordinator_processes, when_rebuilds_with_sequence, when_resubmits_command,
  when_saga_fetches_fresh_state, refreshed,
}
use angzarr_client_go.Features.Merge.Checks.{then_command_succeeds, then_retried_succeeds}

-- A context with an aggregate.
abbrev with_aggregate : Merge → MockAggregate → Merge
with_aggregate m aggregate = record m { aggregate = some aggregate }

processes-on :
    (m : Merge) (aggregate : MockAggregate)
    → m.aggregate ≡ some aggregate
    → when_coordinator_processes m ≡ process_on (with_aggregate m aggregate) aggregate
unfolding when_coordinator_processes
processes-on m aggregate here =
    ap (λ o. process_on (with_aggregate m (aggregate_or_default o)) (aggregate_or_default o)) here

process_on-current :
    (m : Merge) (aggregate : MockAggregate)
    → m.error ≡ none
    → m.command_sequence ≡ aggregate.next_sequence
    → ((process_on m aggregate).error ≡ none)
      × ((process_on m aggregate).response ≡ some empty_response)
      × ((process_on m aggregate).retried ≡ m.retried)
process_on-current m aggregate clean current = ground arith

succeeds : (format : Format) (m : Merge) → m.error ≡ none → then_command_succeeds format m ≡ none
succeeds format m clean = rw clean refl

retried_succeeds :
    (format : Format) (m : Merge)
    → m.error ≡ none
    → m.retried ≡ true
    → then_retried_succeeds format m ≡ none
retried_succeeds format m clean again = rw (again, clean) refl

-- Whatever became of a command before, it succeeds when it is sent again with the aggregate's next
-- sequence: rebuilt and resubmitted by a client, or by a saga that fetches the fresh state.
pub retries-succeed :
    (format : Format) (m : Merge) (aggregate : MockAggregate)
    → m.aggregate ≡ some aggregate
    → aggregate.next_sequence < 2 ^ 32
    → let resubmitted =
        when_resubmits_command (when_rebuilds_with_sequence aggregate.next_sequence m) in
      (then_retried_succeeds format resubmitted ≡ none)
      × (resubmitted.response ≡ some empty_response)
      × ((fetched : Merge) × (when_saga_fetches_fresh_state m ≡ some fetched)
          × (then_command_succeeds format fetched ≡ none)
          × (fetched.response ≡ some empty_response))
retries-succeed format m aggregate here small = (
  ap (then_retried_succeeds format) sent
      ∙ retried_succeeds format (process_on (with_aggregate rebuilt aggregate) aggregate) again.0
          again.2,
  ap (λ (n : Merge). n.response) sent ∙ again.1,
  (
    refreshed m aggregate,
    ap (λ o. elim o [ some a ↦ some (refreshed m a) | none ↦ none ]) here,
    ap (then_command_succeeds format) fresh
        ∙ succeeds format (process_on (with_aggregate reading aggregate) aggregate) read.0,
    ap (λ (n : Merge). n.response) fresh ∙ read.1,
  ),
)
  where
    rebuilt : Merge
    rebuilt = record (when_rebuilds_with_sequence aggregate.next_sequence m) { retried = true }

    reading : Merge
    reading = record m { command_sequence = aggregate.next_sequence; error = none }

    sent :
        when_coordinator_processes rebuilt ≡ process_on (with_aggregate rebuilt aggregate) aggregate
    sent = processes-on rebuilt aggregate here

    again :
        ((process_on (with_aggregate rebuilt aggregate) aggregate).error ≡ none)
        × ((process_on (with_aggregate rebuilt aggregate) aggregate).response ≡ some empty_response)
        × ((process_on (with_aggregate rebuilt aggregate) aggregate).retried ≡ true)
    again =
        process_on-current (with_aggregate rebuilt aggregate) aggregate refl (omega (arith, small))

    fresh : refreshed m aggregate ≡ process_on (with_aggregate reading aggregate) aggregate
    fresh = processes-on reading aggregate here

    read :
        ((process_on (with_aggregate reading aggregate) aggregate).error ≡ none)
        × ((process_on (with_aggregate reading aggregate) aggregate).response ≡ some empty_response)
        × ((process_on (with_aggregate reading aggregate) aggregate).retried ≡ m.retried)
    read = process_on-current (with_aggregate reading aggregate) aggregate refl refl
