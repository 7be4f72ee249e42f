-- ===== src/Features/Facts/Scenario.antt =====
-- The given and when steps of features/fact_flow.go, and the scenarios that are sequences of them.
use angzarr_client_go.Prelude.{ℕ, String, GoMap, ◌≡◌, ◌++◌, ◌∷◌}
use angzarr_client_go.Proto.{ProtoUuid}
use angzarr_client_go.Features.Facts.{
  FactFlow, MockTable, Outcome, done, given_registered_player, given_hand_in_progress_player_turn,
  given_player_with_events, given_player_seated_at_table, given_player_sitting_out_at_table,
  given_saga_that_emits_fact, given_saga_emits_fact_to_domain, given_fact_with_external_id,
  when_saga_processes_turn_change, when_action_requested_fact_injected,
  when_player_emits_sitting_out, when_player_emits_returning, when_fact_constructed,
  when_saga_processes_event, when_fact_injected_twice,
}

-- The steps that `InitFactFlowSteps` registers, with what the step's text and `uuid.New` give.
pub data Step : Type 0 where
  registered_player : (fresh name : String) → Step
  hand_in_progress : (fresh name : String) → Step
  player_with_events : String → ℕ → Step
  player_seated : (fresh name table : String) → Step
  player_sitting_out : (fresh name table : String) → Step
  saga_that_emits : String → Step
  saga_emits_to : String → Step
  fact_with_external_id : String → Step
  saga_processes_turn_change action_requested_injected : Step
  player_emits_sitting_out : String → Step
  player_emits_returning : String → Step
  fact_constructed : ProtoUuid → (fresh other : String) → Step
  saga_processes_event fact_injected_twice : Step

-- `InitFactFlowSteps`: the method that a step calls.
unfoldable pub step : Step → FactFlow → Outcome
unfolding given_player_with_events given_player_seated_at_table given_player_sitting_out_at_table
    when_saga_processes_turn_change when_action_requested_fact_injected
    when_player_emits_sitting_out when_player_emits_returning
step (registered_player fresh name) f = done (given_registered_player fresh name f)
step (hand_in_progress fresh name) f = done (given_hand_in_progress_player_turn fresh name f)
step (player_with_events fresh n) f = done (given_player_with_events fresh n f)
step (player_seated fresh name table) f = done (given_player_seated_at_table fresh name table f)
step (player_sitting_out fresh name table) f =
    done (given_player_sitting_out_at_table fresh name table f)
step (saga_that_emits fresh) f = done (given_saga_that_emits_fact fresh f)
step (saga_emits_to domain) f = done (given_saga_emits_fact_to_domain domain f)
step (fact_with_external_id id) f = done (given_fact_with_external_id id f)
step saga_processes_turn_change f = when_saga_processes_turn_change f
step action_requested_injected f = when_action_requested_fact_injected f
step (player_emits_sitting_out name) f = when_player_emits_sitting_out name f
step (player_emits_returning name) f = when_player_emits_returning name f
step (fact_constructed root fresh other) f = done (when_fact_constructed root fresh other f)
step saga_processes_event f = done (when_saga_processes_event f)
step fact_injected_twice f = done (when_fact_injected_twice f)

-- A context is left by a step. A range over a Go map meets the entries in any order: between two
-- steps, neighbours in the listing of the tables may change places.
infix 40 ◌⟶◌ ◌⟶*◌
pub data ◌⟶◌ : FactFlow → FactFlow → Type 0 where
  taken : {f : FactFlow} (s : Step) → f ⟶ (step s f).1
  swapped :
      {f : FactFlow} (before : GoMap MockTable) (x y : String × MockTable) (after : GoMap MockTable)
      → f.tables ≡ before ++ x ∷ y ∷ after
      → f ⟶ record f { tables = before ++ y ∷ x ∷ after }

-- A context is reached from another by a sequence of steps.
pub data ◌⟶*◌ : FactFlow → FactFlow → Type 0 where
  here : {f : FactFlow} → f ⟶* f
  onward : {f g h : FactFlow} → f ⟶ g → g ⟶* h → f ⟶* h
