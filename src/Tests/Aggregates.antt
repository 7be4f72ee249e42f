-- ===== src/Tests/Aggregates.antt =====
-- Requests to an account.
use angzarr_client_go.Helpers.TypeUrl.{match_type}
use angzarr_client_go.Prelude.{insert, ℕ, some, true, false, [], ◌∷◌, ◌≡◌, refl, arith}
use angzarr_client_go.Proto.{BusinessResponse}
use angzarr_client_go.Errors.{ok, new_command_rejected_error}
use angzarr_client_go.Aggregate.{init_data, Data, dispatch, handle, exists}
use angzarr_client_go.Aggregate.Replay.{IsSound, dispatch-replay, dispatch-replay_again}
use angzarr_client_go.Aggregate.Requests.{IsUnrecorded, dispatch-error}
use angzarr_client_go.Aggregate.Existence.{exists_before_state}
use angzarr_client_go.Grpc.{oo_dispatch}
use angzarr_client_go.Grpc.Commands.{oo_dispatch-replay}
use angzarr_client_go.Tests.Data.{
  account, account_data, add, added, any_of, codec, command_book, event_page, history, request,
}

abbrev after_add : Data ℕ
after_add = record {
  event_book = record history { pages = event_page 2 added ∷ [] };
  state = some 15;
  state_set = true;
  next_seq = 3;
}

abbrev after_two : Data ℕ
after_two = record {
  event_book = record history { pages = event_page 2 added ∷ event_page 3 added ∷ [] };
  state = some 20;
  state_set = true;
  next_seq = 4;
}

dispatch-replay_example : IsSound account 2 history.pages after_add
unfolding dispatch match_type insert
dispatch-replay_example =
    dispatch-replay account ok account_data after_add (some add) refl (omega arith) refl

dispatch-replay_again_example : IsSound account 2 history.pages after_two
unfolding dispatch match_type insert
dispatch-replay_again_example =
    dispatch-replay_again account ok 2 history.pages after_add after_two (some add)
      (dispatch-replay account ok account_data after_add (some add) refl (omega arith) refl) refl

abbrev built : Data ℕ
built = record {
  event_book = record history { pages = [] };
  state = some 10;
  state_set = true;
  next_seq = 2;
}

dispatch-error_example : IsUnrecorded account account_data built
unfolding dispatch match_type insert
dispatch-error_example =
    dispatch-error account ok account_data built (new_command_rejected_error "not empty")
      (some (any_of "bank.Close" [])) refl

exists_before_state_example : (exists account account_data).1 ≡ false
exists_before_state_example = exists_before_state account account_data refl

oo_dispatch-replay_example :
    (d : Data ℕ) × ((handle account ok codec (init_data (some history)) (command_book add)).0 ≡ d)
    × (some (BusinessResponse.events (some after_add.event_book))
        ≡ some (BusinessResponse.events (some d.event_book)))
    × IsSound account 2 history.pages d
unfolding oo_dispatch handle match_type insert
oo_dispatch-replay_example =
    oo_dispatch-replay (λ c s. s) codec account ok (request add) (command_book add) add
      (some (BusinessResponse.events (some after_add.event_book))) refl refl refl (omega arith) refl
