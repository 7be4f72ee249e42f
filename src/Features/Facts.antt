-- ===== src/Features/Facts.antt =====
-- features/fact_flow.go: facts that are injected into simulated aggregates of players and tables. A
-- map of Go is read in the order of its entries. `fresh` is what `uuid.New().String()` gives.
pub mod Checks
pub mod Scenario
pub mod Streams
pub mod Numbering
pub mod Injected
use angzarr_client_go.Prelude.{
  ℕ, zero, suc, ◌+◌, String, ◌⧺◌, Option, none, some, Bool, true, false, List, [], ◌∷◌, ◌++◌,
  str_eq, ◌==◌, if◌then◌else◌, GoMap, lookup, insert,
}
use angzarr_client_go.Proto.{
  Any, Cover, EventPage, ProtoUuid, empty_cover, sequence_header, get_sequence,
}
use angzarr_client_go.Errors.{Error, plain}
use angzarr_client_go.Helpers.Books.{u32}

-- `MockPlayerAggregate`.
pub record MockPlayer : Type 0 where
  pub id : String
  pub name : String
  pub events : List EventPage
  pub sequence : ℕ

-- `MockTableAggregate`; `players` tells which players sit out.
pub record MockTable : Type 0 where
  pub id : String
  pub players : GoMap Bool
  pub events : List EventPage
  pub sequence : ℕ

-- `MockHandAggregate`.
pub record MockHand : Type 0 where
  pub id : String
  pub current_turn : String
  pub events : List EventPage

-- `FactFlowContext`. Its `sagaResponse` is never read and is left out.
pub record FactFlow : Type 0 where
  pub players : GoMap MockPlayer
  pub tables : GoMap MockTable
  pub hands : GoMap MockHand
  pub fact : Option EventPage
  pub fact_cover : Option Cover
  pub external_id : String
  pub error : Option Error
  pub injection_count : ℕ

-- `newFactFlowContext`.
abbrev pub new_fact_flow_context : FactFlow
new_fact_flow_context = record {
  players = [];
  tables = [];
  hands = [];
  fact = none;
  fact_cover = none;
  external_id = "";
  error = none;
  injection_count = 0;
}

-- A fact of a type, with the sequence of the aggregate that it goes to.
abbrev pub fact_page : ℕ → String → EventPage
fact_page seq type_name = record {
  header = some (sequence_header seq);
  event =
      some (record {
        type_url = "type.googleapis.com/examples." ⧺ type_name;
        value = b'{' ∷ b'}' ∷ [];
      });
  created_at = none;
}

-- `append(player.events, f.fact)` and `player.sequence++`.
abbrev pub injected_player : MockPlayer → MockPlayer
injected_player player = record player {
  events = player.events ++ fact_page player.sequence "ActionRequested" ∷ [];
  sequence = u32 (player.sequence + 1);
}

abbrev pub injected_table : String → Bool → String → MockTable → MockTable
injected_table player_name sitting_out type_name table = record table {
  players = insert player_name sitting_out table.players;
  events = table.events ++ fact_page table.sequence type_name ∷ [];
  sequence = u32 (table.sequence + 1);
}

-- What a step returns, and the context that it leaves.
abbrev pub Outcome : Type 0
Outcome = Option Error × FactFlow

abbrev pub done : FactFlow → Outcome
done f = (none, f)

-- `givenRegisteredPlayer`.
abbrev pub given_registered_player : (fresh name : String) → FactFlow → FactFlow
given_registered_player fresh name f = record f {
  players = insert name (record { id = fresh; name = name; events = []; sequence = 1 }) f.players;
}

-- `givenHandInProgressPlayerTurn`.
abbrev pub given_hand_in_progress_player_turn : (fresh player_name : String) → FactFlow → FactFlow
given_hand_in_progress_player_turn fresh player_name f = record f {
  hands = insert "current" (record { id = fresh; current_turn = player_name; events = [] }) f.hands;
}

-- The loop of `givenPlayerWithEvents`, with the events that are left to make, from the index `i`.
unfoldable pub made_events : (left i : ℕ) → List EventPage
made_events zero i = []
made_events (suc left) i =
    record { header = some (sequence_header (u32 (i + 1))); event = none; created_at = none }
    ∷ made_events left (i + 1)

-- `givenPlayerWithEvents`.
unfoldable pub given_player_with_events : String → ℕ → FactFlow → FactFlow
unfolding made_events insert
given_player_with_events fresh event_count f = record f {
  players =
      insert "TestPlayer"
        (record {
          id = fresh;
          name = "TestPlayer";
          events = made_events event_count 0;
          sequence = u32 (event_count + 1);
        })
        f.players;
}

abbrev pub registered : (fresh name : String) → FactFlow → Option MockPlayer → FactFlow
registered fresh name f none = given_registered_player fresh name f
registered fresh name f (some player) = f

abbrev pub table_or_new : String → Option MockTable → MockTable
table_or_new table_id none = record { id = table_id; players = []; events = []; sequence = 1 }
table_or_new table_id (some table) = table

-- The table with the player on it, who sits out or not.
abbrev pub seat : (table_id player_name : String) → Bool → FactFlow → FactFlow
seat table_id player_name sitting_out f =
    let table = table_or_new table_id (lookup table_id f.tables) in
    record f {
      tables =
          insert table_id (record table { players = insert player_name sitting_out table.players })
            f.tables;
    }

-- `givenPlayerSeatedAtTable`.
unfoldable pub given_player_seated_at_table :
    (fresh player_name table_id : String) → FactFlow → FactFlow
unfolding insert lookup
given_player_seated_at_table fresh player_name table_id f =
    seat table_id player_name false (registered fresh player_name f (lookup player_name f.players))

-- `givenPlayerSittingOutAtTable`.
unfoldable pub given_player_sitting_out_at_table :
    (fresh player_name table_id : String) → FactFlow → FactFlow
unfolding given_player_seated_at_table insert lookup
given_player_sitting_out_at_table fresh player_name table_id f =
    seat table_id player_name true (given_player_seated_at_table fresh player_name table_id f)

-- `givenSagaThatEmitsFact`.
abbrev pub given_saga_that_emits_fact : String → FactFlow → FactFlow
given_saga_that_emits_fact fresh f = record f {
  fact_cover = some (record empty_cover { domain = "player"; correlation_id = fresh });
}

-- `givenSagaEmitsFactToDomain`.
abbrev pub given_saga_emits_fact_to_domain : String → FactFlow → FactFlow
given_saga_emits_fact_to_domain domain f = record f {
  fact_cover = some (record empty_cover { domain = domain });
}

-- `givenFactWithExternalID`.
abbrev pub given_fact_with_external_id : String → FactFlow → FactFlow
given_fact_with_external_id external_id f = record f {
  fact_cover = some (record empty_cover { domain = "player" });
  external_id = external_id;
  injection_count = 0;
}

-- The injection of a fact into the player of this name.
abbrev pub inject_into : String → FactFlow → Option Error → Option MockPlayer → Outcome
inject_into name f missing none = (missing, f)
inject_into name f missing (some player) = done (record f {
  players = insert name (injected_player player) f.players;
  fact = some (fact_page player.sequence "ActionRequested");
})

abbrev pub turn_of : FactFlow → Option MockHand → Outcome
turn_of f none = (some (plain "no hand in progress"), f)
turn_of f (some hand) =
    inject_into hand.current_turn f (some (plain ("player " ⧺ hand.current_turn ⧺ " not found")))
      (lookup hand.current_turn f.players)

-- `whenSagaProcessesTurnChange`.
unfoldable pub when_saga_processes_turn_change : FactFlow → Outcome
unfolding insert lookup
when_saga_processes_turn_change f = turn_of f (lookup "current" f.hands)

-- `whenActionRequestedFactInjected`.
unfoldable pub when_action_requested_fact_injected : FactFlow → Outcome
unfolding insert lookup
when_action_requested_fact_injected f =
    inject_into "TestPlayer" f (some (plain "test player not found"))
      (lookup "TestPlayer" f.players)

abbrev pub is_seated : String → MockTable → Bool
is_seated player_name table = elim (lookup player_name table.players) [
  | some sitting_out ↦ true
  | none ↦ false
]

-- The first table that the player is at, in the order of the range: the fact, and the tables with it injected there.
unfoldable pub inject_at_table :
    String → Bool → String → GoMap MockTable → Option (EventPage × GoMap MockTable)
unfolding insert lookup
inject_at_table player_name sitting_out type_name [] = none
inject_at_table player_name sitting_out type_name ((id, table) ∷ tables) =
    let later = inject_at_table player_name sitting_out type_name tables in
    if is_seated player_name table
    then some (
      fact_page table.sequence type_name,
      (id, injected_table player_name sitting_out type_name table) ∷ tables,
    )
    else elim later [ some (fact, rest) ↦ some (fact, (id, table) ∷ rest) | none ↦ none ]

abbrev pub at_table : String → FactFlow → Option (EventPage × GoMap MockTable) → Outcome
at_table player_name f none =
    (some (plain ("player " ⧺ player_name ⧺ " not found at any table")), f)
at_table player_name f (some (fact, tables)) = done (record f { tables = tables; fact = some fact })

-- `whenPlayerEmitsSittingOut`.
unfoldable pub when_player_emits_sitting_out : String → FactFlow → Outcome
unfolding inject_at_table
when_player_emits_sitting_out player_name f =
    at_table player_name f (inject_at_table player_name true "PlayerSatOut" f.tables)

-- `whenPlayerEmitsReturning`.
unfoldable pub when_player_emits_returning : String → FactFlow → Outcome
unfolding inject_at_table
when_player_emits_returning player_name f =
    at_table player_name f (inject_at_table player_name false "PlayerSatIn" f.tables)

abbrev pub cover_or_empty : Option Cover → Cover
cover_or_empty none = empty_cover
cover_or_empty (some cover) = cover

abbrev root_or : ProtoUuid → Option ProtoUuid → Option ProtoUuid
root_or fresh none = some fresh
root_or fresh (some root) = some root

abbrev text_or : String → String → String
text_or text fresh = if str_eq text "" then fresh else text

-- `whenFactConstructed`, with the three new UUIDs that it may use.
abbrev pub when_fact_constructed : ProtoUuid → (fresh other : String) → FactFlow → FactFlow
when_fact_constructed root fresh other f =
    let cover = cover_or_empty f.fact_cover in
    record f {
      fact_cover = some (record cover {
        root = root_or root cover.root;
        correlation_id = text_or cover.correlation_id other;
      });
      external_id = text_or f.external_id fresh;
    }

abbrev error_of_cover : Option Error → Option Cover → Option Error
error_of_cover prior none = prior
error_of_cover prior (some cover) =
    if str_eq cover.domain "nonexistent"
    then some (plain "domain not found: nonexistent")
    else prior

-- `whenSagaProcessesEvent`.
abbrev pub when_saga_processes_event : FactFlow → FactFlow
when_saga_processes_event f = record f { error = error_of_cover f.error f.fact_cover }

-- `whenFactInjectedTwice`.
abbrev pub when_fact_injected_twice : FactFlow → FactFlow
when_fact_injected_twice f = record f { injection_count = 2 }
