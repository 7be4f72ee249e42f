-- ===== src/Features/Facts/Numbering.antt =====
-- The numbers of the events in the simulated aggregates of features/fact_flow.go.
use mathlib.Core.Path.{subst}
use angzarr_client_go.Prelude.{
  ℕ, ◌+◌, String, Option, none, some, Bool, true, false, [], ◌∷◌, ◌≡◌, refl, sym, ap, if◌then◌else◌,
  Option-cases, inl, inr, GoMap, lookup, insert,
}
use angzarr_client_go.Proto.{EventPage}
use angzarr_client_go.Errors.{Error}
use angzarr_client_go.Helpers.Books.{u32}
use angzarr_client_go.Features.Facts.{
  MockPlayer, MockTable, MockHand, FactFlow, new_fact_flow_context, fact_page, injected_player,
  injected_table, given_player_with_events, registered, given_registered_player, table_or_new, seat,
  given_player_seated_at_table, given_player_sitting_out_at_table, inject_into, turn_of,
  when_saga_processes_turn_change, when_action_requested_fact_injected, is_seated, inject_at_table,
  at_table, when_player_emits_sitting_out, when_player_emits_returning,
}
use angzarr_client_go.Features.Facts.Scenario.{
  Step, registered_player, hand_in_progress, player_with_events, player_seated, player_sitting_out,
  saga_that_emits, saga_emits_to, fact_with_external_id, saga_processes_turn_change,
  action_requested_injected, player_emits_sitting_out, player_emits_returning, fact_constructed,
  saga_processes_event, fact_injected_twice, step, ◌⟶◌, taken, swapped, ◌⟶*◌, here, onward,
}
use angzarr_client_go.Features.Facts.Streams.{
  IsStream, Values, Values-insert, Values-lookup, Values-swapped, IsStream-inject,
  made_events-IsNumbered, length-made_events,
}

-- Every player's and every table's events are so numbered.
pub record IsOrderly (f : FactFlow) : Type 0 where
  pub players_orderly : Values (λ (p : MockPlayer). IsStream p.events p.sequence) f.players
  pub tables_orderly : Values (λ (t : MockTable). IsStream t.events t.sequence) f.tables

abbrev Players : GoMap MockPlayer → Type 0
Players = Values (λ (p : MockPlayer). IsStream p.events p.sequence)

abbrev Tables : GoMap MockTable → Type 0
Tables = Values (λ (t : MockTable). IsStream t.events t.sequence)

given_player_with_events-IsOrderly :
    (fresh : String) (n : ℕ) (f : FactFlow)
    → IsOrderly f
    → IsOrderly (given_player_with_events fresh n f)
unfolding given_player_with_events
given_player_with_events-IsOrderly fresh n f h = record {
  players_orderly =
      Values-insert (λ (p : MockPlayer). IsStream p.events p.sequence) "TestPlayer" _ f.players
        (record {
          numbered = made_events-IsNumbered n 0;
          next = ap (λ k. u32 (k + 1)) (sym (length-made_events n 0));
        })
        h.players_orderly;
  tables_orderly = h.tables_orderly;
}

given_registered_player-IsOrderly :
    (fresh name : String) (f : FactFlow)
    → IsOrderly f
    → IsOrderly (given_registered_player fresh name f)
given_registered_player-IsOrderly fresh name f h = record {
  players_orderly =
      Values-insert (λ (p : MockPlayer). IsStream p.events p.sequence) name
        (record { id = fresh; name = name; events = []; sequence = 1 }) f.players
        (record { numbered = tt; next = refl }) h.players_orderly;
  tables_orderly = h.tables_orderly;
}

registered-IsOrderly :
    (fresh name : String) (f : FactFlow) (o : Option MockPlayer)
    → IsOrderly f
    → IsOrderly (registered fresh name f o)
registered-IsOrderly fresh name f none h = given_registered_player-IsOrderly fresh name f h
registered-IsOrderly fresh name f (some player) h = h

table_or_new-IsStream :
    (id : String) (m : GoMap MockTable)
    → Tables m
    → IsStream (table_or_new id (lookup id m)).events (table_or_new id (lookup id m)).sequence
table_or_new-IsStream id m h = elim (Option-cases (lookup id m)) [
  | inl missing ↦
      subst (λ o. IsStream (table_or_new id o).events (table_or_new id o).sequence) (sym missing)
        (record { numbered = tt; next = refl })
  | inr (table, found) ↦
      subst (λ o. IsStream (table_or_new id o).events (table_or_new id o).sequence) (sym found)
        (Values-lookup (λ (t : MockTable). IsStream t.events t.sequence) id table m h found)
]

seat-IsOrderly :
    (id name : String) (out : Bool) (f : FactFlow) → IsOrderly f → IsOrderly (seat id name out f)
seat-IsOrderly id name out f h = record {
  players_orderly = h.players_orderly;
  tables_orderly =
      let table = table_or_new id (lookup id f.tables) in
      Values-insert (λ (t : MockTable). IsStream t.events t.sequence) id
        (record table { players = insert name out table.players }) f.tables
        (table_or_new-IsStream id f.tables h.tables_orderly) h.tables_orderly;
}

seated-IsOrderly :
    (fresh name id : String) (f : FactFlow)
    → IsOrderly f
    → IsOrderly (given_player_seated_at_table fresh name id f)
unfolding given_player_seated_at_table
seated-IsOrderly fresh name id f h =
    seat-IsOrderly id name false _ (registered-IsOrderly fresh name f (lookup name f.players) h)

sitting_out-IsOrderly :
    (fresh name id : String) (f : FactFlow)
    → IsOrderly f
    → IsOrderly (given_player_sitting_out_at_table fresh name id f)
unfolding given_player_sitting_out_at_table
sitting_out-IsOrderly fresh name id f h =
    seat-IsOrderly id name true (given_player_seated_at_table fresh name id f)
      (seated-IsOrderly fresh name id f h)

inject_into-IsOrderly :
    (name : String) (f : FactFlow) (missing : Option Error)
    → IsOrderly f
    → IsOrderly (inject_into name f missing (lookup name f.players)).1
inject_into-IsOrderly name f missing h = elim (Option-cases (lookup name f.players)) [
  | inl e ↦ subst (λ o. IsOrderly (inject_into name f missing o).1) (sym e) h
  | inr (player, e) ↦
      subst (λ o. IsOrderly (inject_into name f missing o).1) (sym e)
        (record {
          players_orderly =
              let P = λ (p : MockPlayer). IsStream p.events p.sequence in
              Values-insert P name (injected_player player) f.players
                (IsStream-inject player.events player.sequence "ActionRequested"
                  (Values-lookup P name player f.players h.players_orderly e))
                h.players_orderly;
          tables_orderly = h.tables_orderly;
        })
]

turn_of-IsOrderly : (f : FactFlow) (o : Option MockHand) → IsOrderly f → IsOrderly (turn_of f o).1
turn_of-IsOrderly f none h = h
turn_of-IsOrderly f (some hand) h = inject_into-IsOrderly hand.current_turn f _ h

abbrev InjectedTables : Option (EventPage × GoMap MockTable) → Type 0
InjectedTables none = Unit
InjectedTables (some (fact, tables)) = Tables tables

if-InjectedTables :
    (b : Bool) (now later : Option (EventPage × GoMap MockTable))
    → InjectedTables now
    → InjectedTables later
    → InjectedTables (if b then now else later)
if-InjectedTables true now later h k = h
if-InjectedTables false now later h k = k

inject_at_table-Tables :
    (name : String) (out : Bool) (type_name : String) (m : GoMap MockTable)
    → Tables m
    → InjectedTables (inject_at_table name out type_name m)
unfolding inject_at_table
inject_at_table-Tables name out type_name [] h = tt
inject_at_table-Tables name out type_name ((id, table) ∷ m) (ht, hm) =
    if-InjectedTables (is_seated name table)
      (some (fact_page table.sequence type_name, (id, injected_table name out type_name table) ∷ m))
      _ (IsStream-inject table.events table.sequence type_name ht, hm)
      (behind (inject_at_table name out type_name m)
        (inject_at_table-Tables name out type_name m hm))
  where
    behind :
        (o : Option (EventPage × GoMap MockTable))
        → InjectedTables o
        → InjectedTables
            (elim o [ some (fact, rest) ↦ some (fact, (id, table) ∷ rest) | none ↦ none ])
    behind none h = tt
    behind (some (fact, rest)) h = (ht, h)

at_table-IsOrderly :
    (name : String) (f : FactFlow) (o : Option (EventPage × GoMap MockTable))
    → IsOrderly f
    → InjectedTables o
    → IsOrderly (at_table name f o).1
at_table-IsOrderly name f none h t = h
at_table-IsOrderly name f (some (fact, tables)) h t = record {
  players_orderly = h.players_orderly;
  tables_orderly = t;
}

-- A step that writes neither map.
untouched :
    (f g : FactFlow) → IsOrderly f → g.players ≡ f.players → g.tables ≡ f.tables → IsOrderly g
untouched f g h players tables = record {
  players_orderly = subst Players (sym players) h.players_orderly;
  tables_orderly = subst Tables (sym tables) h.tables_orderly;
}

step-IsOrderly : (s : Step) (f : FactFlow) → IsOrderly f → IsOrderly (step s f).1
unfolding step when_saga_processes_turn_change when_action_requested_fact_injected
    when_player_emits_sitting_out when_player_emits_returning
step-IsOrderly (registered_player fresh name) f h = given_registered_player-IsOrderly fresh name f h
step-IsOrderly (player_with_events fresh n) f h = given_player_with_events-IsOrderly fresh n f h
step-IsOrderly (player_seated fresh name id) f h = seated-IsOrderly fresh name id f h
step-IsOrderly (player_sitting_out fresh name id) f h = sitting_out-IsOrderly fresh name id f h
step-IsOrderly saga_processes_turn_change f h = turn_of-IsOrderly f (lookup "current" f.hands) h
step-IsOrderly action_requested_injected f h = inject_into-IsOrderly "TestPlayer" f _ h
step-IsOrderly (player_emits_sitting_out name) f h =
    at_table-IsOrderly name f _ h
      (inject_at_table-Tables name true "PlayerSatOut" f.tables h.tables_orderly)
step-IsOrderly (player_emits_returning name) f h =
    at_table-IsOrderly name f _ h
      (inject_at_table-Tables name false "PlayerSatIn" f.tables h.tables_orderly)
step-IsOrderly (hand_in_progress fresh name) f h = untouched f _ h refl refl
step-IsOrderly (saga_that_emits fresh) f h = untouched f _ h refl refl
step-IsOrderly (saga_emits_to domain) f h = untouched f _ h refl refl
step-IsOrderly (fact_with_external_id id) f h = untouched f _ h refl refl
step-IsOrderly (fact_constructed root fresh other) f h = untouched f _ h refl refl
step-IsOrderly saga_processes_event f h = untouched f _ h refl refl
step-IsOrderly fact_injected_twice f h = untouched f _ h refl refl

-- In every context that a scenario reaches, each player's and each table's events are numbered from
-- one without a gap, and its sequence is the number of the next event, modulo 2^32 as the sources
-- count; a range may meet the tables in any order.
pub reachable-IsOrderly : (f : FactFlow) → new_fact_flow_context ⟶* f → IsOrderly f
reachable-IsOrderly f path =
    from new_fact_flow_context f path (record { players_orderly = tt; tables_orderly = tt })
  where
    one : (f g : FactFlow) → f ⟶ g → IsOrderly f → IsOrderly g
    one f g (taken s) h = step-IsOrderly s f h
    one f g (swapped before x y after same) h = record {
      players_orderly = h.players_orderly;
      tables_orderly =
          Values-swapped (λ (t : MockTable). IsStream t.events t.sequence) before x y after
            (subst Tables same h.tables_orderly);
    }

    from : (f g : FactFlow) → f ⟶* g → IsOrderly f → IsOrderly g
    from f g here h = h
    from f g (onward {g = mid} now later) h = from mid g later (one f mid now h)
