-- ===== src/Features/Facts/Injected.antt =====
-- The scenario of features/fact_flow.go in which a fact follows the events that a player has.
use angzarr_client_go.Prelude.{
  ℕ, ◌+◌, ◌<◌, ◌^◌, String, Option, none, some, ◌≡◌, refl, ap, ◌∙◌, arith, ◌==◌, ==_iff, eq_refl,
  lookup, insert, lookup-insert, if◌then◌else◌,
}
use angzarr_client_go.Errors.{Error, plain}
use angzarr_client_go.Helpers.Books.{u32}
use angzarr_client_go.Features.Format.{Format}
use angzarr_client_go.Features.Facts.{
  FactFlow, MockPlayer, injected_player, made_events, given_player_with_events, inject_into,
  when_action_requested_fact_injected,
}
use angzarr_client_go.Features.Facts.Checks.{
  then_fact_persisted_with_sequence, then_subsequent_events_from_sequence, check_sequence,
  check_next,
}

lookup-insert_same : {V : Type 0} (k : String) (v : V) (m : _) → lookup k (insert k v m) ≡ some v
lookup-insert_same k v m = lookup-insert k k v m ∙ rw (eq_refl k) refl

check_of_equal : (a b : ℕ) (e : Option Error) → a ≡ b → (if a == b then none else e) ≡ none
check_of_equal a b e same = rw ((==_iff a b).1 same) refl

u32_small : (n : ℕ) → n < 2 ^ 32 → u32 n ≡ n
u32_small n h = omega (arith, h)

-- A fact that is injected into a player with `n` events gets the number `n + 1`, and the next event
-- gets `n + 2`: both checks of the scenario pass, for every `n` whose numbers fit in 32 bits.
when_injected-checks :
    (format : Format) (fresh : String) (n : ℕ) (f : FactFlow)
    → n + 2 < 2 ^ 32
    → let (e, g) = when_action_requested_fact_injected (given_player_with_events fresh n f) in
      (e ≡ none)
      × (then_fact_persisted_with_sequence format (n + 1) g ≡ none)
      × (then_subsequent_events_from_sequence format (n + 2) g ≡ none)
unfolding when_action_requested_fact_injected given_player_with_events
    then_subsequent_events_from_sequence
when_injected-checks format fresh n f small = (
  ap (λ o. (inject_into "TestPlayer" before missing o).0) found,
  ap (λ o. check_sequence format (n + 1) (inject_into "TestPlayer" before missing o).1.fact) found
      ∙ check_of_equal (u32 (n + 1)) (n + 1) _ (u32_small (n + 1) (omega (arith, small))),
  ap
        (λ o.
          check_next format (n + 2)
            (lookup "TestPlayer" (inject_into "TestPlayer" before missing o).1.players))
        found
      ∙ ap (check_next format (n + 2))
          (lookup-insert_same "TestPlayer" (injected_player player) before.players)
      ∙ check_of_equal (u32 (u32 (n + 1) + 1)) (n + 2) _ (omega (arith, small)),
)
  where
    player : MockPlayer
    player = record {
      id = fresh;
      name = "TestPlayer";
      events = made_events n 0;
      sequence = u32 (n + 1);
    }

    before : FactFlow
    before = given_player_with_events fresh n f

    missing : Option Error
    missing = some (plain "test player not found")

    found : lookup "TestPlayer" before.players ≡ some player
    found = lookup-insert_same "TestPlayer" player f.players
