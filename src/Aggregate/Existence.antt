-- ===== src/Aggregate/Existence.antt =====
-- `CommandHandlerBase.Exists` of aggregate_oo.go.
use angzarr_client_go.Prelude.{true, false, not, ◌≡◌, is_empty}
use angzarr_client_go.Aggregate.{Data, Registry, exists}

module _ {S M : Type 0} (reg : Registry S M) (d : Data S) where
  -- Before the state is first read, `Exists` is false whatever events the book holds: reading the
  -- state has cleared them.
  pub exists_before_state : d.state_set ≡ false → (exists reg d).1 ≡ false
  unfolding exists
  exists_before_state unset = rw unset

  -- Once the state is built, `Exists` is true exactly where events were recorded since.
  pub exists_after_state : d.state_set ≡ true → (exists reg d).1 ≡ not (is_empty d.event_book.pages)
  unfolding exists
  exists_after_state built = rw built
