-- ===== src/Builder/Queries.antt =====
-- `QueryBuilder.Build` of builder.go.
use angzarr_client_go.Prelude.{ℕ, Option, none, some, ◌≡◌, refl}
use angzarr_client_go.Errors.{Error}
use angzarr_client_go.Helpers.Uuid.{UuidLib}
use angzarr_client_go.Builder.{QueryBuilder, build_query, query_checked, range_to, as_of_seq}

-- A range is selected whatever point in time is asked for, before or after it.
build_query-range :
    {lib : UuidLib} (b : QueryBuilder lib) (lower upper seq : ℕ)
    → (build_query (range_to (as_of_seq b seq) lower upper)
        ≡ build_query (as_of_seq (range_to b lower upper) seq))
      × (build_query (as_of_seq (range_to b lower upper) seq)
          ≡ build_query (range_to b lower upper))
unfolding build_query
build_query-range b lower upper seq = (refl, go b.error)
  where
    go :
        (o : Option Error)
        → query_checked (as_of_seq (range_to b lower upper) seq) o
          ≡ query_checked (range_to b lower upper) o
    go none = refl
    go (some e) = refl
