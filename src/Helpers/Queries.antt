-- ===== src/Helpers/Queries.antt =====
-- The query constructors of helpers.go.
use angzarr_client_go.Prelude.{ℕ, String, Option}
use angzarr_client_go.Proto.{
  Timestamp, Cover, Query, Selection, TemporalQuery, as_of_sequence, as_of_time,
}
use angzarr_client_go.Errors.{Error, Result, ok, err, invalid_timestamp_error}

-- `RangeSelection`.
abbrev range_selection : ℕ → Option ℕ → Selection
range_selection lower upper = Selection.range (record { lower = lower; upper = upper })

-- `NewQueryWithRange`.
abbrev new_query_with_range : Option Cover → ℕ → Option ℕ → Query
new_query_with_range cover lower upper = record {
  cover = cover;
  selection = range_selection lower upper;
}

-- `NewQueryWithTemporal`.
abbrev new_query_with_temporal : Option Cover → TemporalQuery → Query
new_query_with_temporal cover temporal = record {
  cover = cover;
  selection = Selection.temporal temporal;
}

-- `TemporalSelectionBySequence`.
abbrev temporal_selection_by_sequence : ℕ → Selection
temporal_selection_by_sequence seq =
    Selection.temporal (record { point_in_time = as_of_sequence seq })

-- `TemporalSelectionByTime`.
abbrev temporal_selection_by_time : Timestamp → Selection
temporal_selection_by_time ts = Selection.temporal (record { point_in_time = as_of_time ts })

-- `ParseTimestamp`: `time.Parse` with the RFC 3339 layout is the parameter, whose error's text is kept.
abbrev parse_timestamp : (Error → String) → (String → Result Timestamp) → String → Result Timestamp
parse_timestamp error_text time_parse rfc3339 = elim (time_parse rfc3339) [
  | ok t ↦ ok t
  | err e ↦ err (invalid_timestamp_error (error_text e))
]
