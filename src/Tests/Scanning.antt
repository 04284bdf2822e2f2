-- ===== src/Tests/Scanning.antt =====
-- The theorem on the loop of Scan, at a table of one group of four rows and no column.
use vectorized_query_engine.Base.{◌≡◌, refl, false, [], ◌∷◌, ◌&&◌, ltb, length, arith}
use vectorized_query_engine.Base.Results.{ok}
use vectorized_query_engine.Expression.{missing}
use vectorized_query_engine.Statistics.{may_match}
use vectorized_query_engine.Operators.{Table}
use vectorized_query_engine.Operators.Scan.{Scan, Progress, copy_columns, take_rows, round, rounds}
use vectorized_query_engine.Operators.Scan.Rounds.{rounds-enough}
use vectorized_query_engine.Tests.Pruning.{batch}

abbrev table : Table
table = record {
  schema = [];
  groups = batch ∷ [];
  rows = 4;
  statistics = [];
  group_statistics = [] ∷ [];
}

abbrev scan : Scan
scan = record { table = table; schema = []; batch_size = 8; indices = []; predicate = missing }

abbrev start : Progress
start = record {
  cursor = record { group = 0; row = 0; read = 0; skipped = 0 };
  columns = [];
  filled = 0;
}

abbrev end : Progress
end = record {
  cursor = record { group = 1; row = 0; read = 1; skipped = 0 };
  columns = [];
  filled = 4;
}

run : rounds 2 scan 8 start ≡ ok end
unfolding rounds round take_rows copy_columns may_match
run = refl

rounds-enough_example : (ltb end.filled 8 && ltb end.cursor.group (length table.groups)) ≡ false
rounds-enough_example = rounds-enough 2 scan 8 start end (omega arith) (λ b e. omega arith) run
