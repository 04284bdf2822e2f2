-- ===== src/Operators/Scan.antt =====
-- Class Scan of include/vqe/operators.hpp and src/operators.cpp: the row groups of a table, cut into
-- batches, without the groups that the statistics rule out.
pub mod Rounds
use vectorized_query_engine.Base.{
  ℕ, zero, suc, ◌+◌, ◌-◌, min, Bool, false, not, ◌&&◌, ◌||◌, List, [], ◌∷◌, ltb, ◌==◌, get_elem?,
  none, some, length, if◌then◌else◌,
}
use vectorized_query_engine.Base.Results.{
  Result, ok, err, invalid_argument, out_of_range, throw_if, ◌>>=◌, ◌>>◌,
}
use vectorized_query_engine.Vector.Value.{Schema, boolean, type_eq, column_index, validate_schema}
use vectorized_query_engine.Vector.Selection.{max_batch_size}
use vectorized_query_engine.Vector.Column.{Column, append_range}
use vectorized_query_engine.Vector.Batch
use vectorized_query_engine.Vector.Batch.{Batch}
use vectorized_query_engine.Expression.{ExprPtr, missing, expression_type}
use vectorized_query_engine.Statistics.{may_match}
use vectorized_query_engine.Operators.{Table, prepare, select_schema}
use vectorized_query_engine.Hash.{column_at}

pub record Scan : Type 0 where
  pub table : Table
  pub schema : Schema
  pub batch_size : ℕ
  pub indices : List ℕ
  pub predicate : ExprPtr

pub record Cursor : Type 0 where
  pub group : ℕ
  pub row : ℕ
  pub read : ℕ
  pub skipped : ℕ

unfoldable pub column_indices : Schema → List ℕ → Result (List ℕ)
column_indices s [] = ok []
column_indices s (id ∷ ids) = do i ← column_index s id; rest ← column_indices s ids; ok (i ∷ rest)

-- The check of the pruning predicate, where there is one.
abbrev pub check_predicate : ExprPtr → Schema → Result (Unit {0})
check_predicate missing s = ok tt
check_predicate e s = do
  t ← expression_type e s
  throw_if (not (type_eq t boolean)) invalid_argument

-- The constructor of the base class Operator.
unfoldable pub check_operator : Schema → ℕ → Result (Unit {0})
check_operator schema batch_size = do
  validate_schema schema
  throw_if (batch_size == 0 || ltb max_batch_size batch_size) invalid_argument

unfoldable pub new : Table → List ℕ → ℕ → ExprPtr → Result Scan
new t ids batch_size e = do
  schema ← select_schema t.schema ids
  check_operator schema batch_size
  check_predicate e t.schema
  is ← column_indices t.schema ids
  ok (record { table = t; schema = schema; batch_size = batch_size; indices = is; predicate = e })

-- Each output column takes the range of the group's column of its index.
unfoldable pub copy_columns : List Column → List Column → List ℕ → ℕ → ℕ → Result (List Column)
copy_columns (c ∷ cs) source (i ∷ is) start count = do
  d ← column_at source i
  c' ← append_range false c d start count
  rest ← copy_columns cs source is start count
  ok (c' ∷ rest)
copy_columns cs source is start count = ok cs

abbrev pub element {ℓ} : {A : Type ℓ} → List A → ℕ → Result A
element xs i = elim (get_elem? xs i) [ none ↦ err out_of_range | some x ↦ ok x ]

-- The state of the loop: the cursor, the output's columns and its row count n.
pub record Progress : Type 0 where
  pub cursor : Cursor
  pub columns : List Column
  pub filled : ℕ

-- The second half of a round: rows of the current group are copied.
unfoldable pub take_rows : Scan → ℕ → Progress → Result Progress
take_rows scan capacity p = do
  b ← element scan.table.groups p.cursor.group
  let count = min (b.physical_size - p.cursor.row) (capacity - p.filled)
  cs ← copy_columns p.columns b.columns scan.indices p.cursor.row count
  let row = p.cursor.row + count
  let moved : Cursor =
      (if row == b.physical_size
        then record p.cursor { row = 0; group = p.cursor.group + 1 }
        else record p.cursor { row = row })
  ok (record { cursor = moved; columns = cs; filled = p.filled + count })

abbrev pub skip_group : Progress → Progress
skip_group p = record p {
  cursor = record p.cursor { group = p.cursor.group + 1; skipped = p.cursor.skipped + 1 };
}

abbrev pub read_group : Progress → Progress
read_group p = record p { cursor = record p.cursor { read = p.cursor.read + 1 } }

-- One round: at a group's first row the statistics decide.
unfoldable pub round : Scan → ℕ → Progress → Result Progress
unfolding take_rows
round scan capacity p =
    if p.cursor.row == 0
    then (do
      stats ← element scan.table.group_statistics p.cursor.group
      possible ← may_match scan.predicate scan.table.schema stats
      if possible then take_rows scan capacity (read_group p) else ok (skip_group p))
    else take_rows scan capacity p

-- `while (n < out.capacity && group_ < groups.size())`: a round passes to the next group or fills the
-- batch, so one round for each group and one more are enough.
unfoldable pub rounds : ℕ → Scan → ℕ → Progress → Result Progress
unfolding round
rounds zero scan capacity p = ok p
rounds (suc fuel) scan capacity p =
    if ltb p.filled capacity && ltb p.cursor.group (length scan.table.groups)
    then (do p' ← round scan capacity p; rounds fuel scan capacity p')
    else ok p

-- The flag, the cursor and the batch.
unfoldable pub next : Scan → Cursor → Batch → Result (Bool × Cursor × Batch)
unfolding rounds
next scan cursor out = do
  ready ← prepare scan.schema scan.batch_size out
  let start : Progress = record { cursor = cursor; columns = ready.columns; filled = 0 }
  p ← rounds (length scan.table.groups + 1) scan ready.capacity start
  done ← Batch.finish (record ready { columns = p.columns }) p.filled
  ok (not (p.filled == 0), p.cursor, done)
