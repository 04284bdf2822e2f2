-- ===== src/Operators.antt =====
-- include/vqe/operators.hpp and src/operators.cpp, with Limit of src/blocking.cpp: tables and the
-- operators that pull one batch at a time. A child operator is a state and its `next`, which yields
-- the flag it returns, its new state and the batch that it was given to fill.
pub mod Scan
pub mod Rows
pub mod Limit
use vectorized_query_engine.Base.{
  ℕ, zero, suc, ◌+◌, ◌-◌, min, Bool, true, false, not, ◌&&◌, ◌||◌, Option, none, some, List, [],
  ◌∷◌, ◌++◌, ltb, leb, ◌==◌, get_or, length, map, if◌then◌else◌,
}
use vectorized_query_engine.Base.Results.{
  Result, ok, err, invalid_argument, logic_error, throw_if, ◌>>=◌, ◌>>◌,
}
use vectorized_query_engine.Vector.Value.{
  Field, Schema, validate_schema, type_eq, boolean, column_index,
}
use vectorized_query_engine.Vector.Selection
use vectorized_query_engine.Vector.Selection.{Selection, max_batch_size}
use vectorized_query_engine.Vector.Validity
use vectorized_query_engine.Vector.Column
use vectorized_query_engine.Vector.Column.{Column, append_from, append_range}
use vectorized_query_engine.Vector.Batch
use vectorized_query_engine.Vector.Batch.{Batch}
use vectorized_query_engine.Expression.{ExprPtr, missing, expression_type, eq_text}
use vectorized_query_engine.Expression.Evaluator.{Setting, evaluate, byte_data, is_true, active}
use vectorized_query_engine.Statistics.{
  Statistics, ColumnStatistics, no_statistics, analyze, merge_statistics,
}
use vectorized_query_engine.Hash.{column_at}

-- Class Table: row groups, each with the statistics of its columns.
pub record Table : Type 0 where
  pub schema : Schema
  pub groups : List Batch
  pub rows : ℕ
  pub statistics : Statistics
  pub group_statistics : List Statistics

unfoldable pub new_table : Schema → Result Table
new_table s = do
  validate_schema s
  ok (record {
    schema = s;
    groups = [];
    rows = 0;
    statistics = map (λ f. no_statistics) s;
    group_statistics = [];
  })

-- Types and IDs agree, column by column. (The two schemas have one length.)
unfoldable pub same_columns : Schema → Schema → Bool
same_columns (f ∷ s) (g ∷ t) = type_eq f.type g.type && f.id == g.id && same_columns s t
same_columns s t = true

unfoldable pub append_rows : Batch → Batch → List ℕ → Result Batch
append_rows dense b [] = ok dense
append_rows dense b (i ∷ rows) = do dense' ← Batch.append_row dense b i; append_rows dense' b rows

unfoldable pub append_table : Table → Batch → Result Table
append_table t b = do
  Batch.validate b
  throw_if (not (length b.schema == length t.schema)) invalid_argument
  throw_if (not (same_columns b.schema t.schema)) invalid_argument
  if Batch.size b == 0 then ok t else do
    blank ← Batch.new t.schema b.capacity
    filled ← append_rows blank b (active b)
    dense ← Batch.finish filled (Batch.size b)
    stats ← analyze dense
    merged ← merge_statistics t.statistics stats
    ok (record {
      schema = t.schema;
      groups = t.groups ++ dense ∷ [];
      rows = t.rows + Batch.size b;
      statistics = merged;
      group_statistics = t.group_statistics ++ stats ∷ [];
    })

unfoldable pub all_ids : Schema → List ℕ
all_ids s = map (λ f. f.id) s

-- `s[column_index(s, id)]`
unfoldable pub field_of : Schema → ℕ → Result Field
field_of [] id = err invalid_argument
field_of (f ∷ s) id = if f.id == id then ok f else field_of s id

unfoldable pub select_schema : Schema → List ℕ → Result Schema
unfolding field_of
select_schema s [] = ok []
select_schema s (id ∷ ids) = do f ← field_of s id; rest ← select_schema s ids; ok (f ∷ rest)

unfoldable pub same_fields : Schema → Schema → Bool
same_fields (f ∷ s) (g ∷ t) =
    f.id == g.id && type_eq f.type g.type && eq_text f.name g.name && same_fields s t
same_fields s t = true

-- `Operator::prepare`, for an operator of this schema and batch size
unfoldable pub prepare : Schema → ℕ → Batch → Result Batch
prepare s batch_size b =
    if length b.schema == length s && b.capacity == batch_size && same_fields s b.schema
    then Batch.reset b
    else Batch.new s batch_size

-- The loop of `Filter::next` over the rows of a batch: p is the predicate's column.
unfoldable pub filter_rows : Column → List ℕ → Selection → Result Selection
filter_rows p [] selected = ok selected
filter_rows p (i ∷ rows) selected = do
  keep ← (if Validity.valid p.validity i then (byte_data p >>= λ d. ok (is_true d i)) else ok false)
  selected' ← (if keep then Selection.push selected i else ok selected)
  filter_rows p rows selected'

-- One round of `Filter::next`: the batch keeps the rows whose predicate is true.
unfoldable pub filter_batch :
    Setting → ExprPtr → Schema → Batch → Selection → Result (Batch × Selection)
filter_batch g predicate s out selected = do
  p ← evaluate g predicate s out
  kept ← filter_rows p (active out) (Selection.clear selected)
  ok (record out { selection = kept }, out.selection)

pub record NamedExpression : Type 0 where
  pub field : Field
  pub expression : ExprPtr

unfoldable pub projection_fields : List NamedExpression → Schema → Result Schema
projection_fields [] input = ok []
projection_fields (e ∷ es) input = do
  t ← expression_type e.expression input
  throw_if (not (type_eq t e.field.type)) invalid_argument
  rest ← projection_fields es input
  ok (e.field ∷ rest)

unfoldable pub projection_schema : List NamedExpression → Schema → Result Schema
unfolding projection_fields
projection_schema es input = do out ← projection_fields es input; validate_schema out; ok out

unfoldable pub append_selected : Column → Column → List ℕ → Result Column
append_selected c v [] = ok c
append_selected c v (i ∷ rows) = do c' ← append_from c v i; append_selected c' v rows

-- The loop of `Projection::next` over the expressions and the output columns.
unfoldable pub project_columns :
    Setting → List NamedExpression → Schema → Batch → List Column → Result (List Column)
unfolding append_selected
project_columns g (e ∷ es) s input (c ∷ cs) = do
  v ← evaluate g e.expression s input
  c' ← append_selected c v (active input)
  rest ← project_columns g es s input cs
  ok (c' ∷ rest)
project_columns g es s input cs = ok cs

-- What an operator pulls from: the `next` of its child.
abbrev pub Next : Type 0 → Type 0
Next S = S → Batch → Result (Bool × S × Batch)

module _ {S : Type 0} (child : Next S) where
  -- `Filter::next`. No answer (`none`) is a child that has gone on for `fuel` batches.
  unfoldable pub filter_next :
      ℕ
      → Setting
      → ExprPtr
      → Schema
      → S
      → Batch
      → Selection
      → Result (Option (Bool × S × Batch × Selection))
  unfolding filter_batch
  filter_next zero g predicate s st out selected = ok none
  filter_next (suc fuel) g predicate s st out selected = do
    pulled ← child st out
    if not pulled.0 then ok (some (false, pulled.1, pulled.2, selected)) else do
      kept ← filter_batch g predicate s pulled.2 selected
      let later = filter_next fuel g predicate s pulled.1 kept.0 kept.1
      if Batch.size kept.0 == 0 then later else ok (some (true, pulled.1, kept.0, kept.1))

  -- `Projection::next`, with its own batch `input`: the flag, the child, the input and the output.
  unfoldable pub projection_next :
      Setting
      → List NamedExpression
      → Schema
      → Schema
      → ℕ
      → S
      → Batch
      → Batch
      → Result (Bool × S × Batch × Batch)
  unfolding project_columns
  projection_next g es child_schema schema batch_size st input out = do
    ready ← prepare schema batch_size out
    pulled ← child st input
    if not pulled.0 then ok (false, pulled.1, pulled.2, ready) else do
      cs ← project_columns g es child_schema pulled.2 ready.columns
      done ← Batch.finish (record ready { columns = cs }) (Batch.size pulled.2)
      ok (true, pulled.1, pulled.2, done)

  -- `Limit::next`: the flag, the rows that remain, the child and the batch.
  unfoldable pub limit_next : Schema → ℕ → ℕ → S → Batch → Result (Bool × ℕ × S × Batch)
  limit_next schema batch_size remaining st out =
      if remaining == 0
      then (do ready ← prepare schema batch_size out; ok (false, remaining, st, ready))
      else (do
        pulled ← child st out
        if not pulled.0 then ok (false, remaining, pulled.1, pulled.2) else do
          cut ← Selection.truncate pulled.2.selection (min remaining (Batch.size pulled.2))
          let out' : Batch = record pulled.2 { selection = cut }
          ok (not (Batch.size out' == 0), remaining - Batch.size out', pulled.1, out'))

  -- `collect`. No answer (`none`) is an operator that has gone on for `fuel` batches.
  unfoldable pub collect : ℕ → S → Batch → Result (Option (List Batch))
  collect zero st b = ok none
  collect (suc fuel) st b = do
    pulled ← child st b
    if not pulled.0 then ok (some []) else do
      Batch.validate pulled.2
      rest ← collect fuel pulled.1 pulled.2
      ok (elim rest [ none ↦ none | some bs ↦ some (pulled.2 ∷ bs) ])
