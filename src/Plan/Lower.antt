-- ===== src/Plan/Lower.antt =====
-- `lower` of src/plan.cpp: a logical plan becomes a physical one, and the filters above a scan become
-- its pruning predicate. A physical plan has a constructor for each kind; all have the schema and the
-- estimated rows.
pub mod Pruning
use vectorized_query_engine.Base.{ℕ, Bool, not, List, [], ◌∷◌}
use vectorized_query_engine.Base.Results.{Result, ok, err, invalid_argument, ◌>>=◌}
use vectorized_query_engine.Vector.Double.{le_double}
use vectorized_query_engine.Vector.Value.{Schema}
use vectorized_query_engine.Expression.{ExprKind, and, ExprPtr, missing, node, binary}
use vectorized_query_engine.Operators.{NamedExpression}
use vectorized_query_engine.Blocking.{AggregateSpec, SortKey}
use vectorized_query_engine.Plan.{
  Source, Plan, no_plan, scan, filter, project, aggregate, join, sort, limit, output_schema,
  Estimator, estimated_rows,
}

pub data PhysicalPlan : Type 0 where
  column_scan : Schema → ℕ → Source → List ℕ → ExprPtr → PhysicalPlan
  selection_filter : Schema → ℕ → PhysicalPlan → ExprPtr → PhysicalPlan
  vector_projection : Schema → ℕ → PhysicalPlan → List NamedExpression → PhysicalPlan
  hash_aggregate : Schema → ℕ → PhysicalPlan → List ℕ → List AggregateSpec → PhysicalPlan
  hash_join : Schema → ℕ → PhysicalPlan → PhysicalPlan → List ℕ → List ℕ → Bool → PhysicalPlan
  materialized_sort : Schema → ℕ → PhysicalPlan → List SortKey → PhysicalPlan
  limit_rows : Schema → ℕ → PhysicalPlan → ℕ → PhysicalPlan

abbrev pub rows : PhysicalPlan → ℕ
rows (column_scan s n source columns e) = n
rows (selection_filter s n p e) = n
rows (vector_projection s n p es) = n
rows (hash_aggregate s n p keys aggs) = n
rows (hash_join s n l r keys right_keys build_right) = n
rows (materialized_sort s n p keys) = n
rows (limit_rows s n p k) = n

-- The predicate of a scan with one filter more above it.
abbrev pub conjoin : ExprPtr → ExprPtr → ExprPtr
conjoin missing e = e
conjoin pruning e = binary and pruning e

-- The scan below a chain of filters takes the predicate; nothing else does.
unfoldable pub add_pruning : PhysicalPlan → ExprPtr → PhysicalPlan
add_pruning (column_scan s n source columns pruning) e =
    column_scan s n source columns (conjoin pruning e)
add_pruning (selection_filter s n p f) e = selection_filter s n (add_pruning p e) f
add_pruning p e = p

unfoldable pub lower : Estimator → Plan → Result PhysicalPlan
unfolding add_pruning
lower m no_plan = err invalid_argument
lower m (scan source columns) = do
  s ← output_schema (scan source columns)
  n ← estimated_rows m (scan source columns)
  ok (column_scan s n source columns missing)
lower m (filter p e) = do
  s ← output_schema (filter p e)
  n ← estimated_rows m (filter p e)
  l ← lower m p
  ok (selection_filter s n (add_pruning l e) e)
lower m (project p es) = do
  s ← output_schema (project p es)
  n ← estimated_rows m (project p es)
  l ← lower m p
  ok (vector_projection s n l es)
lower m (aggregate p keys aggs) = do
  s ← output_schema (aggregate p keys aggs)
  n ← estimated_rows m (aggregate p keys aggs)
  l ← lower m p
  ok (hash_aggregate s n l keys aggs)
lower m (join l r keys right_keys) = do
  s ← output_schema (join l r keys right_keys)
  n ← estimated_rows m (join l r keys right_keys)
  a ← lower m l
  b ← lower m r
  ok (hash_join s n a b keys right_keys (le_double (rows b) (rows a)))
lower m (sort p keys) = do
  s ← output_schema (sort p keys)
  n ← estimated_rows m (sort p keys)
  l ← lower m p
  ok (materialized_sort s n l keys)
lower m (limit p k) = do
  s ← output_schema (limit p k)
  n ← estimated_rows m (limit p k)
  l ← lower m p
  ok (limit_rows s n l k)
