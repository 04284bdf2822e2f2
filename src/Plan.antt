-- ===== src/Plan.antt =====
-- include/vqe/plan.hpp and src/plan.cpp: logical plans, their schemas and the estimates that guide
-- the optimizer. A plan has a constructor for each kind, with the fields that the kind uses; the
-- others keep their initialisers.
pub mod Simplify
pub mod Rewrite
pub mod Prune
pub mod Lower
use vectorized_query_engine.Base.{
  ℕ, ◌+◌, ◌*◌, Bool, true, false, not, ◌||◌, ◌&&◌, Option, none, some, List, [], ◌∷◌, ◌++◌, ◌==◌,
  length, map, if◌then◌else◌, get_elem?,
}
use vectorized_query_engine.Base.Results.{
  Result, ok, err, invalid_argument, logic_error, out_of_range, throw_if, ◌>>=◌, ◌>>◌,
}
use vectorized_query_engine.Vector.Double.{Arithmetic, lt_double}
use vectorized_query_engine.Vector.Value.{
  DataType, boolean, Field, Schema, type_eq, validate_schema, contains, column_index,
}
use vectorized_query_engine.Expression.{ExprPtr, expression_type}
use vectorized_query_engine.Statistics.{ColumnStatistics, Statistics}
use vectorized_query_engine.Operators.{
  NamedExpression, projection_schema, field_of, select_schema, all_ids,
}
use vectorized_query_engine.Operators.Scan.{element}
use vectorized_query_engine.Blocking.{AggregateSpec, SortKey, aggregate_schema}

-- The metadata of a source; what its scan yields is the table's concern.
pub record Source : Type 0 where
  pub schema : Schema
  pub statistics : Statistics
  pub row_count : ℕ
  pub name : List ℕ

pub data Plan : Type 0 where
  no_plan : Plan
  scan : Source → List ℕ → Plan
  filter : Plan → ExprPtr → Plan
  project : Plan → List NamedExpression → Plan
  aggregate : Plan → List ℕ → List AggregateSpec → Plan
  join : Plan → Plan → List ℕ → List ℕ → Plan
  sort : Plan → List SortKey → Plan
  limit : Plan → ℕ → Plan

-- `logical::scan`: every column
abbrev pub scan_all : Source → Plan
scan_all source = scan source (all_ids source.schema)

-- The keys of a join have equal types, one by one. (The two lists have one length.)
unfoldable pub check_keys : Schema → Schema → List ℕ → List ℕ → Result (Unit {0})
check_keys s r (k ∷ keys) (j ∷ right_keys) = do
  f ← field_of s k
  g ← field_of r j
  throw_if (not (type_eq f.type g.type)) invalid_argument
  check_keys s r keys right_keys
check_keys s r keys right_keys = ok tt

unfoldable pub check_sort_keys : Schema → List SortKey → Result (Unit {0})
check_sort_keys s [] = ok tt
check_sort_keys s (k ∷ keys) = do i ← column_index s k.column; check_sort_keys s keys

unfoldable pub output_schema : Plan → Result Schema
unfolding check_keys check_sort_keys
output_schema no_plan = err invalid_argument
output_schema (scan source columns) = do
  s ← select_schema source.schema columns
  validate_schema s
  ok s
output_schema (filter p e) = do
  s ← output_schema p
  t ← expression_type e s
  throw_if (not (type_eq t boolean)) invalid_argument
  ok s
output_schema (project p es) = do s ← output_schema p; projection_schema es s
output_schema (aggregate p keys aggs) = do s ← output_schema p; aggregate_schema s keys aggs
output_schema (join l r keys right_keys) = do
  s ← output_schema l
  t ← output_schema r
  throw_if (length keys == 0 || not (length keys == length right_keys)) invalid_argument
  check_keys s t keys right_keys
  let out = s ++ t
  validate_schema out
  ok out
output_schema (sort p keys) = do s ← output_schema p; check_sort_keys s keys; ok s
output_schema (limit p n) = output_schema p

-- `ids`, `subset` and `add_refs`, with sets of IDs as lists
abbrev pub ids : Schema → List ℕ
ids s = map (λ f. f.id) s

abbrev pub subset : List ℕ → List ℕ → Bool
subset [] b = true
subset (x ∷ a) b = contains x b && subset a b

unfoldable pub underlying_source : Plan → Option Source
underlying_source (scan source columns) = some source
underlying_source (filter p e) = underlying_source p
underlying_source (sort p keys) = underlying_source p
underlying_source (limit p n) = underlying_source p
underlying_source _ = none

-- What the estimates compute with: the processor's arithmetic and conversions, and the estimates of
-- src/statistics.cpp.
pub record Estimator : Type 0 where
  pub arithmetic : Arithmetic
  pub of_size : ℕ → ℕ
  pub sqrt : ℕ → ℕ
  pub approximate_distinct : ColumnStatistics → ℕ
  pub estimate_selectivity : ExprPtr → Schema → Statistics → ℕ

-- The doubles 0.5 and 1.0
abbrev pub half : ℕ
half = 0x3fe0_0000_0000_0000

abbrev pub unit : ℕ
unit = 0x3ff0_0000_0000_0000

-- `std::min` and `std::max`
abbrev pub min_double : ℕ → ℕ → ℕ
min_double x y = if lt_double y x then y else x

abbrev pub max_double : ℕ → ℕ → ℕ
max_double x y = if lt_double x y then y else x

unfoldable pub selectivity : Estimator → ExprPtr → Plan → ℕ
unfolding underlying_source
selectivity m e p = elim (underlying_source p) [
  | none ↦ half
  | some s ↦ m.estimate_selectivity e s.schema s.statistics
]

-- The product over the keys of an aggregate.
unfoldable pub estimate_groups : Estimator → Source → List ℕ → ℕ → Result ℕ
estimate_groups m s [] estimate = ok estimate
estimate_groups m s (k ∷ keys) estimate = do
  i ← column_index s.schema k
  st ← element s.statistics i
  let nulls = (if st.nulls == 0 then 0 else unit)
  let distinct = m.arithmetic.add (m.approximate_distinct st) nulls
  estimate_groups m s keys (m.arithmetic.multiply estimate (max_double unit distinct))

abbrev pub aggregate_rows : Estimator → Plan → List ℕ → ℕ → Result ℕ
aggregate_rows m p [] n = ok unit
aggregate_rows m p (k ∷ keys) n = elim (underlying_source p) [
  | none ↦ ok (m.sqrt n)
  | some s ↦ do estimate ← estimate_groups m s (k ∷ keys) unit; ok (min_double n estimate)
]

unfoldable pub estimated_rows : Estimator → Plan → Result ℕ
unfolding estimate_groups underlying_source
estimated_rows m no_plan = err logic_error
estimated_rows m (scan source columns) = ok (m.of_size source.row_count)
estimated_rows m (filter p e) = do
  n ← estimated_rows m p
  ok (m.arithmetic.multiply n (selectivity m e p))
estimated_rows m (limit p k) = do n ← estimated_rows m p; ok (min_double n (m.of_size k))
estimated_rows m (aggregate p keys aggs) = do n ← estimated_rows m p; aggregate_rows m p keys n
estimated_rows m (join l r keys right_keys) = do
  n ← estimated_rows m l
  k ← estimated_rows m r
  ok (max_double n k)
estimated_rows m (project p es) = estimated_rows m p
estimated_rows m (sort p keys) = estimated_rows m p
