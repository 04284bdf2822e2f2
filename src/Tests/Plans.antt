-- ===== src/Tests/Plans.antt =====
-- The theorems on plans, at the filter `x < 5` above a scan of one column.
use vectorized_query_engine.Base.{◌≡◌, refl, false, [], ◌∷◌, some, arith}
use vectorized_query_engine.Base.Int.{pos}
use vectorized_query_engine.Base.Results.{ok}
use vectorized_query_engine.Vector.Value.{int64, int, validate_schema, validate_from}
use vectorized_query_engine.Expression.{
  ExprPtr, col, less, binary, literal_of, expression_type, column_type, referenced_columns,
}
use vectorized_query_engine.Expression.Meaning.{sql_value}
use vectorized_query_engine.Expression.Typing.{expression_type-Typed}
use vectorized_query_engine.Expression.Typing.Constant.{NoReals}
use vectorized_query_engine.Operators.{select_schema, field_of}
use vectorized_query_engine.Plan.{
  Source, Plan, scan, filter, Estimator, output_schema, estimated_rows, selectivity,
  underlying_source,
}
use vectorized_query_engine.Plan.Lower.{
  PhysicalPlan, column_scan, selection_filter, lower, add_pruning,
}
use vectorized_query_engine.Plan.Lower.Pruning.{lower-Skips}
use vectorized_query_engine.Plan.Rewrite.{rewrite, substitute, lookup, ColumnMap}
use vectorized_query_engine.Plan.Rewrite.Chains.{IsChain, bottom, chain_passes}
use vectorized_query_engine.Plan.Rewrite.Filters.{rewrite-Keeps}
use vectorized_query_engine.Plan.Rewrite.Substitution.{projected, substitute-Means}
use vectorized_query_engine.Tests.Expressions.{toy}
use vectorized_query_engine.Tests.Pruning.{schema, entry, predicate, row, schema-Describes, skips}
use vectorized_query_engine.Tests.Evaluation.{
  setting, row-IsRow, predicate_typed, predicate-LiteralsFit,
}

abbrev source : Source
source = record { schema = schema; statistics = entry ∷ []; row_count = 2; name = [] }

abbrev estimator : Estimator
estimator = record {
  arithmetic = toy;
  of_size = λ n. n;
  sqrt = λ n. n;
  approximate_distinct = λ s. 1;
  estimate_selectivity = λ e s stats. 1;
}

abbrev filtered : Plan
filtered = filter (scan source (7 ∷ [])) predicate

abbrev lowered : PhysicalPlan
lowered = selection_filter schema 2 (column_scan schema 2 source (7 ∷ []) predicate) predicate

lower-filtered : lower estimator filtered ≡ ok lowered
unfolding lower output_schema estimated_rows selectivity underlying_source select_schema field_of
    validate_schema validate_from expression_type column_type add_pruning
lower-filtered = refl

lower-Skips_example : chain_passes toy row filtered ≡ false
lower-Skips_example =
    lower-Skips toy row estimator filtered schema (entry ∷ []) schema-Describes tt lower-filtered
      skips

twice : Plan
twice = filter filtered predicate

filtered-IsChain : IsChain schema twice
unfolding twice
filtered-IsChain =
    let typed = expression_type-Typed schema predicate (tt, tt) predicate_typed in
    let exact : NoReals predicate = (tt, (tt, tt, tt), (tt, tt, tt)) in
    (typed, predicate-LiteralsFit 1, exact, (typed, predicate-LiteralsFit 1, exact, tt))

rewrite-Keeps_example :
    (p' : Plan) × (rewrite estimator setting 3 twice ≡ ok (some p'))
    × (IsChain schema p'
        × (bottom p' ≡ bottom twice)
        × (chain_passes toy row p' ≡ chain_passes toy row twice))
rewrite-Keeps_example =
    rewrite-Keeps estimator setting schema row row-IsRow 3 twice (unfold twice in omega arith)
      filtered-IsChain

-- A projection that gives column 9 the values of column 7.
abbrev renamed : ColumnMap
renamed = (9, col 7) ∷ []

abbrev above : ExprPtr
above = binary less (col 9) (literal_of (int (pos 5)) int64)

substitute-Means_example :
    (e' : ExprPtr) × (substitute renamed above ≡ ok e')
    × (sql_value toy row e' ≡ sql_value toy (projected toy row renamed) above)
substitute-Means_example =
    substitute-Means toy row renamed above (tt, tt) (unfold referenced_columns lookup in refl)
