-- ===== src/Plan/Prune.antt =====
-- `prune` and `optimize` of src/plan.cpp: columns that nothing above needs are not read. A set of
-- column IDs is a list; nodes are changed in place there and built anew here.
use vectorized_query_engine.Base.{ℕ, Option, none, some, List, [], ◌∷◌, ◌++◌, if◌then◌else◌, map}
use vectorized_query_engine.Base.Results.{Result, ok, err, logic_error, ◌>>=◌}
use vectorized_query_engine.Vector.Value.{contains}
use vectorized_query_engine.Expression.{referenced_columns}
use vectorized_query_engine.Expression.Evaluator.{Setting}
use vectorized_query_engine.Operators.{NamedExpression}
use vectorized_query_engine.Blocking.{AggregateSpec, SortKey}
use vectorized_query_engine.Plan.{
  Plan, no_plan, scan, filter, project, aggregate, join, sort, limit, output_schema, ids, Estimator,
}
use vectorized_query_engine.Plan.Rewrite.{rewrite, ◌>>?◌}

abbrev pub keep_columns : List ℕ → List ℕ → List ℕ
keep_columns required [] = []
keep_columns required (id ∷ columns) =
    let rest = keep_columns required columns in if contains id required then id ∷ rest else rest

abbrev pub keep_expressions : List ℕ → List NamedExpression → List NamedExpression
keep_expressions required [] = []
keep_expressions required (x ∷ es) =
    let rest = keep_expressions required es in
    if contains x.field.id required then x ∷ rest else rest

abbrev pub keep_aggregates : List ℕ → List AggregateSpec → List AggregateSpec
keep_aggregates required [] = []
keep_aggregates required (a ∷ aggs) =
    let rest = keep_aggregates required aggs in
    if contains a.output.id required then a ∷ rest else rest

abbrev pub expression_columns : List NamedExpression → List ℕ
expression_columns [] = []
expression_columns (x ∷ es) = referenced_columns x.expression ++ expression_columns es

abbrev pub input_columns : List AggregateSpec → List ℕ
input_columns [] = []
input_columns (a ∷ aggs) =
    let rest = input_columns aggs in elim a.input [ none ↦ rest | some id ↦ id ∷ rest ]

abbrev pub sort_columns : List SortKey → List ℕ
sort_columns keys = map (λ k. k.column) keys

unfoldable pub prune : Plan → List ℕ → Result Plan
prune no_plan required = err logic_error
prune (scan source columns) required = ok (scan source (keep_columns required columns))
prune (filter p e) required = do p' ← prune p (required ++ referenced_columns e); ok (filter p' e)
prune (project p es) required = do
  let kept = keep_expressions required es
  p' ← prune p (expression_columns kept)
  ok (project p' kept)
prune (aggregate p keys aggs) required = do
  let kept = keep_aggregates required aggs
  p' ← prune p (keys ++ input_columns kept)
  ok (aggregate p' keys kept)
prune (join l r keys right_keys) required = do
  let needed = required ++ keys ++ right_keys
  s ← output_schema l
  t ← output_schema r
  l' ← prune l (keep_columns needed (ids s))
  r' ← prune r (keep_columns needed (ids t))
  ok (join l' r' keys right_keys)
prune (sort p keys) required = do p' ← prune p (required ++ sort_columns keys); ok (sort p' keys)
prune (limit p n) required = do p' ← prune p required; ok (limit p' n)

unfoldable pub optimize : Estimator → Setting → ℕ → Plan → Result (Option Plan)
unfolding rewrite prune
optimize m g fuel p = output_schema p >>= λ original. rewrite m g fuel p >>? λ pushed.
    prune pushed (ids original) >>= λ pruned.
    rewrite m g fuel pruned >>? λ out. output_schema out >>= λ checked. ok (some out)
