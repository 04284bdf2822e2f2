-- ===== src/Plan/Rewrite.antt =====
-- `rewrite` of src/plan.cpp: predicates are simplified, split into conjuncts and pushed towards the
-- scans; projections that change nothing go. A plan is copied before it is rewritten, so assigning
-- to a child is building the plan anew. Rewriting runs on fuel; no answer (`none`) is fuel that ends.
pub mod Predicates
pub mod Chains
pub mod Filters
pub mod Substitution
use vectorized_query_engine.Base.{
  ℕ, zero, suc, Bool, true, false, not, ◌||◌, ◌&&◌, Option, none, some, List, [], ◌∷◌, ◌++◌, ◌==◌,
  length, if◌then◌else◌,
}
use vectorized_query_engine.Base.Sorting.{stable_sort}
use vectorized_query_engine.Base.Results.{
  Result, ok, err, logic_error, out_of_range, bad_variant_access, ◌>>=◌,
}
use vectorized_query_engine.Vector.Double.{lt_double}
use vectorized_query_engine.Vector.Value.{Field, Schema, Value, null, bool, contains}
use vectorized_query_engine.Expression.{
  ExprKind, column, literal, and, ExprPtr, missing, node, unary, binary, referenced_columns,
  expression_equal, eq_text,
}
use vectorized_query_engine.Expression.Evaluator.{Setting}
use vectorized_query_engine.Operators.{NamedExpression}
use vectorized_query_engine.Plan.{
  Plan, no_plan, scan, filter, project, aggregate, join, sort, limit, output_schema, ids, subset,
  Estimator, selectivity,
}
use vectorized_query_engine.Plan.Simplify.{simplify_expression}

unfoldable pub conjuncts : ExprPtr → List ExprPtr
conjuncts (node and id v t l r) = conjuncts l ++ conjuncts r
conjuncts e = e ∷ []

-- A `std::map<ColumnId, ExprPtr>`: `emplace` keeps the first entry of a key, which is found first.
abbrev pub ColumnMap : Type 0
ColumnMap = List (ℕ × ExprPtr)

unfoldable pub lookup : ColumnMap → ℕ → Option ExprPtr
lookup [] id = none
lookup (entry ∷ map) id = if entry.0 == id then some entry.1 else lookup map id

unfoldable pub substitute : ColumnMap → ExprPtr → Result ExprPtr
unfolding lookup
substitute map missing = err logic_error
substitute map (node column id v t l r) = elim (lookup map id) [
  | none ↦ err out_of_range
  | some e ↦ ok e
]
substitute map (node literal id v t l r) = ok (node literal id v t l r)
substitute map (node k id v t l missing) = do a ← substitute map l; ok (unary k a)
substitute map (node k id v t l r) = do
  a ← substitute map l
  b ← substitute map r
  ok (binary k a b)

abbrev pub is_column : ExprPtr → ℕ → Bool
is_column (node column id v t l r) wanted = id == wanted
is_column _ wanted = false

unfoldable pub identity_columns : Schema → List NamedExpression → Bool
identity_columns [] [] = true
identity_columns (f ∷ s) (x ∷ es) =
    is_column x.expression f.id
    && x.field.id == f.id
    && eq_text x.field.name f.name
    && identity_columns s es
identity_columns _ _ = false

unfoldable pub identity_projection : Plan → List NamedExpression → Result Bool
unfolding identity_columns
identity_projection p es = do s ← output_schema p; ok (identity_columns s es)

unfoldable pub simplify_all : Setting → List NamedExpression → Result (List NamedExpression)
simplify_all g [] = ok []
simplify_all g (x ∷ es) = do
  e ← simplify_expression g x.expression
  rest ← simplify_all g es
  ok (record x { expression = e } ∷ rest)

-- The filters on top of a plan: what is below them, and their conjuncts.
unfoldable pub filters : Setting → Plan → Result (Plan × List ExprPtr)
unfolding conjuncts
filters g (filter p e) = do
  s ← simplify_expression g e
  below ← filters g p
  ok (below.0, conjuncts s ++ below.1)
filters g p = ok (p, [])

-- A literal that is not NULL and TRUE
abbrev pub always_true : ExprPtr → Result Bool
always_true (node literal id null t l r) = ok false
always_true (node literal id (bool b) t l r) = ok b
always_true (node literal id v t l r) = err bad_variant_access
always_true _ = ok false

abbrev pub any_equal : List ExprPtr → ExprPtr → Bool
any_equal [] e = false
any_equal (u ∷ us) e = expression_equal u e || any_equal us e

unfoldable pub distinct : List ExprPtr → List ExprPtr → Result (List ExprPtr)
distinct unique [] = ok unique
distinct unique (e ∷ es) = do
  skip ← always_true e
  if skip || any_equal unique e then distinct unique es else distinct (unique ++ e ∷ []) es

-- The columns that a projection passes on
unfoldable pub column_map : List NamedExpression → ColumnMap
column_map [] = []
column_map (x ∷ es) =
    let rest = column_map es in
    elim (is_column_reference x.expression) [
      | true ↦ (x.field.id, x.expression) ∷ rest
      | false ↦ rest
    ]
  where
    is_column_reference : ExprPtr → Bool
    is_column_reference (node column id v t l r) = true
    is_column_reference _ = false

abbrev pub all_mapped : ColumnMap → List ℕ → Bool
all_mapped map [] = true
all_mapped map (id ∷ ids) = elim (lookup map id) [ none ↦ false | some e ↦ all_mapped map ids ]

abbrev pub is_empty : List ℕ → Bool
is_empty [] = true
is_empty (x ∷ xs) = false

-- What follows an answer.
infixl 5 ◌>>?◌
abbrev pub ◌>>?◌ {ℓ κ} :
    {A : Type ℓ} {B : Type κ} → Result (Option A) → (A → Result (Option B)) → Result (Option B)
answer >>? next = answer >>= λ a. elim a [ none ↦ ok none | some x ↦ next x ]

-- One predicate above `child`: the child with the predicate pushed into it, or `none` if it stays.
-- `again` rewrites a plan.
unfoldable pub push : (Plan → Result (Option Plan)) → Plan → ExprPtr → Result (Option (Option Plan))
unfolding lookup
push again (join l r keys right_keys) e =
    let refs = referenced_columns e in
    if is_empty refs then ok (some none) else do
      s ← output_schema l
      if subset refs (ids s)
          then (again (filter l e) >>? λ l'. ok (some (some (join l' r keys right_keys))))
          else do
            t ← output_schema r
            if subset refs (ids t)
                then (again (filter r e) >>? λ r'. ok (some (some (join l r' keys right_keys))))
                else ok (some none)
push again (sort p keys) e = again (filter p e) >>? λ p'. ok (some (some (sort p' keys)))
push again (aggregate p keys aggs) e =
    let refs = referenced_columns e in
    if not (is_empty refs) && subset refs keys
    then (again (filter p e) >>? λ p'. ok (some (some (aggregate p' keys aggs))))
    else ok (some none)
push again (project p es) e =
    let map = column_map es in
    if all_mapped map (referenced_columns e)
    then (substitute map e >>= λ e'. again (filter p e') >>? λ p'. ok (some (some (project p' es))))
    else ok (some none)
push again _ e = ok (some none)

-- The loop over the predicates: the child, and the predicates that stay above it.
unfoldable pub push_all :
    (Plan → Result (Option Plan))
    → Plan
    → List ExprPtr
    → List ExprPtr
    → Result (Option (Plan × List ExprPtr))
unfolding push
push_all again child [] remaining = ok (some (child, remaining))
push_all again child (e ∷ es) remaining = push again child e >>? λ pushed. elim pushed [
  | some child' ↦ push_all again child' es remaining
  | none ↦ push_all again child es (remaining ++ e ∷ [])
]

unfoldable pub build_filters : Plan → List ExprPtr → Plan
build_filters child [] = child
build_filters child (e ∷ es) = build_filters (filter child e) es

module _ (m : Estimator) (g : Setting) where
  -- A filter whose child has been rewritten.
  unfoldable pub rewrite_filters : (Plan → Result (Option Plan)) → Plan → Result (Option Plan)
  rewrite_filters again p = do
    below ← filters g p
    unique ← distinct [] below.1
    push_all again below.0 unique [] >>? λ done.
        let child = done.0 in
        let in_order =
          stable_sort (λ a b. lt_double (selectivity m a child) (selectivity m b child)) done.1 in
        ok (some (build_filters child in_order))

  unfoldable pub rewrite_projection : Plan → List NamedExpression → Result (Option Plan)
  rewrite_projection p es = do
    es' ← simplify_all g es
    same ← identity_projection p es'
    ok (some (if same then p else project p es'))

  unfoldable pub rewrite : ℕ → Plan → Result (Option Plan)
  rewrite zero p = ok none
  rewrite (suc fuel) no_plan = err logic_error
  rewrite (suc fuel) (scan source columns) = ok (some (scan source columns))
  rewrite (suc fuel) (filter p e) =
      rewrite fuel p >>? λ p'. rewrite_filters (rewrite fuel) (filter p' e)
  rewrite (suc fuel) (project p es) = rewrite fuel p >>? λ p'. rewrite_projection p' es
  rewrite (suc fuel) (aggregate p keys aggs) =
      rewrite fuel p >>? λ p'. ok (some (aggregate p' keys aggs))
  rewrite (suc fuel) (join l r keys right_keys) =
      rewrite fuel l >>? λ l'. rewrite fuel r >>? λ r'. ok (some (join l' r' keys right_keys))
  rewrite (suc fuel) (sort p keys) = rewrite fuel p >>? λ p'. ok (some (sort p' keys))
  rewrite (suc fuel) (limit p n) = rewrite fuel p >>? λ p'. ok (some (limit p' n))
