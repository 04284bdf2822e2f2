-- ===== src/Plan/Simplify.antt =====
-- `simplify_expression` of src/plan.cpp: an operator on constants becomes a literal, and the
-- connectives drop what cannot matter.
pub mod Equal
pub mod Folding
pub mod Sound
use vectorized_query_engine.Base.{
  ◌≡◌, Bool, true, false, not, Option, none, some, List, [], ◌∷◌, if◌then◌else◌,
}
use vectorized_query_engine.Base.Results.{Result, ok, err, logic_error, bad_variant_access, ◌>>=◌}
use vectorized_query_engine.Kernels.{auto}
use vectorized_query_engine.Vector.Batch
use vectorized_query_engine.Vector.Batch.{Batch}
use vectorized_query_engine.Vector.Column.{Column, value}
use vectorized_query_engine.Vector.Value.{DataType, boolean, Value, null, bool, is_null}
use vectorized_query_engine.Expression.{
  ExprKind, column, literal, and, or, negation, ExprPtr, missing, node, unary, binary, lit,
  null_literal, referenced_columns, expression_equal,
}
use vectorized_query_engine.Expression.Evaluator.{Setting, evaluate}

-- `b ? binary(e->kind, a, b) : unary(e->kind, a)`
abbrev pub rebuilt : ExprKind → ExprPtr → ExprPtr → ExprPtr
rebuilt k a missing = unary k a
rebuilt k a b = binary k a b

-- `Batch singleton({}, 1); singleton.finish(1);`
abbrev pub singleton : Result Batch
singleton = Batch.new [] 1 >>= λ b. Batch.finish b 1

abbrev pub literal_for : Value → DataType → Result ExprPtr
literal_for v t = if is_null v then ok (null_literal t) else lit v

-- The value of an expression without columns, on one row. The evaluator has its default options.
unfoldable pub fold_constant : Setting → ExprPtr → Result ExprPtr
fold_constant g e = do
  b ← singleton
  c ← evaluate (record g { mode = auto }) e [] b
  literal_for (value c 0) c.type

-- The boolean that an operand is, if it is a literal and not NULL.
abbrev pub constant_truth : ExprPtr → Result (Option Bool)
constant_truth (node literal id null boolean l r) = ok none
constant_truth (node literal id (bool b) boolean l r) = ok (some b)
constant_truth (node literal id v boolean l r) = err bad_variant_access
constant_truth (node k id v t l r) = ok none
constant_truth missing = err logic_error

-- What a connective is when one operand is the constant v.
abbrev pub with_constant : Bool → Bool → ExprPtr → Result ExprPtr
with_constant is_and v other =
    if is_and
    then (if v then ok other else lit (bool false))
    else (if v then lit (bool true) else ok other)

unfoldable pub connective_case : Bool → ExprPtr → ExprPtr → ExprPtr → Result ExprPtr
connective_case is_and a b result = if expression_equal a b then ok a else do
  left ← constant_truth a
  elim left [
    | some v ↦ with_constant is_and v b
    | none ↦ do
      right ← constant_truth b
      elim right [ some v ↦ with_constant is_and v a | none ↦ ok result ]
  ]

-- NOT of NOT
abbrev pub negation_case : ExprPtr → ExprPtr → ExprPtr
negation_case (node negation id v t l r) result = l
negation_case a result = result

abbrev pub by_kind : ExprKind → ExprPtr → ExprPtr → ExprPtr → Result ExprPtr
by_kind and a b result = connective_case true a b result
by_kind or a b result = connective_case false a b result
by_kind negation a b result = ok (negation_case a result)
by_kind _ a b result = ok result

unfoldable pub combine : Setting → ExprKind → ExprPtr → ExprPtr → Result ExprPtr
combine g k a b =
    let result = rebuilt k a b in
    elim (referenced_columns result) [
      | [] ↦ fold_constant g result
      | id ∷ ids ↦ by_kind k a b result
    ]

unfoldable pub simplify_expression : Setting → ExprPtr → Result ExprPtr
simplify_expression g missing = ok missing
simplify_expression g (node column id v t l r) = ok (node column id v t l r)
simplify_expression g (node literal id v t l r) = ok (node literal id v t l r)
simplify_expression g (node k id v t l r) = do
  a ← simplify_expression g l
  b ← simplify_expression g r
  combine g k a b
