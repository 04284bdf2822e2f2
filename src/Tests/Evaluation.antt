-- ===== src/Tests/Evaluation.antt =====
-- The theorems on whole expressions, at the predicate `x < 5` and two rows of which one is NULL.
use vectorized_query_engine.Base.{
  ℕ, zero, suc, ◌≡◌, refl, ap, true, [], ◌∷◌, arith, Bool-cases, inl, inr, ◌==◌,
}
use vectorized_query_engine.Base.Int.{pos}
use vectorized_query_engine.Base.Results.{ok, ok-injective}
use vectorized_query_engine.Kernels.{auto, x86}
use vectorized_query_engine.Vector.Batch.{Batch}
use vectorized_query_engine.Vector.Selection.{at}
use vectorized_query_engine.Vector.Column.{Column, value}
use vectorized_query_engine.Vector.Value.{boolean, int64, contains, int}
use vectorized_query_engine.Expression.{
  ExprPtr, less, and, literal_of, binary, expression_type, column_type,
}
use vectorized_query_engine.Expression.Meaning.{sql_value}
use mathlib.Core.Logic.{◌↔◌}
use vectorized_query_engine.Expression.Typing.{Typed}
use vectorized_query_engine.Expression.Typing.Values.{IsRow, IsOf, expression_type-Sound}
use vectorized_query_engine.Expression.Evaluator.{Setting, active, evaluate}
use vectorized_query_engine.Expression.Evaluator.Rows.{IsShaped}
use vectorized_query_engine.Expression.Evaluator.Operator.{IsListed}
use vectorized_query_engine.Expression.Evaluator.Correct.{
  LiteralsFit, IsBatch, row_of, evaluate-Computes,
}
use vectorized_query_engine.Statistics.Predicates.{some-injective}
use vectorized_query_engine.Plan.Simplify.{simplify_expression}
use vectorized_query_engine.Plan.Simplify.Sound.{simplify_expression-Means}
use vectorized_query_engine.Tests.Expressions.{toy, numbers, numbers-IsInts, numbers-InRange}
use vectorized_query_engine.Tests.Pruning.{schema, predicate, row}

abbrev pub setting : Setting
setting = record { machine = x86 true; mode = auto; arithmetic = toy }

-- The second row is NULL.
abbrev two : Batch
two = record {
  schema = schema;
  columns = numbers ∷ [];
  selection = record { dense = true; size = 2; indices = [] };
  capacity = 2;
  physical_size = 2;
}

two-IsListed : IsListed two
unfolding at
two-IsListed = record {
  below = λ i h. ground arith;
  dense = λ h. omega arith;
  occupied = omega arith;
  small = omega arith;
}

two-IsBatch : IsBatch schema two
two-IsBatch zero f h =
    (numbers, refl, numbers-IsInts.0, ap (λ x. x.type) (some-injective h), numbers-InRange)
two-IsBatch (suc k) f h = cc

pub predicate_typed : expression_type predicate schema ≡ ok boolean
unfolding expression_type column_type
predicate_typed = refl

pub predicate-LiteralsFit : (n : ℕ) → LiteralsFit predicate n
predicate-LiteralsFit n = ((tt, tt), record { matches = tt; number = refl; room = omega arith })

evaluate-Computes_example :
    (c : Column) × (evaluate setting predicate schema two ≡ ok c)
    × IsShaped c 2
    × (c.type ≡ boolean)
    × ((i : ℕ)
        → contains i (active two) ≡ true
        → value c i ≡ sql_value toy (row_of schema two i) predicate)
evaluate-Computes_example =
    evaluate-Computes setting predicate schema two-IsListed two-IsBatch (tt, tt) predicate_typed
      (predicate-LiteralsFit 2)

pub row-IsRow : IsRow schema row
unfolding column_type
row-IsRow id t h = elim (Bool-cases (7 == id)) [
  | inl hit ↦ (let k = rw hit at h in rw (← ok-injective k) (tt, refl))
  | inr miss ↦ absurd (let k = rw miss at h in cc)
]

expression_type-Sound_example :
    (expression_type predicate schema ≡ ok boolean)
    ↔ (Typed schema predicate boolean × IsOf (sql_value toy row predicate) boolean)
expression_type-Sound_example =
    expression_type-Sound toy schema row predicate 1 (tt, tt) (predicate-LiteralsFit 1) row-IsRow

-- `x < 5 AND 1 < 5` loses its constant half.
abbrev conjunction : ExprPtr
conjunction =
    binary and predicate
      (binary less (literal_of (int (pos 1)) int64) (literal_of (int (pos 5)) int64))

conjunction_typed : expression_type conjunction schema ≡ ok boolean
unfolding expression_type column_type
conjunction_typed = refl

simplify_expression-Means_example :
    (e' : ExprPtr) × (simplify_expression setting conjunction ≡ ok e')
    × (expression_type e' schema ≡ ok boolean)
    × (sql_value toy row e' ≡ sql_value toy row conjunction)
simplify_expression-Means_example =
    simplify_expression-Means setting schema row conjunction row-IsRow ((tt, tt), (tt, tt))
      conjunction_typed
      (
        predicate-LiteralsFit 1,
        (
          record { matches = tt; number = refl; room = omega arith },
          record { matches = tt; number = refl; room = omega arith },
        ),
      )
      (tt, (tt, (tt, tt, tt), (tt, tt, tt)), (tt, (tt, tt, tt), (tt, tt, tt)))
