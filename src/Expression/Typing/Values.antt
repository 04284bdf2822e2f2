-- ===== src/Expression/Typing/Values.antt =====
-- What the typing rules of `expression_type` (src/expression.cpp) say of the values in SQL.
use mathlib.Core.Logic.{◌↔◌}
use vectorized_query_engine.Base.{ℕ, ◌≡◌, refl, true, arith, inl, inr, Bool-cases}
use vectorized_query_engine.Base.Int.{ℤ, pos, ◌+ℤ◌, ◌-ℤ◌, ◌*ℤ◌, quot_ℤ, eqb_ℤ}
use vectorized_query_engine.Base.Results.{ok}
use vectorized_query_engine.Vector.Double.{Arithmetic}
use vectorized_query_engine.Vector.Value.{
  DataType, boolean, int64, double, string, Schema, Value, null, bool, int, real, text,
}
use vectorized_query_engine.Vector.Column.Append.{MatchesType}
use vectorized_query_engine.Expression.{
  ExprKind, column, literal, add, subtract, multiply, divide, and, or, ExprPtr, node, is_numeric,
  column_type, expression_type,
}
use vectorized_query_engine.Expression.Scalar.{
  fits_int64, checked, is_zero, sql_arithmetic, sql_compare, sql_not, sql_is_null,
}
use vectorized_query_engine.Expression.Meaning.{sql_operator, sql_value}
use vectorized_query_engine.Expression.Evaluator.Correct.{LiteralsFit, operator-LiteralsFit}
use vectorized_query_engine.Expression.Typing.{
  Typed, column_rule, literal_rule, arithmetic_rule, comparison_rule, connective_rule, not_rule,
  null_rule, IsBuilt, expression_type-Typed, Typed-expression_type, IsOperator, IsConnective,
  IsConnective-IsOperator, IsArithmetic-IsOperator, IsComparison-IsOperator,
}
use vectorized_query_engine.Expression.Evaluator.Compare.{IsComparison}
use vectorized_query_engine.Expression.Evaluator.Numbers.{
  IsArithmetic, sql_arithmetic-null_left, sql_arithmetic-null_right,
}
use vectorized_query_engine.Expression.Evaluator.Literals.{FitsInt}

-- NULL, or a value of the type; an integer is one of 64 bits.
abbrev pub IsOf : Value → DataType → Type 0
IsOf v t = MatchesType v t × FitsInt v

-- No double.
abbrev pub IsExact : Value → Type 0
IsExact (real x) = ⊥
IsExact _ = Unit

checked-IsOf : (z : ℤ) → IsOf (checked z) int64
checked-IsOf z = elim (Bool-cases (fits_int64 z)) [
  | inl fits ↦ rw fits (tt, fits)
  | inr large ↦ rw large (tt, tt)
]

int-IsOf :
    (m : Arithmetic) (k : ExprKind) (x y : ℤ)
    → IsArithmetic k
    → IsOf (sql_arithmetic m k (int x) (int y)) int64
int-IsOf m add x y h = checked-IsOf (x +ℤ y)
int-IsOf m subtract x y h = checked-IsOf (x -ℤ y)
int-IsOf m multiply x y h = checked-IsOf (x *ℤ y)
int-IsOf m divide x y h = elim (Bool-cases (eqb_ℤ y (pos 0))) [
  | inl zero_divisor ↦ rw zero_divisor (tt, tt)
  | inr other ↦ rw other (checked-IsOf (quot_ℤ x y))
]
int-IsOf m _ x y h = absurd h

real-IsOf :
    (m : Arithmetic) (k : ExprKind) (x y : ℕ)
    → IsArithmetic k
    → IsOf (sql_arithmetic m k (real x) (real y)) double
real-IsOf m add x y h = (tt, tt)
real-IsOf m subtract x y h = (tt, tt)
real-IsOf m multiply x y h = (tt, tt)
real-IsOf m divide x y h = elim (Bool-cases (is_zero y)) [
  | inl zero_divisor ↦ rw zero_divisor (tt, tt)
  | inr other ↦ rw other (tt, tt)
]
real-IsOf m _ x y h = absurd h

null-IsOf : (t : DataType) → IsOf null t
null-IsOf t = (tt, tt)

arithmetic-IsOf :
    (m : Arithmetic) (k : ExprKind) (a b : Value) (t : DataType)
    → IsArithmetic k
    → is_numeric t ≡ true
    → IsOf a t
    → IsOf b t
    → IsOf (sql_arithmetic m k a b) t
arithmetic-IsOf m k null b t h n ha hb = rw (sql_arithmetic-null_left m k b) (null-IsOf t)
arithmetic-IsOf m k a null t h n ha hb = rw (sql_arithmetic-null_right m k a) (null-IsOf t)
arithmetic-IsOf m k (int x) (int y) int64 h n ha hb = int-IsOf m k x y h
arithmetic-IsOf m k (real x) (real y) double h n ha hb = real-IsOf m k x y h
arithmetic-IsOf m k a b boolean h n ha hb = cc
arithmetic-IsOf m k a b string h n ha hb = cc
arithmetic-IsOf m k (int x) b double h n ha hb = absurd ha.0
arithmetic-IsOf m k (real x) b int64 h n ha hb = absurd ha.0
arithmetic-IsOf m k (bool x) b int64 h n ha hb = absurd ha.0
arithmetic-IsOf m k (bool x) b double h n ha hb = absurd ha.0
arithmetic-IsOf m k (text x) b int64 h n ha hb = absurd ha.0
arithmetic-IsOf m k (text x) b double h n ha hb = absurd ha.0
arithmetic-IsOf m k a (real x) int64 h n ha hb = absurd hb.0
arithmetic-IsOf m k a (bool x) int64 h n ha hb = absurd hb.0
arithmetic-IsOf m k a (text x) int64 h n ha hb = absurd hb.0
arithmetic-IsOf m k a (int x) double h n ha hb = absurd hb.0
arithmetic-IsOf m k a (bool x) double h n ha hb = absurd hb.0
arithmetic-IsOf m k a (text x) double h n ha hb = absurd hb.0

-- What is no NULL is TRUE or FALSE.
abbrev pub IsTruth : Value → Type 0
IsTruth v = IsOf v boolean

pub comparison-IsTruth : (k : ExprKind) (a b : Value) → IsTruth (sql_compare k a b)
comparison-IsTruth k a b = ground arith

pub connective-IsTruth :
    (m : Arithmetic) (k : ExprKind) (a b : Value) → IsConnective k → IsTruth (sql_operator m k a b)
connective-IsTruth m and a b h = ground arith
connective-IsTruth m or a b h = ground arith
connective-IsTruth m _ a b h = absurd h

pub not-IsTruth : (a : Value) → IsTruth (sql_not a)
not-IsTruth a = ground arith

pub is_null-IsTruth : (a : Value) → IsTruth (sql_is_null a)
is_null-IsTruth a = ground arith

pub operator-value :
    (m : Arithmetic) (env : ℕ → Value) (k : ExprKind) (id : ℕ) (v : Value) (u : DataType)
    (l r : ExprPtr)
    → IsOperator k
    → sql_value m env (node k id v u l r) ≡ sql_operator m k (sql_value m env l) (sql_value m env r)
unfolding sql_value
operator-value m env column id v u l r h = absurd h
operator-value m env literal id v u l r h = absurd h
operator-value m env _ id v u l r h = refl

comparison_operator :
    (m : Arithmetic) (k : ExprKind) (a b : Value)
    → IsComparison k
    → sql_operator m k a b ≡ sql_compare k a b
comparison_operator m k a b h = ground arith

arithmetic_operator :
    (m : Arithmetic) (k : ExprKind) (a b : Value)
    → IsArithmetic k
    → sql_operator m k a b ≡ sql_arithmetic m k a b
arithmetic_operator m k a b h = ground arith

-- The row has a value of its type in each column.
abbrev pub IsRow : Schema → (ℕ → Value) → Type 0
IsRow s env = (id : ℕ) (t : DataType) → column_type s id ≡ ok t → IsOf (env id) t

pub sql_value-IsOf :
    (m : Arithmetic) (env : ℕ → Value) {s : Schema} {e : ExprPtr} {t : DataType} (n : ℕ)
    → Typed s e t
    → LiteralsFit e n
    → IsRow s env
    → IsOf (sql_value m env e) t
unfolding sql_value
sql_value-IsOf m env n (column_rule v u h) fit row = row _ _ h
sql_value-IsOf m env n (literal_rule id v t) fit row = (fit.matches, fit.number)
sql_value-IsOf m env n (arithmetic_rule k id v u {t} {l} {r} h num tl tr) fit row =
    let o = IsArithmetic-IsOperator k h in
    let (fl, fr) = operator-LiteralsFit k id v u l r n o fit in
    let a = sql_value m env l in
    let b = sql_value m env r in
    rw (operator-value m env k id v u l r o, arithmetic_operator m k a b h)
      (arithmetic-IsOf m k a b t h num (sql_value-IsOf m env n tl fl row)
        (sql_value-IsOf m env n tr fr row))
sql_value-IsOf m env n (comparison_rule k id v u {t} {l} {r} h tl tr) fit row =
    rw
      (
        operator-value m env k id v u l r (IsComparison-IsOperator k h),
        comparison_operator m k (sql_value m env l) (sql_value m env r) h,
      )
      (comparison-IsTruth k (sql_value m env l) (sql_value m env r))
sql_value-IsOf m env n (connective_rule k id v u {l} {r} h tl tr) fit row =
    rw (operator-value m env k id v u l r (IsConnective-IsOperator k h))
      (connective-IsTruth m k (sql_value m env l) (sql_value m env r) h)
sql_value-IsOf m env n (not_rule id v u {l} tl) fit row = not-IsTruth (sql_value m env l)
sql_value-IsOf m env n (null_rule id v u {t} {l} tl) fit row = is_null-IsTruth (sql_value m env l)

-- Let the factory functions build an expression, let its literals be of their types, and let a row
-- have NULL or a value of its type in each column of the schema. Then expression_type returns a
-- type exactly if the typing rules give the expression that type, and the value in SQL on that row
-- is then NULL or a value of the type, where an integer fits 64 bits.
pub expression_type-Sound :
    (m : Arithmetic) (s : Schema) (env : ℕ → Value) (e : ExprPtr) {t : DataType} (n : ℕ)
    → IsBuilt e
    → LiteralsFit e n
    → IsRow s env
    → (expression_type e s ≡ ok t) ↔ (Typed s e t × IsOf (sql_value m env e) t)
expression_type-Sound m s env e n built fit row = (
  λ h.
      (let typed = expression_type-Typed s e built h in
        (typed, sql_value-IsOf m env n typed fit row)),
  λ (typed, value). Typed-expression_type s typed,
)
