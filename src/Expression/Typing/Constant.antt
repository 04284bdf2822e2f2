-- ===== src/Expression/Typing/Constant.antt =====
-- Expressions that read no column (src/expression.cpp, src/plan.cpp): they mean the same in every row.
use vectorized_query_engine.Base.{
  ℕ, ◌≡◌, refl, ap, ◌∙◌, Bool, List, [], ◌∷◌, ◌++◌, if◌then◌else◌, arith,
}
use vectorized_query_engine.Base.Int.{ℤ, pos, ◌+ℤ◌, ◌-ℤ◌, ◌*ℤ◌, quot_ℤ, eqb_ℤ}
use vectorized_query_engine.Vector.Double.{Arithmetic}
use vectorized_query_engine.Vector.Value.{DataType, Schema, Value, null, int, real}
use vectorized_query_engine.Expression.{
  ExprKind, column, literal, add, subtract, multiply, divide, and, or, negation, is_null, ExprPtr,
  missing, node, referenced_columns,
}
use vectorized_query_engine.Expression.Scalar.{checked, sql_arithmetic}
use vectorized_query_engine.Expression.Meaning.{sql_operator, sql_value}
use vectorized_query_engine.Expression.Typing.{
  Typed, column_rule, literal_rule, arithmetic_rule, comparison_rule, connective_rule, not_rule,
  null_rule, IsOperator, IsConnective-IsOperator, IsArithmetic-IsOperator, IsComparison-IsOperator,
}
use vectorized_query_engine.Expression.Typing.Values.{
  IsExact, IsTruth, comparison-IsTruth, connective-IsTruth, not-IsTruth, is_null-IsTruth,
}

-- No double stands in any node.
abbrev pub NoReals : ExprPtr → Type 0
NoReals missing = Unit
NoReals (node k id v t l r) = IsExact v × NoReals l × NoReals r

append-empty {ℓ} : {A : Type ℓ} (xs ys : List A) → (xs ++ ys) ≡ [] → (xs ≡ []) × (ys ≡ [])
append-empty [] ys h = (refl, h)
append-empty (x ∷ xs) ys h = cc

operator-columns :
    (k : ExprKind) (id : ℕ) (v : Value) (u : DataType) (l r : ExprPtr)
    → IsOperator k
    → referenced_columns (node k id v u l r) ≡ []
    → (referenced_columns l ≡ []) × (referenced_columns r ≡ [])
unfolding referenced_columns
operator-columns column id v u l r h e = absurd h
operator-columns literal id v u l r h e = absurd h
operator-columns _ id v u l r h e = append-empty (referenced_columns l) (referenced_columns r) e

-- It has its type under any schema.
pub Typed-anywhere :
    (s' : Schema) {s : Schema} {e : ExprPtr} {t : DataType}
    → Typed s e t
    → referenced_columns e ≡ []
    → Typed s' e t
unfolding referenced_columns
Typed-anywhere s' (column_rule v u h) none = cc
Typed-anywhere s' (literal_rule id v t) none = literal_rule id v t
Typed-anywhere s' (arithmetic_rule k id v u {t} {l} {r} h num tl tr) none =
    let (nl, nr) = operator-columns k id v u l r (IsArithmetic-IsOperator k h) none in
    arithmetic_rule k id v u h num (Typed-anywhere s' tl nl) (Typed-anywhere s' tr nr)
Typed-anywhere s' (comparison_rule k id v u {t} {l} {r} h tl tr) none =
    let (nl, nr) = operator-columns k id v u l r (IsComparison-IsOperator k h) none in
    comparison_rule k id v u h (Typed-anywhere s' tl nl) (Typed-anywhere s' tr nr)
Typed-anywhere s' (connective_rule k id v u {l} {r} h tl tr) none =
    let (nl, nr) = operator-columns k id v u l r (IsConnective-IsOperator k h) none in
    connective_rule k id v u h (Typed-anywhere s' tl nl) (Typed-anywhere s' tr nr)
Typed-anywhere s' (not_rule id v u {l} tl) none =
    not_rule id v u (Typed-anywhere s' tl (operator-columns negation id v u l missing tt none).0)
Typed-anywhere s' (null_rule id v u {t} {l} tl) none =
    null_rule id v u (Typed-anywhere s' tl (operator-columns is_null id v u l missing tt none).0)

-- It has its value in any row.
pub value-anywhere :
    (m : Arithmetic) (env env' : ℕ → Value) (e : ExprPtr)
    → referenced_columns e ≡ []
    → sql_value m env e ≡ sql_value m env' e
unfolding referenced_columns sql_value
value-anywhere m env env' missing h = refl
value-anywhere m env env' (node column id v u l r) h = cc
value-anywhere m env env' (node literal id v u l r) h = refl
value-anywhere m env env' (node k id v u l r) h =
    let (nl, nr) = operator-columns k id v u l r tt h in
    let el = value-anywhere m env env' l nl in
    let er = value-anywhere m env env' r nr in
    ap (λ a. sql_operator m k a (sql_value m env r)) el
    ∙ ap (λ b. sql_operator m k (sql_value m env' l) b) er

checked-IsExact : (z : ℤ) → IsExact (checked z)
checked-IsExact z = ground arith

truth-IsExact : (v : Value) → IsTruth v → IsExact v
truth-IsExact (real x) h = h.0
truth-IsExact _ h = tt

quotient-IsExact : (z : ℤ) (b : Bool) → IsExact (if b then null else checked z)
quotient-IsExact z b = ground arith

arithmetic-IsExact :
    (m : Arithmetic) (k : ExprKind) (a b : Value) → IsExact a → IsExact (sql_arithmetic m k a b)
arithmetic-IsExact m add (int x) (int y) h = checked-IsExact (x +ℤ y)
arithmetic-IsExact m subtract (int x) (int y) h = checked-IsExact (x -ℤ y)
arithmetic-IsExact m multiply (int x) (int y) h = checked-IsExact (x *ℤ y)
arithmetic-IsExact m divide (int x) (int y) h = quotient-IsExact (quot_ℤ x y) (eqb_ℤ y (pos 0))
arithmetic-IsExact m k (real x) b h = absurd h
arithmetic-IsExact m _ _ _ h = tt

operator-IsExact :
    (m : Arithmetic) (k : ExprKind) (a b : Value) → IsExact a → IsExact (sql_operator m k a b)
operator-IsExact m add a b h = arithmetic-IsExact m add a b h
operator-IsExact m subtract a b h = arithmetic-IsExact m subtract a b h
operator-IsExact m multiply a b h = arithmetic-IsExact m multiply a b h
operator-IsExact m divide a b h = arithmetic-IsExact m divide a b h
operator-IsExact m and a b h = truth-IsExact _ (connective-IsTruth m and a b tt)
operator-IsExact m or a b h = truth-IsExact _ (connective-IsTruth m or a b tt)
operator-IsExact m negation a b h = truth-IsExact _ (not-IsTruth a)
operator-IsExact m is_null a b h = truth-IsExact _ (is_null-IsTruth a)
operator-IsExact m k a b h = truth-IsExact _ (comparison-IsTruth k a b)

-- And it is no double if none stands in it.
pub value-IsExact :
    (m : Arithmetic) (env : ℕ → Value) (e : ExprPtr)
    → NoReals e
    → referenced_columns e ≡ []
    → IsExact (sql_value m env e)
unfolding referenced_columns sql_value
value-IsExact m env missing n h = tt
value-IsExact m env (node column id v u l r) n h = cc
value-IsExact m env (node literal id v u l r) n h = n.0
value-IsExact m env (node k id v u l r) (nv, nl, nr) h =
    let (cl, cr) = operator-columns k id v u l r tt h in
    operator-IsExact m k (sql_value m env l) (sql_value m env r) (value-IsExact m env l nl cl)
