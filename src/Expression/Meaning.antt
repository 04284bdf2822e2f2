-- ===== src/Expression/Meaning.antt =====
-- What a whole expression means on one row, from the values of the columns: the specification that
-- the engine's treatment of expressions (src/expression.cpp, src/statistics.cpp) is measured by.
use vectorized_query_engine.Base.{ℕ}
use vectorized_query_engine.Vector.Double.{Arithmetic}
use vectorized_query_engine.Vector.Value.{Value, null}
use vectorized_query_engine.Expression.{
  ExprKind, column, literal, add, subtract, multiply, divide, and, or, negation, is_null, ExprPtr,
  missing, node,
}
use vectorized_query_engine.Expression.Scalar.{
  sql_arithmetic, sql_compare, sql_and, sql_or, sql_not, sql_is_null,
}

abbrev pub sql_operator : Arithmetic → ExprKind → Value → Value → Value
sql_operator m add a b = sql_arithmetic m add a b
sql_operator m subtract a b = sql_arithmetic m subtract a b
sql_operator m multiply a b = sql_arithmetic m multiply a b
sql_operator m divide a b = sql_arithmetic m divide a b
sql_operator m and a b = sql_and a b
sql_operator m or a b = sql_or a b
sql_operator m negation a b = sql_not a
sql_operator m is_null a b = sql_is_null a
sql_operator m k a b = sql_compare k a b

-- `env` gives the value of the column with an ID.
unfoldable pub sql_value : Arithmetic → (ℕ → Value) → ExprPtr → Value
sql_value m env missing = null
sql_value m env (node column id v t l r) = env id
sql_value m env (node literal id v t l r) = v
sql_value m env (node k id v t l r) = sql_operator m k (sql_value m env l) (sql_value m env r)
