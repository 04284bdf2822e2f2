-- ===== src/Plan/Simplify/Folding.antt =====
-- The constant folding of `simplify_expression` (src/plan.cpp): evaluation on one row.
use vectorized_query_engine.Base.{ℕ, ◌≡◌, refl, ◌∙◌, true, false, [], arith}
use vectorized_query_engine.Base.Results.{ok}
use vectorized_query_engine.Kernels.{auto}
use vectorized_query_engine.Vector.Double.{Arithmetic}
use vectorized_query_engine.Vector.Batch
use vectorized_query_engine.Vector.Batch.{Batch}
use vectorized_query_engine.Vector.Selection
use vectorized_query_engine.Vector.Selection.{Selection}
use vectorized_query_engine.Vector.Column.{value}
use vectorized_query_engine.Vector.Value.{
  DataType, boolean, int64, double, string, Schema, Value, null, bool, int, real, text, type_eq,
  value_type, validate_schema, validate_from,
}
use vectorized_query_engine.Expression.{
  ExprPtr, lit, null_literal, literal_of, referenced_columns, column_type,
}
use vectorized_query_engine.Expression.Meaning.{sql_value}
use vectorized_query_engine.Expression.Typing.{Typed, literal_rule}
use vectorized_query_engine.Expression.Typing.Values.{IsOf, IsExact, IsRow, sql_value-IsOf}
use vectorized_query_engine.Expression.Typing.Constant.{
  NoReals, Typed-anywhere, value-anywhere, value-IsExact,
}
use vectorized_query_engine.Expression.Evaluator.{Setting}
use vectorized_query_engine.Expression.Evaluator.Operator.{IsListed}
use vectorized_query_engine.Expression.Evaluator.Correct.{
  LiteralsFit, IsBatch, evaluate-Typed, row_of,
}
use vectorized_query_engine.Plan.Simplify.{singleton, literal_for, fold_constant}

-- The batch of one row without columns.
abbrev one : Batch
one = record {
  schema = [];
  columns = [];
  selection = record { dense = true; size = 1; indices = [] };
  capacity = 1;
  physical_size = 1;
}

singleton-one : singleton ≡ ok one
unfolding Batch.new validate_schema validate_from Batch.finish Selection.identity Batch.validate
    Batch.columns_match Batch.selected_below Selection.at
singleton-one = refl

one-IsListed : IsListed one
unfolding Selection.at
one-IsListed = record {
  below = λ i h. ground arith;
  dense = λ h. omega arith;
  occupied = omega arith;
  small = omega arith;
}

one-IsBatch : IsBatch [] one
one-IsBatch k f h = cc

one-IsRow : IsRow [] (row_of [] one 0)
unfolding column_type
one-IsRow id t h = absurd cc

module _ (m : Arithmetic) (s : Schema) (env : ℕ → Value) where
  -- e' is an expression of type t with the value v in the row.
  pub record IsFor (t : DataType) (v : Value) (e' : ExprPtr) : Type 0 where
    pub typed : Typed s e' t
    pub fit : LiteralsFit e' 1
    pub exact : NoReals e'
    pub same : sql_value m env e' ≡ v

  -- A literal for a value that is no text and no double.
  pub literal_for-IsFor :
      (v : Value) (t : DataType)
      → IsOf v t
      → IsExact v
      → type_eq t string ≡ false
      → (e' : ExprPtr) × (literal_for v t ≡ ok e') × IsFor t v e'
  unfolding lit value_type sql_value
  literal_for-IsFor null t h x n = (
    null_literal t,
    refl,
    record {
      typed = literal_rule 0 null t;
      fit = record { matches = tt; number = tt; room = omega arith };
      exact = (tt, tt, tt);
      same = refl;
    },
  )
  literal_for-IsFor (bool b) boolean h x n = (
    literal_of (bool b) boolean,
    refl,
    record {
      typed = literal_rule 0 (bool b) boolean;
      fit = record { matches = tt; number = tt; room = omega arith };
      exact = (tt, tt, tt);
      same = refl;
    },
  )
  literal_for-IsFor (int z) int64 h x n = (
    literal_of (int z) int64,
    refl,
    record {
      typed = literal_rule 0 (int z) int64;
      fit = record { matches = tt; number = h.1; room = omega arith };
      exact = (tt, tt, tt);
      same = refl;
    },
  )
  literal_for-IsFor (real y) t h x n = absurd x
  literal_for-IsFor (text w) string h x n = cc
  literal_for-IsFor (bool b) int64 h x n = absurd h.0
  literal_for-IsFor (bool b) double h x n = absurd h.0
  literal_for-IsFor (bool b) string h x n = absurd h.0
  literal_for-IsFor (int z) boolean h x n = absurd h.0
  literal_for-IsFor (int z) double h x n = absurd h.0
  literal_for-IsFor (int z) string h x n = absurd h.0
  literal_for-IsFor (text w) boolean h x n = absurd h.0
  literal_for-IsFor (text w) int64 h x n = absurd h.0
  literal_for-IsFor (text w) double h x n = absurd h.0

-- Folding evaluates the expression on one row.
pub fold_constant-IsFor :
    (g : Setting) (s : Schema) (env : ℕ → Value) (e : ExprPtr) {t : DataType}
    → Typed s e t
    → LiteralsFit e 1
    → NoReals e
    → referenced_columns e ≡ []
    → type_eq t string ≡ false
    → (e' : ExprPtr) × (fold_constant g e ≡ ok e')
      × IsFor g.arithmetic s env t (sql_value g.arithmetic env e) e'
unfolding Selection.at
fold_constant-IsFor g s env e {t} typed fit exact alone n =
    let m = g.arithmetic in
    let here = row_of [] one 0 in
    let anywhere = Typed-anywhere [] typed alone in
    let (c, ec, shaped, same, listed) =
      evaluate-Typed (record g { mode = auto }) e [] one-IsListed one-IsBatch anywhere fit in
    let v : value c 0 ≡ sql_value m env e = listed 0 refl ∙ value-anywhere m here env e alone in
    let typed_value = sql_value-IsOf m here 1 anywhere fit one-IsRow in
    let (e', el, good) =
      literal_for-IsFor m s env (sql_value m env e) t
        (rw (value-anywhere m env here e alone) typed_value) (value-IsExact m env e exact alone)
        n in
    (e', (unfold fold_constant in rw (singleton-one, ec, v, same) el), good)
