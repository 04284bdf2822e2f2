-- ===== src/Expression/Evaluator/Operator.antt =====
-- One operator node of `evaluate` (src/expression.cpp), whichever of the kernels and loops it takes.
use vectorized_query_engine.Base.{ℕ, ◌+◌, ◌≤◌, ◌<◌, ◌^◌, ◌≡◌, ap, ◌∙◌, true, none, some}
use vectorized_query_engine.Base.Results.{Result, ok}
use vectorized_query_engine.Vector.Batch
use vectorized_query_engine.Vector.Batch.{Batch}
use vectorized_query_engine.Vector.Column
use vectorized_query_engine.Vector.Column.{Column, value, size}
use vectorized_query_engine.Vector.Value.{DataType, boolean, Value, contains}
use vectorized_query_engine.Vector.Column.Append.{MatchesType}
use vectorized_query_engine.Expression.{negation, is_null, ExprPtr}
use vectorized_query_engine.Expression.Scalar.{sql_not, sql_is_null}
use vectorized_query_engine.Expression.Evaluator.{
  Setting, active, literal_value, run_operator, general_loop, not_row, is_null_row,
}
use vectorized_query_engine.Expression.Evaluator.Rows.{IsShaped}
use vectorized_query_engine.Expression.Evaluator.Logic.{Below, not-Computes}
use vectorized_query_engine.Expression.Evaluator.Plain.{
  IsPlain, for_rows-Keeps, is_null_row-Keeps, not_row-Keeps,
}
use vectorized_query_engine.Expression.Evaluator.Reals.{is_null-Computes}
use vectorized_query_engine.Expression.Evaluator.Literals.{reset-IsShaped}

-- The rows that a batch lists lie inside it, and it has some rows.
pub record IsListed (b : Batch) : Type 0 where
  pub below : Below (active b) b.physical_size
  pub dense : b.selection.dense ≡ true → Batch.size b ≤ b.physical_size
  pub occupied : 0 < b.physical_size
  pub small : b.physical_size + 63 < 2 ^ 64

-- A column that a node has computed: a well-formed column of type t with f i in each listed row i,
-- and a literal's node has the literal in every row.
pub record IsOperand (b : Batch) (e : ExprPtr) (t : DataType) (f : ℕ → Value) (c : Column)
    : Type 0 where
  pub shaped : IsShaped c b.physical_size
  pub type : c.type ≡ t
  pub plain : IsPlain c.payload
  pub listed : (i : ℕ) → contains i (active b) ≡ true → value c i ≡ f i
  pub everywhere :
      (v : Value)
      → literal_value e ≡ some v
      → MatchesType v t × ((i : ℕ) → i < b.physical_size → value c i ≡ v)

-- What an operator's node yields.
abbrev pub Yields : Batch → Result Column → DataType → (ℕ → Value) → Type 0
Yields b result t f =
    (r : Column) × (result ≡ ok r)
    × IsShaped r b.physical_size
    × (r.type ≡ t)
    × IsPlain r.payload
    × ((i : ℕ) → contains i (active b) ≡ true → value r i ≡ f i)

-- The buffer of a node, reset.
abbrev pub buffer : Batch → DataType → Column
buffer b t = Column.reset (Column.new t) b.physical_size

module _ (g : Setting) {b : Batch} (good : IsListed b) where
  pub run-is_null :
      (r : ExprPtr) {e : ExprPtr} {t : DataType} {f : ℕ → Value} {a : Column}
      → IsOperand b e t f a
      → Yields b
          (run_operator g b is_null r a none (buffer b boolean))
          boolean
          (λ i. sql_is_null (f i))
  unfolding run_operator general_loop
  run-is_null r {a = a} oa =
      let (so, fo, to, po) = reset-IsShaped boolean b.physical_size good.small in
      let (c, e, sc, hit) = is_null-Computes (active b) a good.below (so, to) fo in
      (
        c,
        e,
        sc.0,
        sc.1,
        for_rows-Keeps (is_null_row a) (active b) (buffer b boolean) c (is_null_row-Keeps a) e po,
        λ i h. hit i h ∙ ap sql_is_null (oa.listed i h),
      )

  pub run-not :
      (r : ExprPtr) {e : ExprPtr} {f : ℕ → Value} {a : Column}
      → IsOperand b e boolean f a
      → Yields b
          (run_operator g b negation r a none (buffer b boolean))
          boolean
          (λ i. sql_not (f i))
  unfolding run_operator general_loop
  run-not r {a = a} oa =
      let (so, fo, to, po) = reset-IsShaped boolean b.physical_size good.small in
      let (c, e, sc, hit) = not-Computes (active b) good.below (oa.shaped, oa.type) (so, to) in
      (
        c,
        e,
        sc.0,
        sc.1,
        for_rows-Keeps (not_row a) (active b) (buffer b boolean) c (not_row-Keeps a) e po,
        λ i h. hit i h ∙ ap sql_not (oa.listed i h),
      )
