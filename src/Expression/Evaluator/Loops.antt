-- ===== src/Expression/Evaluator/Loops.antt =====
-- The loops of `evaluate` (src/expression.cpp) over a node with two operands, into a reset buffer.
use vectorized_query_engine.Base.{ℕ, ◌≤◌, ◌≡◌, sym, ◌∙◌, Bool, true, arith}
use vectorized_query_engine.Vector.Batch
use vectorized_query_engine.Vector.Batch.{Batch}
use vectorized_query_engine.Vector.Column.{Column}
use vectorized_query_engine.Vector.Validity.{all_valid}
use vectorized_query_engine.Vector.Value.{DataType, boolean, int64, double, string, Value}
use vectorized_query_engine.Expression.{ExprKind, ExprPtr, is_numeric}
use vectorized_query_engine.Expression.Scalar.{sql_arithmetic, sql_compare}
use vectorized_query_engine.Expression.Evaluator.{
  Setting, active, for_rows, arithmetic_row, comparison_row, connective_row,
}
use vectorized_query_engine.Expression.Evaluator.Logic.{connective, connective-Computes}
use vectorized_query_engine.Expression.Evaluator.Compare.{IsComparison, comparison-Computes}
use vectorized_query_engine.Expression.Evaluator.Numbers.{IsArithmetic, arithmetic-Computes}
use vectorized_query_engine.Expression.Evaluator.Plain.{
  IsPlain-IsNormal, IsPlain-InRange, for_rows-Keeps, connective_row-Keeps, comparison_row-Keeps,
  arithmetic_row-Keeps,
}
use vectorized_query_engine.Expression.Evaluator.Reals.{
  AllValid, double_rows-Computes, all_valid-AllValid,
}
use vectorized_query_engine.Expression.Evaluator.Literals.{reset-IsShaped}
use vectorized_query_engine.Expression.Evaluator.Operator.{IsListed, IsOperand, Yields, buffer}

module _ (g : Setting) {b : Batch} (good : IsListed b) where
  -- Operands without NULL are valid in every row.
  pub full_operand :
      {e : ExprPtr} {t : DataType} {f : ℕ → Value} {c : Column}
      → IsOperand b e t f c
      → all_valid c.validity ≡ true
      → AllValid c b.physical_size
  full_operand {c = c} o h i p =
      all_valid-AllValid c o.shaped.mask h i (omega (arith, o.shaped.counted))

  -- The bound of a kernel's loop.
  dense_bound : b.selection.dense ≡ true → Batch.size b ≤ b.physical_size
  dense_bound = good.dense

  pub connective_loop :
      (is_and : Bool) {e e' : ExprPtr} {f f' : ℕ → Value} {a c : Column}
      → IsOperand b e boolean f a
      → IsOperand b e' boolean f' c
      → Yields b
          (for_rows (connective_row is_and a c) (active b) (buffer b boolean))
          boolean
          (λ i. connective is_and (f i) (f' i))
  connective_loop is_and {a = a} {c} oa oc =
      let (so, fo, to, po) = reset-IsShaped boolean b.physical_size good.small in
      let (r, e, sr, hit) =
        connective-Computes (active b) good.below (oa.shaped, oa.type) (so, to) is_and c
          (oc.shaped, oc.type) in
      (
        r,
        e,
        sr.0,
        sr.1,
        for_rows-Keeps (connective_row is_and a c) (active b) (buffer b boolean) r
            (connective_row-Keeps is_and a c) e po,
        λ i h. hit i h ∙ (let p = oa.listed i h in let q = oc.listed i h in rw (p, q)),
      )

  pub comparison_loop :
      (k : ExprKind) {e e' : ExprPtr} {t : DataType} {f f' : ℕ → Value} {a c : Column}
      → IsComparison k
      → IsOperand b e t f a
      → IsOperand b e' t f' c
      → Yields b
          (for_rows (comparison_row k a c) (active b) (buffer b boolean))
          boolean
          (λ i. sql_compare k (f i) (f' i))
  comparison_loop k {a = a} {c} hk oa oc =
      let (so, fo, to, po) = reset-IsShaped boolean b.physical_size good.small in
      let (r, e, sr, hit) =
        comparison-Computes k (active b) hk good.below oa.shaped oc.shaped (oc.type ∙ sym oa.type)
          (IsPlain-IsNormal a.payload oa.plain) (IsPlain-IsNormal c.payload oc.plain) (so, to) in
      (
        r,
        e,
        sr.0,
        sr.1,
        for_rows-Keeps (comparison_row k a c) (active b) (buffer b boolean) r
            (comparison_row-Keeps k a c) e po,
        λ i h. hit i h ∙ (let p = oa.listed i h in let q = oc.listed i h in rw (p, q)),
      )

  pub arithmetic_loop :
      (k : ExprKind) {e e' : ExprPtr} {t : DataType} {f f' : ℕ → Value} {a c : Column}
      → IsArithmetic k
      → is_numeric t ≡ true
      → IsOperand b e t f a
      → IsOperand b e' t f' c
      → Yields b
          (for_rows (arithmetic_row g.arithmetic k a c) (active b) (buffer b t))
          t
          (λ i. sql_arithmetic g.arithmetic k (f i) (f' i))
  arithmetic_loop k {t = int64} {a = a} {c} hk num oa oc =
      let (so, fo, to, po) = reset-IsShaped int64 b.physical_size good.small in
      let (r, e, sr, hit) =
        arithmetic-Computes g.arithmetic k (active b) hk good.below (oa.shaped, oa.type)
          (oc.shaped, oc.type) (IsPlain-InRange a.payload oa.plain)
          (IsPlain-InRange c.payload oc.plain) (so, to) in
      (
        r,
        e,
        sr.0,
        sr.1,
        for_rows-Keeps (arithmetic_row g.arithmetic k a c) (active b) (buffer b int64) r
            (arithmetic_row-Keeps g.arithmetic k a c hk oa.plain oc.plain) e po,
        λ i h. hit i h ∙ (let p = oa.listed i h in let q = oc.listed i h in rw (p, q)),
      )
  arithmetic_loop k {t = double} {a = a} {c} hk num oa oc =
      let (so, fo, to, po) = reset-IsShaped double b.physical_size good.small in
      let (r, e, sr, hit) =
        double_rows-Computes g.arithmetic k hk (active b) good.below (oa.shaped, oa.type)
          (oc.shaped, oc.type) (so, to) in
      (
        r,
        e,
        sr.0,
        sr.1,
        for_rows-Keeps (arithmetic_row g.arithmetic k a c) (active b) (buffer b double) r
            (arithmetic_row-Keeps g.arithmetic k a c hk oa.plain oc.plain) e po,
        λ i h. hit i h ∙ (let p = oa.listed i h in let q = oc.listed i h in rw (p, q)),
      )
  arithmetic_loop k {t = boolean} hk num oa oc = cc
  arithmetic_loop k {t = string} hk num oa oc = cc
