-- ===== src/Expression/Evaluator/Binary.antt =====
-- The operator nodes of `evaluate` (src/expression.cpp) with two operands, on the kernels and on the loops.
use vectorized_query_engine.Base.{
  ℕ, ◌≡◌, refl, sym, ap, ◌∙◌, Bool, true, false, not, ◌&&◌, none, some, if◌then◌else◌, arith, inl,
  inr, Bool-cases, Option-cases,
}
use vectorized_query_engine.Base.Int.{ℤ}
use vectorized_query_engine.Vector.Batch
use vectorized_query_engine.Vector.Batch.{Batch}
use vectorized_query_engine.Vector.Column.{Column}
use vectorized_query_engine.Vector.Validity.{all_valid}
use vectorized_query_engine.Vector.Value.{
  DataType, boolean, int64, double, Value, null, bool, int, real, text, type_eq,
}
use vectorized_query_engine.Expression.{
  ExprKind, add, subtract, multiply, divide, equal, not_equal, less, less_equal, greater,
  greater_equal, and, or, ExprPtr, is_numeric,
}
use vectorized_query_engine.Expression.Scalar.{sql_arithmetic, sql_compare, sql_is_null}
use vectorized_query_engine.Expression.Meaning.{sql_operator}
use vectorized_query_engine.Expression.Typing.{IsConnective}
use vectorized_query_engine.Expression.Evaluator.{
  Setting, active, literal_value, run_operator, general_loop, for_rows, arithmetic_row,
  comparison_row, less_path, add_path,
}
use vectorized_query_engine.Expression.Evaluator.Compare.{IsComparison}
use vectorized_query_engine.Expression.Evaluator.Numbers.{IsArithmetic}
use vectorized_query_engine.Expression.Evaluator.Reals.{null_test}
use vectorized_query_engine.Expression.Evaluator.Literals.{reset-IsShaped}
use vectorized_query_engine.Expression.Evaluator.Paths.{dense_row, less_path_lem, add_path_lem}
use vectorized_query_engine.Expression.Evaluator.Operator.{IsListed, IsOperand, Yields, buffer}
use vectorized_query_engine.Expression.Evaluator.Loops.{
  connective_loop, comparison_loop, arithmetic_loop, full_operand,
}

module _ (g : Setting) {b : Batch} (good : IsListed b) where
  pub run-connective :
      (k : ExprKind) (r : ExprPtr) {e e' : ExprPtr} {f f' : ℕ → Value} {a c : Column}
      → IsConnective k
      → IsOperand b e boolean f a
      → IsOperand b e' boolean f' c
      → Yields b
          (run_operator g b k r a (some c) (buffer b boolean))
          boolean
          (λ i. sql_operator g.arithmetic k (f i) (f' i))
  unfolding run_operator general_loop
  run-connective and r h oa oc = connective_loop g good true oa oc
  run-connective or r h oa oc = connective_loop g good false oa oc
  run-connective _ r h oa oc = absurd h

  real_type : (t : DataType) → type_eq t double ≡ true → t ≡ double
  real_type t h = ground arith

  int_type : (t : DataType) → type_eq t int64 ≡ true → t ≡ int64
  int_type t h = ground arith

  -- An operand without NULL does not hold NULL everywhere.
  not_null_literal :
      {e : ExprPtr} {f : ℕ → Value} {c : Column} (v : Value)
      → IsOperand b e int64 f c
      → literal_value e ≡ some v
      → all_valid c.validity ≡ true
      → (n : ℤ) × (v ≡ int n)
  not_null_literal (int n) o lit all = (n, refl)
  not_null_literal {c = c} null o lit all =
      let (m, here) = o.everywhere null lit in
      let there =
        null_test c 0 ∙ ap (λ x. bool (not x)) (full_operand g good o all 0 good.occupied) in
      let seen = ap sql_is_null (here 0 good.occupied) in absurd (cc)
  not_null_literal (bool x) o lit all = absurd (o.everywhere (bool x) lit).0
  not_null_literal (real x) o lit all = absurd (o.everywhere (real x) lit).0
  not_null_literal (text x) o lit all = absurd (o.everywhere (text x) lit).0

  -- The comparison of a dense column without NULL with a literal runs on the kernel.
  less_kernel :
      {e e' : ExprPtr} {f f' : ℕ → Value} {a c : Column} (v : Value)
      → IsOperand b e int64 f a
      → IsOperand b e' int64 f' c
      → literal_value e' ≡ some v
      → b.selection.dense ≡ true
      → all_valid a.validity ≡ true
      → all_valid c.validity ≡ true
      → Yields b
          (less_path g (Batch.size b) v a (buffer b boolean))
          boolean
          (λ i. sql_compare less (f i) (f' i))
  less_kernel {a = a} {c} v oa oc lit dense fa fc =
      let (so, fo, to, po) = reset-IsShaped boolean b.physical_size good.small in
      let (n, number) = not_null_literal v oc lit fc in
      let (r, e, sr, plain, hit) =
        less_path_lem g (Batch.size b) n (oa.shaped, oa.type) (full_operand g good oa fa) (so, to)
          fo po (good.dense dense) in
      (
        r,
        (rw number e),
        sr.0,
        sr.1,
        plain,
        λ i h.
            let p = oa.listed i h in
            let q = sym (oc.listed i h) ∙ (oc.everywhere v lit).1 i (good.below i h) ∙ number in
            hit i (dense_row b i dense h) ∙ rw (p, q),
      )

  add_kernel :
      {e e' : ExprPtr} {f f' : ℕ → Value} {a c : Column}
      → IsOperand b e double f a
      → IsOperand b e' double f' c
      → b.selection.dense ≡ true
      → all_valid a.validity ≡ true
      → all_valid c.validity ≡ true
      → Yields b
          (add_path g (Batch.size b) a c (buffer b double))
          double
          (λ i. sql_arithmetic g.arithmetic add (f i) (f' i))
  add_kernel {a = a} {c} oa oc dense fa fc =
      let (so, fo, to, po) = reset-IsShaped double b.physical_size good.small in
      let (r, e, sr, plain, hit) =
        add_path_lem g (Batch.size b) (oa.shaped, oa.type) (full_operand g good oa fa)
          (oc.shaped, oc.type) (full_operand g good oc fc) (so, to) fo (good.dense dense) in
      (
        r,
        e,
        sr.0,
        sr.1,
        plain,
        λ i h.
            let p = oa.listed i h in
            let q = oc.listed i h in hit i (dense_row b i dense h) ∙ rw (p, q),
      )

  -- The three conditions of the kernels.
  dense_valid_lem :
      (x y z w : Bool)
      → ((x && y && z) && w) ≡ true
      → (x ≡ true) × (y ≡ true) × (z ≡ true) × (w ≡ true)
  dense_valid_lem x y z w h = ground arith

  -- Where the nodes of `<` and `+` run.
  no_literal-eq :
      (r : ExprPtr) (a c out : Column)
      → literal_value r ≡ none
      → run_operator g b less r a (some c) out ≡ for_rows (comparison_row less a c) (active b) out
  unfolding run_operator general_loop
  no_literal-eq r a c out h = rw (run_operator, h)

  literal-eq :
      (r : ExprPtr) (a c out : Column) (v : Value)
      → literal_value r ≡ some v
      → run_operator g b less r a (some c) out ≡ (
          if (b.selection.dense && all_valid a.validity && all_valid c.validity)
            && type_eq a.type int64
          then less_path g (Batch.size b) v a out
          else for_rows (comparison_row less a c) (active b) out)
  unfolding run_operator general_loop
  literal-eq r a c out v h = rw (run_operator, h)

  add-eq :
      (r : ExprPtr) (a c out : Column)
      → run_operator g b add r a (some c) out ≡ (
          if (b.selection.dense && all_valid a.validity && all_valid c.validity)
            && type_eq a.type double
          then add_path g (Batch.size b) a c out
          else for_rows (arithmetic_row g.arithmetic add a c) (active b) out)
  unfolding run_operator general_loop
  add-eq r a c out = refl

  run-less :
      (r : ExprPtr) {e : ExprPtr} {t : DataType} {f f' : ℕ → Value} {a c : Column}
      → IsOperand b e t f a
      → IsOperand b r t f' c
      → Yields b
          (run_operator g b less r a (some c) (buffer b boolean))
          boolean
          (λ i. sql_compare less (f i) (f' i))
  run-less r {e} {t} {f} {f'} {a} {c} oa oc =
      let out = buffer b boolean in
      let loop = comparison_loop g good less tt oa oc in
      elim (Option-cases (literal_value r)) [
        | inl gone ↦ rw (no_literal-eq r a c out gone) loop
        | inr (v, lit) ↦
            elim (Bool-cases (
              (b.selection.dense && all_valid a.validity && all_valid c.validity)
              && type_eq a.type int64)) [
                | inr general ↦ rw (literal-eq r a c out v lit, general) loop
                | inl fast ↦
                    let (dense, fa, fc, ints) = dense_valid_lem _ _ _ _ fast in
                    let same = sym oa.type ∙ int_type a.type ints in
                    rw (literal-eq r a c out v lit, fast)
                      (less_kernel {f = f} {f' = f'} v (rw same at oa) (rw same at oc) lit dense fa
                        fc)
              ]
      ]

  run-add :
      (r : ExprPtr) {e : ExprPtr} {t : DataType} {f f' : ℕ → Value} {a c : Column}
      → is_numeric t ≡ true
      → IsOperand b e t f a
      → IsOperand b r t f' c
      → Yields b
          (run_operator g b add r a (some c) (buffer b t))
          t
          (λ i. sql_arithmetic g.arithmetic add (f i) (f' i))
  run-add r {e} {t} {f} {f'} {a} {c} num oa oc =
      elim (Bool-cases (
        (b.selection.dense && all_valid a.validity && all_valid c.validity)
        && type_eq a.type double)) [
          | inr general ↦
              rw (add-eq r a c (buffer b t), general) (arithmetic_loop g good add tt num oa oc)
          | inl fast ↦
              let (dense, fa, fc, reals) = dense_valid_lem _ _ _ _ fast in
              let same = sym oa.type ∙ real_type a.type reals in
              rw (add-eq r a c (buffer b t), fast, same)
                (add_kernel {f = f} {f' = f'} (rw same at oa) (rw same at oc) dense fa fc)
        ]

  pub run-comparison :
      (k : ExprKind) (r : ExprPtr) {e : ExprPtr} {t : DataType} {f f' : ℕ → Value} {a c : Column}
      → IsComparison k
      → IsOperand b e t f a
      → IsOperand b r t f' c
      → Yields b
          (run_operator g b k r a (some c) (buffer b boolean))
          boolean
          (λ i. sql_operator g.arithmetic k (f i) (f' i))
  unfolding run_operator general_loop
  run-comparison less r h oa oc = run-less r oa oc
  run-comparison equal r h oa oc = comparison_loop g good equal tt oa oc
  run-comparison not_equal r h oa oc = comparison_loop g good not_equal tt oa oc
  run-comparison less_equal r h oa oc = comparison_loop g good less_equal tt oa oc
  run-comparison greater r h oa oc = comparison_loop g good greater tt oa oc
  run-comparison greater_equal r h oa oc = comparison_loop g good greater_equal tt oa oc
  run-comparison _ r h oa oc = absurd h

  pub run-arithmetic :
      (k : ExprKind) (r : ExprPtr) {e : ExprPtr} {t : DataType} {f f' : ℕ → Value} {a c : Column}
      → IsArithmetic k
      → is_numeric t ≡ true
      → IsOperand b e t f a
      → IsOperand b r t f' c
      → Yields b
          (run_operator g b k r a (some c) (buffer b t))
          t
          (λ i. sql_operator g.arithmetic k (f i) (f' i))
  unfolding run_operator general_loop
  run-arithmetic add r h num oa oc = run-add r num oa oc
  run-arithmetic subtract r h num oa oc = arithmetic_loop g good subtract tt num oa oc
  run-arithmetic multiply r h num oa oc = arithmetic_loop g good multiply tt num oa oc
  run-arithmetic divide r h num oa oc = arithmetic_loop g good divide tt num oa oc
  run-arithmetic _ r h num oa oc = absurd h
