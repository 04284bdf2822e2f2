-- ===== src/Plan/Simplify/Sound.antt =====
-- `simplify_expression` (src/plan.cpp) against the meaning of the expression in every row.
use vectorized_query_engine.Base.{
  ℕ, ◌≡◌, ◌⊎◌, refl, sym, ap, ◌∙◌, Bool, true, false, none, some, List, [], ◌∷◌, if◌then◌else◌,
  arith, inl, inr, Bool-cases,
}
use vectorized_query_engine.Base.Results.{Result, ok}
use vectorized_query_engine.Vector.Value.{
  DataType, boolean, int64, double, string, Schema, Value, null, bool, int, real, text, type_eq,
}
use vectorized_query_engine.Expression.{
  ExprKind, column, literal, and, or, negation, is_null, ExprPtr, missing, node, expression_type,
  referenced_columns, is_numeric, expression_equal, eq_bool,
}
use vectorized_query_engine.Expression.Scalar.{sql_and, sql_or, sql_not}
use vectorized_query_engine.Expression.Meaning.{sql_operator, sql_value}
use vectorized_query_engine.Expression.Typing.{
  Typed, column_rule, literal_rule, arithmetic_rule, comparison_rule, connective_rule, not_rule,
  null_rule, IsBuilt, expression_type-Typed, Typed-expression_type, IsOperator, IsConnective,
  IsConnective-IsOperator, IsArithmetic-IsOperator, IsComparison-IsOperator,
}
use vectorized_query_engine.Expression.Typing.Values.{
  IsTruth, IsRow, sql_value-IsOf, operator-value,
}
use vectorized_query_engine.Expression.Typing.Constant.{NoReals}
use vectorized_query_engine.Expression.Evaluator.Compare.{IsComparison}
use vectorized_query_engine.Expression.Evaluator.Numbers.{IsArithmetic}
use vectorized_query_engine.Expression.Evaluator.{Setting}
use vectorized_query_engine.Expression.Evaluator.Correct.{LiteralsFit, operator-LiteralsFit}
use vectorized_query_engine.Plan.Simplify.Equal.{expression_equal-value}
use vectorized_query_engine.Plan.Simplify.{
  fold_constant, constant_truth, with_constant, connective_case, negation_case, by_kind, combine,
  simplify_expression,
}
use vectorized_query_engine.Plan.Simplify.Folding.{IsFor, literal_for-IsFor, fold_constant-IsFor}

-- TRUE, FALSE and NULL under the connectives.
abbrev joined : Bool → Value → Value → Value
joined is_and a b = if is_and then sql_and a b else sql_or a b

joined-same : (is_and : Bool) (v : Value) → IsTruth v → joined is_and v v ≡ v
joined-same is_and v h = ground arith

joined-left :
    (is_and b : Bool) (v : Value)
    → IsTruth v
    → joined is_and (bool b) v ≡ (if eq_bool b is_and then v else bool b)
joined-left is_and b v h = ground arith

joined-right :
    (is_and b : Bool) (v : Value)
    → IsTruth v
    → joined is_and v (bool b) ≡ (if eq_bool b is_and then v else bool b)
joined-right is_and b v h = ground arith

not-not : (v : Value) → IsTruth v → sql_not (sql_not v) ≡ v
not-not v h = ground arith

list-cases {ℓ} : {A : Type ℓ} (xs : List A) → (xs ≡ []) ⊎ ((x : A) × (ys : List A) × (xs ≡ x ∷ ys))
list-cases [] = inl refl
list-cases (x ∷ xs) = inr (x, xs, refl)

fits-operator :
    (k : ExprKind) (l r : ExprPtr) (n : ℕ)
    → IsOperator k
    → LiteralsFit l n
    → LiteralsFit r n
    → LiteralsFit (node k 0 null int64 l r) n
fits-operator literal l r n h fl fr = absurd h
fits-operator _ l r n h fl fr = (fl, fr)

module _ (g : Setting) (s : Schema) (env : ℕ → Value) (row : IsRow s env) where
  -- The value of e in the row.
  abbrev val : ExprPtr → Value
  val e = sql_value g.arithmetic env e

  abbrev Fine : DataType → Value → ExprPtr → Type 0
  Fine t v e' = IsFor g.arithmetic s env t v e'

  abbrev Gives : Result ExprPtr → DataType → Value → Type 0
  Gives result t v = (e' : ExprPtr) × (result ≡ ok e') × Fine t v e'

  truth : {v : Value} {a : ExprPtr} → Fine boolean v a → IsTruth v
  truth f = rw f.same at (sql_value-IsOf g.arithmetic env 1 f.typed f.fit row)

  missing-typed : {t : DataType} → Typed s missing t → ⊥
  unfolding expression_type
  missing-typed h = (let e = Typed-expression_type s h in absurd cc)

  constant-cases :
      (a : ExprPtr)
      → Typed s a boolean
      → LiteralsFit a 1
      → (constant_truth a ≡ ok none)
        ⊎ ((b : Bool) × (constant_truth a ≡ ok (some b)) × (val a ≡ bool b))
  unfolding sql_value
  constant-cases missing h fit = absurd (missing-typed h)
  constant-cases (node literal id null boolean l r) h fit = inl refl
  constant-cases (node literal id (bool b) boolean l r) h fit = inr (b, refl, refl)
  constant-cases (node literal id (int z) boolean l r) h fit = absurd fit.matches
  constant-cases (node literal id (real z) boolean l r) h fit = absurd fit.matches
  constant-cases (node literal id (text z) boolean l r) h fit = absurd fit.matches
  constant-cases (node literal id v int64 l r) h fit = inl refl
  constant-cases (node literal id v double l r) h fit = inl refl
  constant-cases (node literal id v string l r) h fit = inl refl
  constant-cases (node _ id v t l r) h fit = inl refl

  with_constant-Gives :
      (is_and b : Bool) (other : ExprPtr) {v : Value}
      → Fine boolean v other
      → Gives (with_constant is_and b other) boolean (if eq_bool b is_and then v else bool b)
  with_constant-Gives true true other f = (other, refl, f)
  with_constant-Gives false false other f = (other, refl, f)
  with_constant-Gives true false other f =
      literal_for-IsFor g.arithmetic s env (bool false) boolean (tt, tt) tt refl
  with_constant-Gives false true other f =
      literal_for-IsFor g.arithmetic s env (bool true) boolean (tt, tt) tt refl

  connective_case-Gives :
      (is_and : Bool) (a b result : ExprPtr) {va vb : Value}
      → Fine boolean va a
      → Fine boolean vb b
      → Fine boolean (joined is_and va vb) result
      → Gives (connective_case is_and a b result) boolean (joined is_and va vb)
  unfolding connective_case
  connective_case-Gives is_and a b result {va} {vb} fa fb fr =
      elim (Bool-cases (expression_equal a b)) [
        | inl same ↦
            let e =
              sym fa.same ∙ expression_equal-value g.arithmetic env a b fa.exact same ∙ fb.same in
            let idempotent = joined-same is_and va (truth fa) in
            (a, rw same, rw (← e, idempotent) fa)
        | inr differ ↦ elim (constant-cases a fa.typed fa.fit) [
          | inr (x, ea, ex) ↦
              let e = sym fa.same ∙ ex in
              let law = joined-left is_and x vb (truth fb) in
              let (e', ee, f) = with_constant-Gives is_and x b fb in
              (e', rw (differ, ea) ee, rw (e, law) f)
          | inl ea ↦ elim (constant-cases b fb.typed fb.fit) [
            | inr (x, eb, ex) ↦
                let e = sym fb.same ∙ ex in
                let law = joined-right is_and x va (truth fa) in
                let (e', ee, f) = with_constant-Gives is_and x a fa in
                (e', rw (differ, ea, eb) ee, rw (e, law) f)
            | inl eb ↦ (result, rw (differ, ea, eb), fr)
          ]
        ]
      ]

  combine-constant :
      (k : ExprKind) (a b : ExprPtr)
      → referenced_columns (node k 0 null int64 a b) ≡ []
      → combine g k a b ≡ fold_constant g (node k 0 null int64 a b)
  unfolding combine
  combine-constant k a missing h = rw (combine, h)
  combine-constant k a (node _ _ _ _ _ _) h = rw (combine, h)

  combine-columns :
      (k : ExprKind) (a b : ExprPtr) {id : ℕ} {ids : List ℕ}
      → referenced_columns (node k 0 null int64 a b) ≡ id ∷ ids
      → combine g k a b ≡ by_kind k a b (node k 0 null int64 a b)
  unfolding combine
  combine-columns k a missing h = rw (combine, h)
  combine-columns k a (node _ _ _ _ _ _) h = rw (combine, h)

  combine-Gives :
      (k : ExprKind) (a b : ExprPtr) {t : DataType} {v : Value}
      → Fine t v (node k 0 null int64 a b)
      → type_eq t string ≡ false
      → Gives (by_kind k a b (node k 0 null int64 a b)) t v
      → Gives (combine g k a b) t v
  combine-Gives k a b {t} {v} f n (e', e, f') =
      elim (list-cases (referenced_columns (node k 0 null int64 a b))) [
        | inr (id, ids, some_column) ↦ (e', combine-columns k a b some_column ∙ e, f')
        | inl constant ↦
            let (c, ec, fc) =
              fold_constant-IsFor g s env (node k 0 null int64 a b) f.typed f.fit f.exact constant
                n in
            (c, combine-constant k a b constant ∙ ec, (rw f.same at fc))
      ]

  simplify-operator :
      (k : ExprKind) (id : ℕ) (v : Value) (u : DataType) (l r : ExprPtr) {a b : ExprPtr}
      → IsOperator k
      → simplify_expression g l ≡ ok a
      → simplify_expression g r ≡ ok b
      → simplify_expression g (node k id v u l r) ≡ combine g k a b
  unfolding simplify_expression
  simplify-operator column id v u l r h el er = absurd h
  simplify-operator literal id v u l r h el er = absurd h
  simplify-operator _ id v u l r h el er = rw (el, er)

  -- The node on the simplified operands.
  node-Fine :
      (k : ExprKind) (id : ℕ) (w : Value) (u : DataType) (l r : ExprPtr) {t t' t'' : DataType}
      {a b : ExprPtr}
      → IsOperator k
      → Typed s (node k 0 null int64 a b) t
      → Fine t' (val l) a
      → Fine t'' (val r) b
      → Fine t (val (node k id w u l r)) (node k 0 null int64 a b)
  node-Fine k id w u l r {a = a} {b} h typed fa fb = record {
    typed = typed;
    fit = fits-operator k a b 1 h fa.fit fb.fit;
    exact = (tt, fa.exact, fb.exact);
    same =
        operator-value g.arithmetic env k 0 null int64 a b h
        ∙ ap (λ x. sql_operator g.arithmetic k x (val b)) fa.same
        ∙ ap (λ x. sql_operator g.arithmetic k (val l) x) fb.same
        ∙ sym (operator-value g.arithmetic env k id w u l r h);
  }

  unary-Fine :
      (k : ExprKind) (id : ℕ) (w : Value) (u : DataType) (l : ExprPtr) {t t' : DataType}
      {a : ExprPtr}
      → IsOperator k
      → Typed s (node k 0 null int64 a missing) t
      → Fine t' (val l) a
      → Fine t (val (node k id w u l missing)) (node k 0 null int64 a missing)
  unary-Fine k id w u l {a = a} h typed fa = record {
    typed = typed;
    fit = fits-operator k a missing 1 h fa.fit tt;
    exact = (tt, fa.exact, tt);
    same =
        operator-value g.arithmetic env k 0 null int64 a missing h
        ∙ ap (λ x. sql_operator g.arithmetic k x (val missing)) fa.same
        ∙ sym (operator-value g.arithmetic env k id w u l missing h);
  }

  arithmetic-by_kind : (k : ExprKind) (a b r : ExprPtr) → IsArithmetic k → by_kind k a b r ≡ ok r
  arithmetic-by_kind k a b r h = ground arith

  comparison-by_kind : (k : ExprKind) (a b r : ExprPtr) → IsComparison k → by_kind k a b r ≡ ok r
  comparison-by_kind k a b r h = ground arith

  number_type : (t : DataType) → is_numeric t ≡ true → type_eq t string ≡ false
  number_type t h = ground arith

  connective-by_kind :
      (k : ExprKind) (id : ℕ) (w : Value) (u : DataType) (l r : ExprPtr) {a b : ExprPtr}
      → IsConnective k
      → Fine boolean (val l) a
      → Fine boolean (val r) b
      → Fine boolean (val (node k id w u l r)) (node k 0 null int64 a b)
      → Gives (by_kind k a b (node k 0 null int64 a b)) boolean (val (node k id w u l r))
  connective-by_kind and id w u l r {a} {b} h fa fb f =
      let means = operator-value g.arithmetic env and id w u l r tt in
      rw means (connective_case-Gives true a b (node and 0 null int64 a b) fa fb (rw means at f))
  connective-by_kind or id w u l r {a} {b} h fa fb f =
      let means = operator-value g.arithmetic env or id w u l r tt in
      rw means (connective_case-Gives false a b (node or 0 null int64 a b) fa fb (rw means at f))
  connective-by_kind _ id w u l r h fa fb f = absurd h

  negation_typed :
      {id : ℕ} {w : Value} {u t : DataType} {l r : ExprPtr}
      → Typed s (node negation id w u l r) t
      → Typed s l boolean
  negation_typed (not_rule _ _ _ tl) = tl
  negation_typed (arithmetic_rule _ _ _ _ h _ _ _) = absurd h
  negation_typed (comparison_rule _ _ _ _ h _ _) = absurd h
  negation_typed (connective_rule _ _ _ _ h _ _) = absurd h

  negation_case-Gives :
      (a : ExprPtr) {v : Value}
      → Fine boolean v a
      → Fine boolean (sql_not v) (node negation 0 null int64 a missing)
      → Gives (ok (negation_case a (node negation 0 null int64 a missing))) boolean (sql_not v)
  unfolding sql_value
  negation_case-Gives (node negation id w u l r) {v} fa fr =
      let tl = negation_typed fa.typed in
      let good = sql_value-IsOf g.arithmetic env 1 tl fa.fit.0 row in
      (
        l,
        refl,
        record {
          typed = tl;
          fit = fa.fit.0;
          exact = fa.exact.1;
          same = sym (not-not (val l) good) ∙ ap sql_not fa.same;
        },
      )
  negation_case-Gives missing fa fr = absurd (missing-typed fa.typed)
  negation_case-Gives (node k id w u l r) fa fr = (_, refl, fr)

  pub simplify-Gives :
      {e : ExprPtr} {t : DataType}
      → Typed s e t
      → LiteralsFit e 1
      → NoReals e
      → Gives (simplify_expression g e) t (val e)
  unfolding simplify_expression
  simplify-Gives (column_rule v u h) fit exact =
      (_, refl, record { typed = column_rule v u h; fit = fit; exact = exact; same = refl })
  simplify-Gives (literal_rule id v t) fit exact =
      (_, refl, record { typed = literal_rule id v t; fit = fit; exact = exact; same = refl })
  simplify-Gives (arithmetic_rule k id v u {t} {l} {r} h n tl tr) fit exact =
      let o = IsArithmetic-IsOperator k h in
      let (fl, fr) = operator-LiteralsFit k id v u l r 1 o fit in
      let (a, ea, fa) = simplify-Gives tl fl exact.1 in
      let (b, eb, fb) = simplify-Gives tr fr exact.2 in
      let f =
        node-Fine k id v u l r o (arithmetic_rule k 0 null int64 h n fa.typed fb.typed) fa fb in
      let (e', ee, fe) =
        combine-Gives k a b f (number_type t n)
          (_, arithmetic-by_kind k a b (node k 0 null int64 a b) h, f) in
      (e', simplify-operator k id v u l r o ea eb ∙ ee, fe)
  simplify-Gives (comparison_rule k id v u {t} {l} {r} h tl tr) fit exact =
      let o = IsComparison-IsOperator k h in
      let (fl, fr) = operator-LiteralsFit k id v u l r 1 o fit in
      let (a, ea, fa) = simplify-Gives tl fl exact.1 in
      let (b, eb, fb) = simplify-Gives tr fr exact.2 in
      let f = node-Fine k id v u l r o (comparison_rule k 0 null int64 h fa.typed fb.typed) fa fb in
      let (e', ee, fe) =
        combine-Gives k a b f refl (_, comparison-by_kind k a b (node k 0 null int64 a b) h, f) in
      (e', simplify-operator k id v u l r o ea eb ∙ ee, fe)
  simplify-Gives (connective_rule k id v u {l} {r} h tl tr) fit exact =
      let o = IsConnective-IsOperator k h in
      let (fl, fr) = operator-LiteralsFit k id v u l r 1 o fit in
      let (a, ea, fa) = simplify-Gives tl fl exact.1 in
      let (b, eb, fb) = simplify-Gives tr fr exact.2 in
      let f = node-Fine k id v u l r o (connective_rule k 0 null int64 h fa.typed fb.typed) fa fb in
      let (e', ee, fe) = combine-Gives k a b f refl (connective-by_kind k id v u l r h fa fb f) in
      (e', simplify-operator k id v u l r o ea eb ∙ ee, fe)
  simplify-Gives (not_rule id v u {l} tl) fit exact =
      let (a, ea, fa) = simplify-Gives tl fit.0 exact.1 in
      let f = unary-Fine negation id v u l tt (not_rule 0 null int64 fa.typed) fa in
      let means = operator-value g.arithmetic env negation id v u l missing tt in
      let (e', ee, fe) =
        combine-Gives negation a missing f refl
          (rw means (negation_case-Gives a fa (rw means at f))) in
      (e', simplify-operator negation id v u l missing tt ea refl ∙ ee, fe)
  simplify-Gives (null_rule id v u {t} {l} tl) fit exact =
      let (a, ea, fa) = simplify-Gives tl fit.0 exact.1 in
      let f = unary-Fine is_null id v u l tt (null_rule 0 null int64 fa.typed) fa in
      let (e', ee, fe) = combine-Gives is_null a missing f refl (_, refl, f) in
      (e', simplify-operator is_null id v u l missing tt ea refl ∙ ee, fe)

-- Take an expression that the factory functions build and that expression_type accepts, with
-- literals of their types and no double among them, and a row with NULL or a value of its type in
-- each column. Then simplify_expression returns an expression of the same type that has the same
-- value in SQL on that row.
pub simplify_expression-Means :
    (g : Setting) (s : Schema) (env : ℕ → Value) (e : ExprPtr) {t : DataType}
    → IsRow s env
    → IsBuilt e
    → expression_type e s ≡ ok t
    → LiteralsFit e 1
    → NoReals e
    → (e' : ExprPtr) × (simplify_expression g e ≡ ok e')
      × (expression_type e' s ≡ ok t)
      × (sql_value g.arithmetic env e' ≡ sql_value g.arithmetic env e)
simplify_expression-Means g s env e row built typed fit exact =
    let (e', ee, f) =
      simplify-Gives g s env row (expression_type-Typed s e built typed) fit exact in
    (e', ee, Typed-expression_type s f.typed, f.same)
