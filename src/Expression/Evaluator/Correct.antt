-- ===== src/Expression/Evaluator/Correct.antt =====
-- `evaluate` (src/expression.cpp) on a batch, against the meaning of the expression on each row.
use vectorized_query_engine.Base.{
  ℕ, suc, ◌+◌, ◌≡◌, refl, sym, ap, ◌∙◌, true, false, none, some, List, [], ◌∷◌, get_elem?, ◌==◌,
  arith, inl, inr, Bool-cases,
}
use vectorized_query_engine.Base.Results.{Result, ok, err, ◌>>=◌}
use vectorized_query_engine.Vector.Batch.{Batch}
use vectorized_query_engine.Vector.Column.{Column, value}
use vectorized_query_engine.Vector.Value.{
  DataType, boolean, Schema, Field, Value, null, contains, column_index, index_from,
}
use vectorized_query_engine.Expression.{
  ExprKind, column, literal, negation, is_null, ExprPtr, missing, node, column_type,
  expression_type, kind_index,
}
use vectorized_query_engine.Expression.Meaning.{sql_operator, sql_value}
use vectorized_query_engine.Expression.Typing.{
  Typed, column_rule, literal_rule, arithmetic_rule, comparison_rule, connective_rule, not_rule,
  null_rule, IsBuilt, IsOperator, IsConnective-IsOperator, IsArithmetic-IsOperator,
  IsComparison-IsOperator, expression_type-Typed, Typed-expression_type,
}
use vectorized_query_engine.Expression.Evaluator.{
  Setting, active, run_node, run_operator, at_index, operand, literal_value, evaluate,
}
use vectorized_query_engine.Expression.Evaluator.Rows.{IsShaped}
use vectorized_query_engine.Expression.Evaluator.Plain.{IsPlain}
use vectorized_query_engine.Expression.Evaluator.Literals.{IsLiteral, literal-Fills}
use vectorized_query_engine.Expression.Evaluator.Operator.{
  IsListed, IsOperand, Yields, buffer, run-is_null, run-not,
}
use vectorized_query_engine.Expression.Evaluator.Binary.{
  run-connective, run-comparison, run-arithmetic,
}
use vectorized_query_engine.Expression.Evaluator.Nodes.{
  Compiles, node_of, at_index-found, leaf-Compiles, unary-Compiles, binary-Compiles,
}

-- Every literal has its type, and its copies in n rows fit.
abbrev pub LiteralsFit : ExprPtr → ℕ → Type 0
LiteralsFit missing n = Unit
LiteralsFit (node literal id v t l r) n = IsLiteral v t n
LiteralsFit (node _ id v t l r) n = LiteralsFit l n × LiteralsFit r n

-- The batch has a well-formed column for each field of the schema.
abbrev pub IsBatch : Schema → Batch → Type 0
IsBatch s b =
    (k : ℕ) (f : Field)
    → get_elem? s k ≡ some f
    → (c : Column) × (get_elem? b.columns k ≡ some c)
      × IsShaped c b.physical_size
      × (c.type ≡ f.type)
      × IsPlain c.payload

-- What row i holds in the column with an ID.
abbrev pub row_value : Batch → Result ℕ → ℕ → Value
row_value b (ok k) i = elim (get_elem? b.columns k) [ none ↦ null | some c ↦ value c i ]
row_value b (err thrown) i = null

abbrev pub row_of : Schema → Batch → ℕ → ℕ → Value
row_of s b i id = row_value b (column_index s id) i

-- A column that has a type has an index.
index-typed :
    (s : Schema) (id from : ℕ) {t : DataType}
    → column_type s id ≡ ok t
    → (k : ℕ) × (f : Field) × (index_from from s id ≡ ok (from + k))
      × (get_elem? s k ≡ some f)
      × (f.type ≡ t)
unfolding column_type index_from
index-typed [] id from h = cc
index-typed (f ∷ s) id from h = elim (Bool-cases (f.id == id)) [
  | inl hit ↦ (0, f, rw hit (ap ok (omega arith)), refl, ground arith)
  | inr miss ↦
      let (k, f', e, found, same) = index-typed s id (from + 1) (rw miss at h) in
      (suc k, f', rw miss (e ∙ ap ok (omega arith)), found, same)
]

operator-kind : (k : ExprKind) → IsOperator k → kind_index k == 0 ≡ false
operator-kind k h = ground arith

operator-literal_value :
    (k : ExprKind) (id : ℕ) (v : Value) (u : DataType) (l r : ExprPtr)
    → IsOperator k
    → literal_value (node k id v u l r) ≡ none
operator-literal_value k id v u l r h = ground arith

pub operator-LiteralsFit :
    (k : ExprKind) (id : ℕ) (v : Value) (u : DataType) (l r : ExprPtr) (n : ℕ)
    → IsOperator k
    → LiteralsFit (node k id v u l r) n
    → LiteralsFit l n × LiteralsFit r n
operator-LiteralsFit literal id v u l r n h fit = absurd h
operator-LiteralsFit _ id v u l r n h fit = fit

module _ (g : Setting) {b : Batch} (good : IsListed b) (s : Schema) (batch : IsBatch s b) where
  -- The value of e in row i.
  abbrev means : ExprPtr → ℕ → Value
  means e i = sql_value g.arithmetic (row_of s b i) e

  operator-means :
      (k : ExprKind) (id : ℕ) (v : Value) (u : DataType) (l r : ExprPtr) (i : ℕ)
      → IsOperator k
      → means (node k id v u l r) i ≡ sql_operator g.arithmetic k (means l i) (means r i)
  unfolding sql_value
  operator-means column id v u l r i h = absurd h
  operator-means literal id v u l r i h = absurd h
  operator-means _ id v u l r i h = refl

  run_node-operator :
      (k : ExprKind) (id : ℕ) (v : Value) (u t : DataType) (l r : ExprPtr) (values : List Column)
      (i j : ℕ) {a : Column}
      → IsOperator k
      → get_elem? values i ≡ some a
      → run_node g b (node_of (node k id v u l r) i j 0 t) values
        ≡ (operand r (at_index values j) >>= λ c. run_operator g b k r a c (buffer b t))
  unfolding run_node
  run_node-operator column id v u t l r values i j h e = absurd h
  run_node-operator literal id v u t l r values i j h e = absurd h
  run_node-operator _ id v u t l r values i j h e = rw (at_index-found values i e)

  typed_operand :
      {e : ExprPtr} {t : DataType} (c : Result Column)
      → Typed s e t
      → operand e c ≡ (c >>= λ x. ok (some x))
  typed_operand c (column_rule _ _ _) = refl
  typed_operand c (literal_rule _ _ _) = refl
  typed_operand c (arithmetic_rule _ _ _ _ _ _ _ _) = refl
  typed_operand c (comparison_rule _ _ _ _ _ _ _) = refl
  typed_operand c (connective_rule _ _ _ _ _ _ _) = refl
  typed_operand c (not_rule _ _ _ _) = refl
  typed_operand c (null_rule _ _ _ _) = refl

  -- What an operator yields is the column of its node.
  operator-IsOperand :
      (k : ExprKind) (id : ℕ) (v : Value) (u : DataType) (l r : ExprPtr) {t : DataType}
      {result : Result Column}
      → IsOperator k
      → Yields b result t (λ i. sql_operator g.arithmetic k (means l i) (means r i))
      → (c : Column) × (result ≡ ok c)
        × IsOperand b (node k id v u l r) t (means (node k id v u l r)) c
  operator-IsOperand k id v u l r h (c, e, shaped, typed, plain, hit) = (
    c,
    e,
    record {
      shaped = shaped;
      type = typed;
      plain = plain;
      listed = λ i p. hit i p ∙ sym (operator-means k id v u l r i h);
      everywhere = λ w lit. (let gone = operator-literal_value k id v u l r h in absurd cc);
    },
  )

  module _ (k : ExprKind) (id : ℕ) (v : Value) (u t : DataType) (l : ExprPtr)
      (h : IsOperator k) where
    -- A node with one operand, from the operator.
    unary_node :
        {a : DataType}
        → expression_type (node k id v u l missing) s ≡ ok t
        → Compiles g b s l (IsOperand b l a (means l))
        → ((c : Column)
            → IsOperand b l a (means l) c
            → Yields b
                (run_operator g b k missing c none (buffer b t))
                t
                (λ i. sql_operator g.arithmetic k (means l i) (means missing i)))
        → Compiles g b s
            (node k id v u l missing)
            (IsOperand b (node k id v u l missing) t (means (node k id v u l missing)))
    unary_node typed left runs =
        unary-Compiles g b s k id v u t l (operator-kind k h) typed left (λ values i j a found pa.
          let (c, e, oc) = operator-IsOperand k id v u l missing h (runs a pa) in
          (c, run_node-operator k id v u t l missing values i j h found ∙ e, oc))

    -- A node with two.
    binary_node :
        (r : ExprPtr) {a : DataType}
        → Typed s r a
        → expression_type (node k id v u l r) s ≡ ok t
        → Compiles g b s l (IsOperand b l a (means l))
        → Compiles g b s r (IsOperand b r a (means r))
        → ((c d : Column)
            → IsOperand b l a (means l) c
            → IsOperand b r a (means r) d
            → Yields b
                (run_operator g b k r c (some d) (buffer b t))
                t
                (λ i. sql_operator g.arithmetic k (means l i) (means r i)))
        → Compiles g b s
            (node k id v u l r)
            (IsOperand b (node k id v u l r) t (means (node k id v u l r)))
    binary_node r other typed left right runs =
        binary-Compiles g b s k id v u t l r (operator-kind k h) typed left right
          (λ values i j a c found pa found' pc.
            let (d, e, od) = operator-IsOperand k id v u l r h (runs a c pa pc) in
            (
              d,
              rw
                  (
                    run_node-operator k id v u t l r values i j h found,
                    typed_operand (at_index values j) other,
                    at_index-found values j found',
                  )
                  e,
              od,
            ))

  column_node :
      {id : ℕ} (v : Value) (u : DataType) {t : DataType}
      → column_type s id ≡ ok t
      → Compiles g b s (node column id v u missing missing) (
          IsOperand b
            (node column id v u missing missing)
            t
            (means (node column id v u missing missing)))
  column_node {id} v u {t} h =
      let (k, f, e, found, same) = index-typed s id 0 h in
      let place : column_index s id ≡ ok k = unfold column_index in (e ∙ ap ok (omega arith)) in
      let (c, there, shaped, typed, plain) = batch k f found in
      leaf-Compiles g b s column id v u t k place (unfold expression_type in h) c
        (λ values. unfold run_node in at_index-found b.columns k there)
        record {
          shaped = shaped;
          type = typed ∙ same;
          plain = plain;
          listed = λ i p. unfold sql_value in rw (place, row_value, there);
          everywhere = λ w lit. absurd cc;
        }

  literal_node :
      (id : ℕ) (v : Value) (t : DataType)
      → IsLiteral v t b.physical_size
      → Compiles g b s (node literal id v t missing missing) (
          IsOperand b
            (node literal id v t missing missing)
            t
            (means (node literal id v t missing missing)))
  literal_node id v t fit =
      let (c, e, shaped, typed, plain, all) = literal-Fills b.physical_size v t fit good.small in
      leaf-Compiles g b s literal id v t t 0 refl (unfold expression_type in refl) c
        (λ values. unfold run_node in e)
        record {
          shaped = shaped;
          type = typed;
          plain = plain;
          listed = λ i p. unfold sql_value in all i (good.below i p);
          everywhere = λ w lit. (let same : v ≡ w = cc in rw (← same) (fit.matches, all));
        }

  Typed-Compiles :
      {e : ExprPtr} {t : DataType}
      → Typed s e t
      → LiteralsFit e b.physical_size
      → Compiles g b s e (IsOperand b e t (means e))
  Typed-Compiles (column_rule v u h) fit = column_node v u h
  Typed-Compiles (literal_rule id v t) fit = literal_node id v t fit
  Typed-Compiles (arithmetic_rule k id v u {t} {l} {r} h n tl tr) fit =
      let o = IsArithmetic-IsOperator k h in
      let (fl, fr) = operator-LiteralsFit k id v u l r b.physical_size o fit in
      binary_node k id v u t l o r tr (Typed-expression_type s (arithmetic_rule k id v u h n tl tr))
        (Typed-Compiles tl fl) (Typed-Compiles tr fr)
        (λ c d oc od. run-arithmetic g good k r h n oc od)
  Typed-Compiles (comparison_rule k id v u {t} {l} {r} h tl tr) fit =
      let o = IsComparison-IsOperator k h in
      let (fl, fr) = operator-LiteralsFit k id v u l r b.physical_size o fit in
      binary_node k id v u boolean l o r tr
        (Typed-expression_type s (comparison_rule k id v u h tl tr)) (Typed-Compiles tl fl)
        (Typed-Compiles tr fr) (λ c d oc od. run-comparison g good k r h oc od)
  Typed-Compiles (connective_rule k id v u {l} {r} h tl tr) fit =
      let o = IsConnective-IsOperator k h in
      let (fl, fr) = operator-LiteralsFit k id v u l r b.physical_size o fit in
      binary_node k id v u boolean l o r tr
        (Typed-expression_type s (connective_rule k id v u h tl tr)) (Typed-Compiles tl fl)
        (Typed-Compiles tr fr) (λ c d oc od. run-connective g good k r h oc od)
  Typed-Compiles (not_rule id v u {l} tl) fit =
      unary_node negation id v u boolean l tt (Typed-expression_type s (not_rule id v u tl))
        (Typed-Compiles tl fit.0) (λ c oc. run-not g good missing oc)
  Typed-Compiles (null_rule id v u {t} {l} tl) fit =
      unary_node is_null id v u boolean l tt (Typed-expression_type s (null_rule id v u tl))
        (Typed-Compiles tl fit.0) (λ c oc. run-is_null g good missing oc)

-- What `evaluate` makes of a typed expression.
pub evaluate-Typed :
    (g : Setting) (e : ExprPtr) (s : Schema) {b : Batch} {t : DataType}
    → IsListed b
    → IsBatch s b
    → Typed s e t
    → LiteralsFit e b.physical_size
    → (c : Column) × (evaluate g e s b ≡ ok c)
      × IsShaped c b.physical_size
      × (c.type ≡ t)
      × ((i : ℕ)
          → contains i (active b) ≡ true
          → value c i ≡ sql_value g.arithmetic (row_of s b i) e)
evaluate-Typed g e s {b} {t} good batch typed fit =
    let (ns, at, compiled, run) = Typed-Compiles g good s batch typed fit [] in
    let (cs, ran, long, c, found, last, oc) = run [] refl in
    (
      c,
      (unfold evaluate in rw (Typed-expression_type s typed, compiled, ran, last)),
      oc.shaped,
      oc.type,
      oc.listed,
    )

-- Take an expression that the factory functions build and that expression_type accepts, and a batch
-- with rows, whose listed rows lie inside it, with a well-formed column of the field's type for
-- each field of the schema; let each literal be of its type, an integer one of 64 bits, and the
-- copies of a text fit the string arena. Then evaluate, on any machine and in any kernel mode,
-- returns a column of the expression's type with the batch's rows, and each listed row holds the
-- value that the expression has in SQL on that row.
pub evaluate-Computes :
    (g : Setting) (e : ExprPtr) (s : Schema) {b : Batch} {t : DataType}
    → IsListed b
    → IsBatch s b
    → IsBuilt e
    → expression_type e s ≡ ok t
    → LiteralsFit e b.physical_size
    → (c : Column) × (evaluate g e s b ≡ ok c)
      × IsShaped c b.physical_size
      × (c.type ≡ t)
      × ((i : ℕ)
          → contains i (active b) ≡ true
          → value c i ≡ sql_value g.arithmetic (row_of s b i) e)
evaluate-Computes g e s good batch built typed fit =
    evaluate-Typed g e s good batch (expression_type-Typed s e built typed) fit
