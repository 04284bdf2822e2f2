-- ===== src/Expression/Typing.antt =====
-- `expression_type` (src/expression.cpp) as a family of typing rules, for the expressions that the
-- factory functions build.
pub mod Values
pub mod Constant
use vectorized_query_engine.Base.{
  ℕ, zero, suc, ◌+◌, ◌≡◌, refl, sym, ap, ◌∙◌, Bool, true, false, not, Option, none, some, List, [],
  ◌∷◌, get_elem?, if◌then◌else◌, ◌==◌, arith, inl, inr, Bool-cases,
}
use vectorized_query_engine.Base.Results.{
  Result, ok, err, invalid_argument, throw_if, ◌>>=◌, ◌>>◌, >>=-eq-ok, ok-injective,
}
use vectorized_query_engine.Vector.Value.{
  DataType, boolean, int64, double, string, Schema, Value, Field, type_eq, index_from, column_index,
}
use vectorized_query_engine.Expression.{
  ExprKind, column, literal, add, subtract, multiply, divide, equal, not_equal, less, less_equal,
  greater, greater_equal, and, or, negation, is_null, ExprPtr, missing, node, column_type,
  is_numeric, operator_type, node_type, expression_type,
}
use vectorized_query_engine.Expression.Evaluator.Compare.{IsComparison}
use vectorized_query_engine.Expression.Evaluator.Numbers.{IsArithmetic}

abbrev pub IsConnective : ExprKind → Type 0
IsConnective and = Unit
IsConnective or = Unit
IsConnective _ = ⊥

-- Which operands the factory functions give a node of each kind.
abbrev pub Shape : ExprKind → ExprPtr → ExprPtr → Type 0 → Type 0 → Type 0
Shape column missing missing A B = Unit
Shape column _ _ A B = ⊥
Shape literal missing missing A B = Unit
Shape literal _ _ A B = ⊥
Shape negation l missing A B = A
Shape negation l _ A B = ⊥
Shape is_null l missing A B = A
Shape is_null l _ A B = ⊥
Shape k l r A B = A × B

abbrev pub IsBuilt : ExprPtr → Type 0
IsBuilt missing = ⊥
IsBuilt (node k id v t l r) = Shape k l r (IsBuilt l) (IsBuilt r)

pub data Typed (s : Schema) : ExprPtr → DataType → Type 0 where
  column_rule :
      {id : ℕ} (v : Value) (u : DataType) {t : DataType}
      → column_type s id ≡ ok t
      → Typed s (node column id v u missing missing) t
  literal_rule :
      (id : ℕ) (v : Value) (t : DataType) → Typed s (node literal id v t missing missing) t
  arithmetic_rule :
      (k : ExprKind) (id : ℕ) (v : Value) (u : DataType) {t : DataType} {l r : ExprPtr}
      → IsArithmetic k
      → is_numeric t ≡ true
      → Typed s l t
      → Typed s r t
      → Typed s (node k id v u l r) t
  comparison_rule :
      (k : ExprKind) (id : ℕ) (v : Value) (u : DataType) {t : DataType} {l r : ExprPtr}
      → IsComparison k
      → Typed s l t
      → Typed s r t
      → Typed s (node k id v u l r) boolean
  connective_rule :
      (k : ExprKind) (id : ℕ) (v : Value) (u : DataType) {l r : ExprPtr}
      → IsConnective k
      → Typed s l boolean
      → Typed s r boolean
      → Typed s (node k id v u l r) boolean
  not_rule :
      (id : ℕ) (v : Value) (u : DataType) {l : ExprPtr}
      → Typed s l boolean
      → Typed s (node negation id v u l missing) boolean
  null_rule :
      (id : ℕ) (v : Value) (u : DataType) {t : DataType} {l : ExprPtr}
      → Typed s l t
      → Typed s (node is_null id v u l missing) boolean

type_eq-eq : (a b : DataType) → type_eq a b ≡ true → a ≡ b
type_eq-eq a b h = ground arith

-- The two operands of a binary operator have one type.
operands :
    (a : DataType) (right : Result DataType) (f : DataType → Result DataType) {t : DataType}
    → (right >>= λ b. throw_if (not (type_eq a b)) invalid_argument >> f a) ≡ ok t
    → (right ≡ ok a) × (f a ≡ ok t)
operands a right f h =
    let (b, eb, k) = >>=-eq-ok right _ h in
    elim (Bool-cases (type_eq a b)) [
      | inl same ↦ (eb ∙ ap ok (sym (type_eq-eq a b same)), rw same at k)
      | inr differ ↦ (let g = rw differ at k in cc)
    ]

numeric_result :
    (a : DataType) {t : DataType}
    → (throw_if (not (is_numeric a)) invalid_argument >> ok a) ≡ ok t
    → (a ≡ t) × (is_numeric a ≡ true)
numeric_result a h = ground arith

boolean_result :
    (a : DataType) {t : DataType}
    → (throw_if (not (type_eq a boolean)) invalid_argument >> ok boolean) ≡ ok t
    → (a ≡ boolean) × (t ≡ boolean)
boolean_result a h = ground arith

both :
    (left right : Result DataType) (f : DataType → Result DataType) {t : DataType}
    → (left >>= λ a. right >>= λ b. throw_if (not (type_eq a b)) invalid_argument >> f a) ≡ ok t
    → (a : DataType) × (left ≡ ok a) × (right ≡ ok a) × (f a ≡ ok t)
both left right f h =
    let (a, ea, k) = >>=-eq-ok left _ h in let (eb, fa) = operands a right f k in (a, ea, eb, fa)

-- The kinds of a node with operands.
abbrev pub IsOperator : ExprKind → Type 0
IsOperator column = ⊥
IsOperator literal = ⊥
IsOperator _ = Unit

pub IsArithmetic-IsOperator : (k : ExprKind) → IsArithmetic k → IsOperator k
IsArithmetic-IsOperator column h = h
IsArithmetic-IsOperator literal h = h
IsArithmetic-IsOperator _ h = tt

pub IsComparison-IsOperator : (k : ExprKind) → IsComparison k → IsOperator k
IsComparison-IsOperator column h = h
IsComparison-IsOperator literal h = h
IsComparison-IsOperator _ h = tt

pub IsConnective-IsOperator : (k : ExprKind) → IsConnective k → IsOperator k
IsConnective-IsOperator column h = h
IsConnective-IsOperator literal h = h
IsConnective-IsOperator _ h = tt

module _ (s : Schema) where
  -- Every expression that the factory functions build and that `expression_type` accepts is typed by
  -- the rules.
  pub expression_type-Typed :
      (e : ExprPtr) {t : DataType} → IsBuilt e → expression_type e s ≡ ok t → Typed s e t
  unfolding expression_type
  expression_type-Typed missing built h = absurd built
  expression_type-Typed (node column id v u missing missing) built h = column_rule v u h
  expression_type-Typed (node column id v u _ _) built h = absurd built
  expression_type-Typed (node literal id v u missing missing) built h =
      rw (← ok-injective h) (literal_rule id v u)
  expression_type-Typed (node literal id v u _ _) built h = absurd built
  expression_type-Typed (node negation id v u l missing) built h =
      let (a, ea, k) = >>=-eq-ok (expression_type l s) _ h in
      let (same, bool_t) = boolean_result a k in
      rw bool_t (not_rule id v u (expression_type-Typed l built (ea ∙ ap ok same)))
  expression_type-Typed (node negation id v u l (node _ _ _ _ _ _)) built h = absurd built
  expression_type-Typed (node is_null id v u l missing) built h =
      let (a, ea, k) = >>=-eq-ok (expression_type l s) _ h in
      rw (← ok-injective k) (null_rule id v u (expression_type-Typed l built ea))
  expression_type-Typed (node is_null id v u l (node _ _ _ _ _ _)) built h = absurd built
  expression_type-Typed (node add id v u l r) built h =
      let (a, ea, eb, f) = both (expression_type l s) (expression_type r s) (operator_type add) h in
      let (same, number) = numeric_result a f in
      arithmetic_rule add id v u tt (rw same at number)
        (expression_type-Typed l built.0 (ea ∙ ap ok same))
        (expression_type-Typed r built.1 (eb ∙ ap ok same))
  expression_type-Typed (node subtract id v u l r) built h =
      let (a, ea, eb, f) =
        both (expression_type l s) (expression_type r s) (operator_type subtract) h in
      let (same, number) = numeric_result a f in
      arithmetic_rule subtract id v u tt (rw same at number)
        (expression_type-Typed l built.0 (ea ∙ ap ok same))
        (expression_type-Typed r built.1 (eb ∙ ap ok same))
  expression_type-Typed (node multiply id v u l r) built h =
      let (a, ea, eb, f) =
        both (expression_type l s) (expression_type r s) (operator_type multiply) h in
      let (same, number) = numeric_result a f in
      arithmetic_rule multiply id v u tt (rw same at number)
        (expression_type-Typed l built.0 (ea ∙ ap ok same))
        (expression_type-Typed r built.1 (eb ∙ ap ok same))
  expression_type-Typed (node divide id v u l r) built h =
      let (a, ea, eb, f) =
        both (expression_type l s) (expression_type r s) (operator_type divide) h in
      let (same, number) = numeric_result a f in
      arithmetic_rule divide id v u tt (rw same at number)
        (expression_type-Typed l built.0 (ea ∙ ap ok same))
        (expression_type-Typed r built.1 (eb ∙ ap ok same))
  expression_type-Typed (node equal id v u l r) built h =
      let (a, ea, eb, f) =
        both (expression_type l s) (expression_type r s) (operator_type equal) h in
      rw (← ok-injective f) (
        comparison_rule equal id v u tt (expression_type-Typed l built.0 ea)
          (expression_type-Typed r built.1 eb))
  expression_type-Typed (node not_equal id v u l r) built h =
      let (a, ea, eb, f) =
        both (expression_type l s) (expression_type r s) (operator_type not_equal) h in
      rw (← ok-injective f) (
        comparison_rule not_equal id v u tt (expression_type-Typed l built.0 ea)
          (expression_type-Typed r built.1 eb))
  expression_type-Typed (node less id v u l r) built h =
      let (a, ea, eb, f) =
        both (expression_type l s) (expression_type r s) (operator_type less) h in
      rw (← ok-injective f) (
        comparison_rule less id v u tt (expression_type-Typed l built.0 ea)
          (expression_type-Typed r built.1 eb))
  expression_type-Typed (node less_equal id v u l r) built h =
      let (a, ea, eb, f) =
        both (expression_type l s) (expression_type r s) (operator_type less_equal) h in
      rw (← ok-injective f) (
        comparison_rule less_equal id v u tt (expression_type-Typed l built.0 ea)
          (expression_type-Typed r built.1 eb))
  expression_type-Typed (node greater id v u l r) built h =
      let (a, ea, eb, f) =
        both (expression_type l s) (expression_type r s) (operator_type greater) h in
      rw (← ok-injective f) (
        comparison_rule greater id v u tt (expression_type-Typed l built.0 ea)
          (expression_type-Typed r built.1 eb))
  expression_type-Typed (node greater_equal id v u l r) built h =
      let (a, ea, eb, f) =
        both (expression_type l s) (expression_type r s) (operator_type greater_equal) h in
      rw (← ok-injective f) (
        comparison_rule greater_equal id v u tt (expression_type-Typed l built.0 ea)
          (expression_type-Typed r built.1 eb))
  expression_type-Typed (node and id v u l r) built h =
      let (a, ea, eb, f) = both (expression_type l s) (expression_type r s) (operator_type and) h in
      let (same, bool_t) = boolean_result a f in
      rw bool_t (
        connective_rule and id v u tt (expression_type-Typed l built.0 (ea ∙ ap ok same))
          (expression_type-Typed r built.1 (eb ∙ ap ok same)))
  expression_type-Typed (node or id v u l r) built h =
      let (a, ea, eb, f) = both (expression_type l s) (expression_type r s) (operator_type or) h in
      let (same, bool_t) = boolean_result a f in
      rw bool_t (
        connective_rule or id v u tt (expression_type-Typed l built.0 (ea ∙ ap ok same))
          (expression_type-Typed r built.1 (eb ∙ ap ok same)))

  operator-expression_type :
      (k : ExprKind) (id : ℕ) (v : Value) (u : DataType) (l r : ExprPtr) {a b : DataType}
      → IsOperator k
      → expression_type l s ≡ ok a
      → expression_type r s ≡ ok b
      → expression_type (node k id v u l r) s ≡ node_type k a (ok b)
  unfolding expression_type
  operator-expression_type column id v u l r h el er = absurd h
  operator-expression_type literal id v u l r h el er = absurd h
  operator-expression_type negation id v u l r h el er = rw el
  operator-expression_type is_null id v u l r h el er = rw el
  operator-expression_type _ id v u l r h el er = rw (el, er)

  arithmetic_type :
      (k : ExprKind) (t : DataType)
      → IsArithmetic k
      → is_numeric t ≡ true
      → node_type k t (ok t) ≡ ok t
  arithmetic_type k t h n = ground arith

  connective_type : (k : ExprKind) → IsConnective k → node_type k boolean (ok boolean) ≡ ok boolean
  connective_type k h = ground arith

  comparison_type :
      (k : ExprKind) (t : DataType) → IsComparison k → node_type k t (ok t) ≡ ok boolean
  comparison_type k t h = ground arith

  -- What the rules type, `expression_type` accepts with that type.
  pub Typed-expression_type :
      {e : ExprPtr} {t : DataType} → Typed s e t → expression_type e s ≡ ok t
  unfolding expression_type
  Typed-expression_type (column_rule v u h) = h
  Typed-expression_type (literal_rule id v t) = refl
  Typed-expression_type (arithmetic_rule k id v u {t} {l} {r} h n hl hr) =
      operator-expression_type k id v u l r (IsArithmetic-IsOperator k h) (Typed-expression_type hl)
        (Typed-expression_type hr)
      ∙ arithmetic_type k t h n
  Typed-expression_type (comparison_rule k id v u {t} {l} {r} h hl hr) =
      operator-expression_type k id v u l r (IsComparison-IsOperator k h) (Typed-expression_type hl)
        (Typed-expression_type hr)
      ∙ comparison_type k t h
  Typed-expression_type (connective_rule k id v u {l} {r} h hl hr) =
      operator-expression_type k id v u l r (IsConnective-IsOperator k h) (Typed-expression_type hl)
        (Typed-expression_type hr)
      ∙ connective_type k h
  Typed-expression_type (not_rule id v u l) = rw (Typed-expression_type l)
  Typed-expression_type (null_rule id v u l) = rw (Typed-expression_type l)
