-- ===== src/Plan/Simplify/Equal.antt =====
-- `expression_equal` (src/expression.cpp): equal expressions mean the same, where no double stands in them.
use vectorized_query_engine.Base.{
  ℕ, ◌≡◌, refl, sym, ap, ◌∙◌, Bool, true, List, [], ◌∷◌, get_or, ◌==◌, ◌&&◌, arith, inl, inr,
  Bool-cases,
}
use vectorized_query_engine.Base.Int.{eqb_ℤ-eq}
use vectorized_query_engine.Vector.Double.{Arithmetic}
use vectorized_query_engine.Vector.Value.{DataType, Value, null, bool, int, real, text, type_eq}
use vectorized_query_engine.Expression.{
  ExprKind, column, literal, add, subtract, multiply, divide, equal, not_equal, less, less_equal,
  greater, greater_equal, and, or, negation, is_null, ExprPtr, missing, node, expression_equal,
  kind_index, eq_value, eq_text, eq_bool,
}
use vectorized_query_engine.Expression.Meaning.{sql_operator, sql_value}
use vectorized_query_engine.Expression.Typing.Values.{IsExact}
use vectorized_query_engine.Expression.Typing.Constant.{NoReals}

eq_text-eq : (a b : List ℕ) → eq_text a b ≡ true → a ≡ b
eq_text-eq [] [] h = refl
eq_text-eq [] (y ∷ ys) h = cc
eq_text-eq (x ∷ xs) [] h = cc
eq_text-eq (x ∷ xs) (y ∷ ys) h = elim (Bool-cases (x == y)) [
  | inr miss ↦ (let f = rw miss at h in cc)
  | inl hit ↦
      let same : x ≡ y = ground arith in
      let rest = eq_text-eq xs ys (rw hit at h) in rw (same, rest)
]

eq_bool-eq : (a b : Bool) → eq_bool a b ≡ true → a ≡ b
eq_bool-eq a b h = ground arith

eq_value-eq : (v w : Value) → IsExact v → eq_value v w ≡ true → v ≡ w
eq_value-eq null null x h = refl
eq_value-eq (bool a) (bool b) x h = ap bool (eq_bool-eq a b h)
eq_value-eq (int a) (int b) x h = ap int (eqb_ℤ-eq a b h)
eq_value-eq (text a) (text b) x h = ap text (eq_text-eq a b h)
eq_value-eq (real a) w x h = absurd x
eq_value-eq v w x h = cc

kinds : List ExprKind
kinds =
    column ∷ literal ∷ add ∷ subtract ∷ multiply ∷ divide ∷ equal ∷ not_equal ∷ less ∷ less_equal
    ∷ greater ∷ greater_equal ∷ and ∷ or ∷ negation ∷ is_null ∷ []

kinds-kind_index : (k : ExprKind) → get_or kinds (kind_index k) is_null ≡ k
unfolding kinds
kinds-kind_index column = refl
kinds-kind_index _ = refl

kind_index-injective : (j k : ExprKind) → kind_index j == kind_index k ≡ true → j ≡ k
kind_index-injective j k h =
    let same : kind_index j ≡ kind_index k = ground arith in
    sym (kinds-kind_index j) ∙ ap (λ i. get_or kinds i is_null) same ∙ kinds-kind_index k

six :
    (a b c d e f : Bool)
    → (a && b && c && d && e && f) ≡ true
    → (a ≡ true) × (b ≡ true) × (c ≡ true) × (e ≡ true) × (f ≡ true)
six a b c d e f h = ground arith

-- A node's value, from those of the operands.
abbrev node_value : Arithmetic → (ℕ → Value) → ExprKind → ℕ → Value → Value → Value → Value
node_value m env column id v a b = env id
node_value m env literal id v a b = v
node_value m env k id v a b = sql_operator m k a b

sql_value-node :
    (m : Arithmetic) (env : ℕ → Value) (k : ExprKind) (id : ℕ) (v : Value) (t : DataType)
    (l r : ExprPtr)
    → sql_value m env (node k id v t l r)
      ≡ node_value m env k id v (sql_value m env l) (sql_value m env r)
unfolding sql_value
sql_value-node m env column id v t l r = refl
sql_value-node m env literal id v t l r = refl
sql_value-node m env _ id v t l r = refl

-- Equal expressions without doubles have one value.
pub expression_equal-value :
    (m : Arithmetic) (env : ℕ → Value) (a b : ExprPtr)
    → NoReals a
    → expression_equal a b ≡ true
    → sql_value m env a ≡ sql_value m env b
unfolding expression_equal
expression_equal-value m env missing missing x h = refl
expression_equal-value m env missing (node _ _ _ _ _ _) x h = cc
expression_equal-value m env (node _ _ _ _ _ _) missing x h = cc
expression_equal-value m env (node k i v t l r) (node k' i' v' t' l' r') (xv, xl, xr) h =
    let (hk, hi, hv, hl, hr) =
      six (kind_index k == kind_index k') (i == i') (eq_value v v') (type_eq t t')
        (expression_equal l l') (expression_equal r r') h in
    let ek = kind_index-injective k k' hk in
    let ei : i ≡ i' = ground arith in
    let ev = eq_value-eq v v' xv hv in
    let el = expression_equal-value m env l l' xl hl in
    let er = expression_equal-value m env r r' xr hr in
    rw
      (sql_value-node m env k i v t l r, sql_value-node m env k' i' v' t' l' r', ek, ei, ev, el, er)
