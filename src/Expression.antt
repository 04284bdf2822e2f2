-- ===== src/Expression.antt =====
-- include/vqe/expression.hpp and src/expression.cpp: typed expressions over the columns of a batch.
-- An `ExprPtr` is the null pointer or a node with all the fields of struct Expr.
pub mod Scalar
pub mod Meaning
pub mod Typing
pub mod Evaluator
use vectorized_query_engine.Base.{
  ℕ, zero, suc, ◌+◌, ◌≡◌, refl, Bool, true, false, not, ◌&&◌, ◌||◌, Option, none, some, List, [],
  ◌∷◌, ◌++◌, ◌==◌, if◌then◌else◌,
}
use vectorized_query_engine.Base.Int.{ℤ, eqb_ℤ}
use vectorized_query_engine.Base.Results.{Result, ok, err, invalid_argument, throw_if, ◌>>=◌, ◌>>◌}
use vectorized_query_engine.Vector.Double.{eq_double}
use vectorized_query_engine.Vector.Value.{
  DataType, boolean, int64, double, string, Value, null, bool, int, real, text, type_eq, Field,
  Schema, value_type, index_from, column_index,
}

-- `enum class ExprKind`, in the order that the range tests `Add..Divide` and `Equal..GreaterEqual` use
pub data ExprKind : Type 0 where
  column literal : ExprKind
  add subtract multiply divide : ExprKind
  equal not_equal less less_equal greater greater_equal : ExprKind
  and or negation is_null : ExprKind

pub data ExprPtr : Type 0 where
  missing : ExprPtr
  node : ExprKind → ℕ → Value → DataType → ExprPtr → ExprPtr → ExprPtr

-- The factory functions; the other fields keep their initialisers.
abbrev pub col : ℕ → ExprPtr
col id = node column id null int64 missing missing

abbrev pub literal_of : Value → DataType → ExprPtr
literal_of v t = node literal 0 v t missing missing

unfoldable pub lit : Value → Result ExprPtr
lit v = do t ← value_type v; ok (literal_of v t)

abbrev pub null_literal : DataType → ExprPtr
null_literal t = literal_of null t

abbrev pub unary : ExprKind → ExprPtr → ExprPtr
unary k a = node k 0 null int64 a missing

abbrev pub binary : ExprKind → ExprPtr → ExprPtr → ExprPtr
binary k a b = node k 0 null int64 a b

-- `s[column_index(s, id)].type`
unfoldable pub column_type : Schema → ℕ → Result DataType
column_type [] id = err invalid_argument
column_type (f ∷ s) id = if f.id == id then ok f.type else column_type s id

abbrev pub is_numeric : DataType → Bool
is_numeric int64 = true
is_numeric double = true
is_numeric _ = false

abbrev pub is_boolean : DataType → Bool
is_boolean t = type_eq t boolean

-- The last `switch` of `expression_type`: the result of an operator on two operands of type a.
abbrev pub operator_type : ExprKind → DataType → Result DataType
operator_type add a = do throw_if (not (is_numeric a)) invalid_argument; ok a
operator_type subtract a = do throw_if (not (is_numeric a)) invalid_argument; ok a
operator_type multiply a = do throw_if (not (is_numeric a)) invalid_argument; ok a
operator_type divide a = do throw_if (not (is_numeric a)) invalid_argument; ok a
operator_type and a = do throw_if (not (is_boolean a)) invalid_argument; ok boolean
operator_type or a = do throw_if (not (is_boolean a)) invalid_argument; ok boolean
operator_type _ a = ok boolean

-- What a node does with the type of its left operand; `right` is the type of the other one, if asked.
abbrev pub node_type : ExprKind → DataType → Result DataType → Result DataType
node_type is_null a right = ok boolean
node_type negation a right = do throw_if (not (is_boolean a)) invalid_argument; ok boolean
node_type k a right = do b ← right; throw_if (not (type_eq a b)) invalid_argument; operator_type k a

unfoldable pub expression_type : ExprPtr → Schema → Result DataType
unfolding column_type
expression_type missing s = err invalid_argument
expression_type (node column id v t l r) s = column_type s id
expression_type (node literal id v t l r) s = ok t
expression_type (node k id v t l r) s = do
  a ← expression_type l s
  node_type k a (expression_type r s)

-- A `std::set<ColumnId>`, as a list of its members in some order, perhaps repeated.
unfoldable pub referenced_columns : ExprPtr → List ℕ
referenced_columns missing = []
referenced_columns (node column id v t l r) = id ∷ referenced_columns l ++ referenced_columns r
referenced_columns (node k id v t l r) = referenced_columns l ++ referenced_columns r

-- The place of a kind in the enumeration, by which kinds are compared.
abbrev pub kind_index : ExprKind → ℕ
kind_index column = 0
kind_index literal = 1
kind_index add = 2
kind_index subtract = 3
kind_index multiply = 4
kind_index divide = 5
kind_index equal = 6
kind_index not_equal = 7
kind_index less = 8
kind_index less_equal = 9
kind_index greater = 10
kind_index greater_equal = 11
kind_index and = 12
kind_index or = 13
kind_index negation = 14
kind_index is_null = 15

abbrev pub eq_text : List ℕ → List ℕ → Bool
eq_text [] [] = true
eq_text (x ∷ xs) (y ∷ ys) = x == y && eq_text xs ys
eq_text _ _ = false

abbrev pub eq_bool : Bool → Bool → Bool
eq_bool true b = b
eq_bool false b = not b

-- `==` of `std::variant`: the same alternative, with equal contents. A NaN equals nothing.
abbrev pub eq_value : Value → Value → Bool
eq_value null null = true
eq_value (bool a) (bool b) = eq_bool a b
eq_value (int a) (int b) = eqb_ℤ a b
eq_value (real x) (real y) = eq_double x y
eq_value (text s) (text t) = eq_text s t
eq_value _ _ = false

-- `expression_equal` on two different objects. (The test `a == b` on pointers only adds that an
-- object equals itself.)
unfoldable pub expression_equal : ExprPtr → ExprPtr → Bool
expression_equal missing missing = true
expression_equal (node k i v t l r) (node k' i' v' t' l' r') =
    kind_index k == kind_index k'
    && i == i'
    && eq_value v v'
    && type_eq t t'
    && expression_equal l l'
    && expression_equal r r'
expression_equal _ _ = false
