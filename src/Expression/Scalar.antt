-- ===== src/Expression/Scalar.antt =====
-- What SQL says of one row: the operators on values, with NULL and three-valued logic. This is the
-- specification of the vectorized evaluation; it does not follow the code's masks.
use vectorized_query_engine.Base.{
  ℕ, ◌^◌, Bool, true, false, not, ◌&&◌, List, [], ◌∷◌, ◌==◌, ltb, if◌then◌else◌,
}
use vectorized_query_engine.Base.Int.{ℤ, pos, negsuc, ◌+ℤ◌, ◌-ℤ◌, ◌*ℤ◌, quot_ℤ, ltb_ℤ, leb_ℤ, eqb_ℤ}
use vectorized_query_engine.Vector.Double.{Arithmetic, lt_double, le_double, eq_double}
use vectorized_query_engine.Vector.Value.{Value, null, bool, int, real, text}
use vectorized_query_engine.Expression.{
  ExprKind, add, subtract, multiply, divide, equal, not_equal, less, less_equal, greater,
  greater_equal, eq_text, eq_bool,
}

-- The range of `std::int64_t`
abbrev pub fits_int64 : ℤ → Bool
fits_int64 (pos n) = ltb n (2 ^ 63)
fits_int64 (negsuc n) = ltb n (2 ^ 63)

-- An exact result, or NULL where it does not fit.
abbrev pub checked : ℤ → Value
checked n = if fits_int64 n then int n else null

abbrev pub is_zero : ℕ → Bool
is_zero y = eq_double y 0

abbrev pub sql_arithmetic : Arithmetic → ExprKind → Value → Value → Value
sql_arithmetic m add (int x) (int y) = checked (x +ℤ y)
sql_arithmetic m subtract (int x) (int y) = checked (x -ℤ y)
sql_arithmetic m multiply (int x) (int y) = checked (x *ℤ y)
sql_arithmetic m divide (int x) (int y) = if eqb_ℤ y (pos 0) then null else checked (quot_ℤ x y)
sql_arithmetic m add (real x) (real y) = real (m.add x y)
sql_arithmetic m subtract (real x) (real y) = real (m.subtract x y)
sql_arithmetic m multiply (real x) (real y) = real (m.multiply x y)
sql_arithmetic m divide (real x) (real y) = if is_zero y then null else real (m.divide x y)
sql_arithmetic m k _ _ = null

abbrev pub lt_text : List ℕ → List ℕ → Bool
lt_text [] [] = false
lt_text [] (y ∷ ys) = true
lt_text (x ∷ xs) [] = false
lt_text (x ∷ xs) (y ∷ ys) = if x == y then lt_text xs ys else ltb x y

abbrev pub lt_bool : Bool → Bool → Bool
lt_bool a b = not a && b

-- The six comparisons from equality, `<` and `<=` of a type: `a > b` is `b < a`.
abbrev pub relation {ℓ} :
    {A : Type ℓ} → (A → A → Bool) → (A → A → Bool) → (A → A → Bool) → ExprKind → A → A → Bool
relation eq lt le equal a b = eq a b
relation eq lt le not_equal a b = not (eq a b)
relation eq lt le less a b = lt a b
relation eq lt le less_equal a b = le a b
relation eq lt le greater a b = lt b a
relation eq lt le greater_equal a b = le b a
relation eq lt le _ a b = false

abbrev pub sql_compare : ExprKind → Value → Value → Value
sql_compare k (bool a) (bool b) = bool (relation eq_bool lt_bool (λ x y. not (lt_bool y x)) k a b)
sql_compare k (int a) (int b) = bool (relation eqb_ℤ ltb_ℤ leb_ℤ k a b)
sql_compare k (real a) (real b) = bool (relation eq_double lt_double le_double k a b)
sql_compare k (text a) (text b) = bool (relation eq_text lt_text (λ x y. not (lt_text y x)) k a b)
sql_compare k _ _ = null

-- Kleene's truth tables
abbrev pub sql_and : Value → Value → Value
sql_and (bool false) b = bool false
sql_and a (bool false) = bool false
sql_and (bool true) (bool true) = bool true
sql_and _ _ = null

abbrev pub sql_or : Value → Value → Value
sql_or (bool true) b = bool true
sql_or a (bool true) = bool true
sql_or (bool false) (bool false) = bool false
sql_or _ _ = null

abbrev pub sql_not : Value → Value
sql_not (bool b) = bool (not b)
sql_not _ = null

abbrev pub sql_is_null : Value → Value
sql_is_null null = bool true
sql_is_null _ = bool false
