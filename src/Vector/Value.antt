-- ===== src/Vector/Value.antt =====
-- Types, values, fields and schemas (include/vqe/vector.hpp, src/vector.cpp).
use vectorized_query_engine.Base.{
  ℕ, ◌+◌, Bool, true, false, ◌||◌, List, [], ◌∷◌, ◌==◌, if◌then◌else◌,
}
use vectorized_query_engine.Base.Int.{ℤ}
use vectorized_query_engine.Base.Results.{Result, ok, err, invalid_argument, throw_if, ◌>>◌}

-- `enum class Type`
pub data DataType : Type 0 where
  boolean int64 double string : DataType

-- `std::variant<std::monostate, bool, std::int64_t, double, std::string>`
pub data Value : Type 0 where
  null : Value
  bool : Bool → Value
  int : ℤ → Value
  real : ℕ → Value
  text : List ℕ → Value

abbrev pub type_eq : DataType → DataType → Bool
type_eq boolean boolean = true
type_eq int64 int64 = true
type_eq double double = true
type_eq string string = true
type_eq _ _ = false

pub record Field : Type 0 where
  pub id : ℕ
  pub type : DataType
  pub name : List ℕ

abbrev pub Schema : Type 0
Schema = List Field

abbrev pub is_null : Value → Bool
is_null null = true
is_null _ = false

unfoldable pub value_type : Value → Result DataType
value_type null = err invalid_argument
value_type (bool b) = ok boolean
value_type (int n) = ok int64
value_type (real x) = ok double
value_type (text s) = ok string

-- The position of the first field with this ID, from position i on.
unfoldable pub index_from : ℕ → Schema → ℕ → Result ℕ
index_from i [] id = err invalid_argument
index_from i (f ∷ s) id = if f.id == id then ok i else index_from (i + 1) s id

unfoldable pub column_index : Schema → ℕ → Result ℕ
unfolding index_from
column_index s id = index_from 0 s id

-- `ids.insert(f.id).second`, with the IDs seen so far as a list
abbrev pub contains : ℕ → List ℕ → Bool
contains id [] = false
contains id (x ∷ xs) = x == id || contains id xs

unfoldable pub validate_from : List ℕ → Schema → Result (Unit {0})
validate_from seen [] = ok tt
validate_from seen (f ∷ s) =
    throw_if (contains f.id seen) invalid_argument >> validate_from (f.id ∷ seen) s

unfoldable pub validate_schema : Schema → Result (Unit {0})
unfolding validate_from
validate_schema s = validate_from [] s
