-- ===== src/Blocking.antt =====
-- include/vqe/blocking.hpp and src/blocking.cpp: the operators that read their whole input before
-- they yield a row, and the schemas of their results.
pub mod Aggregate
pub mod Join
pub mod Sort
use vectorized_query_engine.Base.{
  ℕ, Bool, true, false, not, ◌||◌, ◌&&◌, Option, none, some, List, [], ◌∷◌, ◌++◌, if◌then◌else◌,
}
use vectorized_query_engine.Base.Results.{Result, ok, invalid_argument, throw_if, ◌>>=◌, ◌>>◌}
use vectorized_query_engine.Vector.Value.{
  DataType, int64, double, Field, Schema, type_eq, validate_schema,
}
use vectorized_query_engine.Operators.{field_of, select_schema}

-- `enum class AggregateKind`
pub data AggregateKind : Type 0 where
  count sum minimum maximum : AggregateKind

pub record AggregateSpec : Type 0 where
  pub output : Field
  pub kind : AggregateKind
  pub input : Option ℕ

pub record SortKey : Type 0 where
  pub column : ℕ
  pub ascending : Bool
  pub nulls_first : Bool

unfoldable pub key_schema : Schema → List ℕ → Result Schema
key_schema s keys = do out ← select_schema s keys; validate_schema out; ok out

unfoldable pub join_schema : Schema → Schema → Result Schema
join_schema a b = do let out = a ++ b; validate_schema out; ok out

abbrev pub is_count : AggregateKind → Bool
is_count count = true
is_count _ = false

-- `a.input ? input[column_index(input, *a.input)].type : Type::Int64`
abbrev pub input_type : Schema → Option ℕ → Result DataType
input_type s none = ok int64
input_type s (some id) = do f ← field_of s id; ok f.type

abbrev pub has_input : Option ℕ → Bool
has_input none = false
has_input (some id) = true

-- The checks of one aggregate.
unfoldable pub check_aggregate : Schema → AggregateSpec → Result (Unit {0})
check_aggregate s a = do
  t ← input_type s a.input
  throw_if
      (if is_count a.kind
        then not (type_eq a.output.type int64)
        else not (has_input a.input)
          || not (type_eq t int64 || type_eq t double)
          || not (type_eq a.output.type t))
      invalid_argument

unfoldable pub aggregate_fields : Schema → List AggregateSpec → Result Schema
unfolding check_aggregate
aggregate_fields s [] = ok []
aggregate_fields s (a ∷ aggs) = do
  check_aggregate s a
  rest ← aggregate_fields s aggs
  ok (a.output ∷ rest)

unfoldable pub aggregate_schema : Schema → List ℕ → List AggregateSpec → Result Schema
unfolding key_schema aggregate_fields
aggregate_schema s keys aggs = do
  ks ← key_schema s keys
  fs ← aggregate_fields s aggs
  let out = ks ++ fs
  validate_schema out
  ok out
