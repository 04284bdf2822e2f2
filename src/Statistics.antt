-- ===== src/Statistics.antt =====
-- include/vqe/statistics.hpp and src/statistics.cpp: column statistics, and the test by which a scan
-- skips a group of rows. The estimates in doubles are left out.
pub mod Bounds
pub mod Predicates
pub mod Pruning
use vectorized_query_engine.Base.{
  ℕ, zero, suc, ◌+◌, ◌*◌, ◌/◌, ◌%◌, ◌^◌, Bool, true, false, not, ◌&&◌, ◌||◌, Option, none, some,
  List, [], ◌∷◌, ltb, leb, ◌==◌, get_or, get_elem?, set, length, map, replicate, tabulate,
  if◌then◌else◌,
}
use vectorized_query_engine.Base.Int.{ℤ, pos, negsuc, ltb_ℤ, leb_ℤ, eqb_ℤ}
use vectorized_query_engine.Base.Results.{
  Result, ok, err, invalid_argument, out_of_range, logic_error, bad_variant_access, throw_if, ◌>>=◌,
  ◌>>◌,
}
use vectorized_query_engine.Vector.Batch
use vectorized_query_engine.Vector.Batch.{Batch}
use vectorized_query_engine.Vector.Column
use vectorized_query_engine.Vector.Column.{Column}
use vectorized_query_engine.Vector.Double.{is_nan, lt_double}
use vectorized_query_engine.Vector.Validity
use vectorized_query_engine.Vector.Value.{
  Value, null, bool, int, real, text, Schema, column_index, double, type_eq,
}
use vectorized_query_engine.Expression.{
  ExprKind, column, literal, add, subtract, multiply, divide, equal, not_equal, less, less_equal,
  greater, greater_equal, and, or, negation, is_null, ExprPtr, missing, node, kind_index,
}
use vectorized_query_engine.Expression.Evaluator.{active}
use vectorized_query_engine.Expression.Scalar.{lt_bool, lt_text}
use vectorized_query_engine.Hash.{cmp, hash_cell, compare_cell, holds_nan}
use Prim.Native.Nat.{bit_or}

pub record ColumnStatistics : Type 0 where
  pub rows : ℕ
  pub nulls : ℕ
  pub nulls_known : Bool
  pub has_nan : Bool
  pub minimum : Option Value
  pub maximum : Option Value
  pub distinct_bits : List ℕ

abbrev pub Statistics : Type 0
Statistics = List ColumnStatistics

-- The member initialisers
abbrev pub no_statistics : ColumnStatistics
no_statistics = record {
  rows = 0;
  nulls = 0;
  nulls_known = true;
  has_nan = false;
  minimum = none;
  maximum = none;
  distinct_bits = replicate 16 0;
}

-- `<` on two variants that hold the same alternative
abbrev pub compare_value : Value → Value → Result ℤ
compare_value (bool a) (bool b) = ok (cmp lt_bool a b)
compare_value (int a) (int b) = ok (cmp ltb_ℤ a b)
compare_value (real x) (real y) = ok (cmp lt_double x y)
compare_value (text s) (text t) = ok (cmp lt_text s t)
compare_value _ _ = err invalid_argument

pub record Predicate : Type 0 where
  pub column : ℕ
  pub kind : ExprKind
  pub value : Value

-- `literal < column` is `column > literal`.
abbrev pub mirrored : ExprKind → ExprKind
mirrored less = greater
mirrored greater = less
mirrored less_equal = greater_equal
mirrored greater_equal = less_equal
mirrored k = k

-- A column compared with a literal, either way round.
abbrev pub sides : ExprKind → ExprPtr → ExprPtr → Option Predicate
sides k (node column id v t l r) (node literal id' v' t' l' r') =
    some (record { column = id; kind = k; value = v' })
sides k (node literal id v t l r) (node column id' v' t' l' r') =
    some (record { column = id'; kind = mirrored k; value = v })
sides k a b = none

abbrev pub simple : ExprPtr → Option Predicate
simple missing = none
simple (node equal id v t l r) = sides equal l r
simple (node not_equal id v t l r) = sides not_equal l r
simple (node less id v t l r) = sides less l r
simple (node less_equal id v t l r) = sides less_equal l r
simple (node greater id v t l r) = sides greater l r
simple (node greater_equal id v t l r) = sides greater_equal l r
simple _ = none

-- The extreme so far, `none` for `no_row`: a row replaces it where the comparison says so.
abbrev pub better : (ℤ → Bool) → Column → ℕ → Option ℕ → Result (Option ℕ)
better wins c r none = ok (some r)
better wins c r (some best) = do
  order ← compare_cell c r c best
  ok (if wins order then some r else some best)

abbrev pub mark_distinct : Column → ℕ → List ℕ → List ℕ
mark_distinct c r bits =
    let h = hash_cell c r % 1024 in
    set bits (h / 64) (bit_or (get_or bits (h / 64) 0) (2 ^ (h % 64)))

-- The loop over the rows of one column; lo and hi are the rows of the extremes.
unfoldable pub analyze_rows :
    Column
    → List ℕ
    → ColumnStatistics
    → Option ℕ
    → Option ℕ
    → Result (ColumnStatistics × Option ℕ × Option ℕ)
analyze_rows c [] s lo hi = ok (s, lo, hi)
analyze_rows c (r ∷ rows) s lo hi =
    let marked : ColumnStatistics = record s {
      distinct_bits = mark_distinct c r s.distinct_bits;
    } in
    if not (Validity.valid c.validity r)
    then analyze_rows c rows (record s { nulls = s.nulls + 1 }) lo hi
    else if type_eq c.type double && holds_nan c.payload r
    then analyze_rows c rows (record marked { has_nan = true }) lo hi
    else do
      lo' ← better (λ o. ltb_ℤ o (pos 0)) c r lo
      hi' ← better (λ o. ltb_ℤ (pos 0) o) c r hi
      analyze_rows c rows marked lo' hi'

abbrev pub value_at : Column → Option ℕ → Option Value
value_at c none = none
value_at c (some r) = some (Column.value c r)

unfoldable pub analyze_column : List ℕ → Column → Result ColumnStatistics
unfolding analyze_rows
analyze_column rows c = do
  found ← analyze_rows c rows (record no_statistics { rows = length rows }) none none
  ok (record found.0 { minimum = value_at c found.1; maximum = value_at c found.2 })

unfoldable pub analyze_columns : List ℕ → List Column → Result Statistics
unfolding analyze_column
analyze_columns rows [] = ok []
analyze_columns rows (c ∷ cs) = do
  s ← analyze_column rows c
  rest ← analyze_columns rows cs
  ok (s ∷ rest)

unfoldable pub analyze : Batch → Result Statistics
unfolding analyze_columns
analyze b = analyze_columns (active b) b.columns

-- The new extreme wins where there is none yet or where the comparison says so.
abbrev pub merge_extreme : (ℤ → Bool) → Option Value → Option Value → Result (Option Value)
merge_extreme wins old none = ok old
merge_extreme wins none (some v) = ok (some v)
merge_extreme wins (some u) (some v) = do
  order ← compare_value v u
  ok (if wins order then some v else some u)

abbrev pub or_words : List ℕ → List ℕ → List ℕ
or_words (x ∷ xs) (y ∷ ys) = bit_or x y ∷ or_words xs ys
or_words xs ys = xs

unfoldable pub merge_column : ColumnStatistics → ColumnStatistics → Result ColumnStatistics
merge_column a b = do
  lo ← merge_extreme (λ o. ltb_ℤ o (pos 0)) a.minimum b.minimum
  hi ← merge_extreme (λ o. ltb_ℤ (pos 0) o) a.maximum b.maximum
  ok (record {
    rows = a.rows + b.rows;
    nulls = a.nulls + b.nulls;
    nulls_known = a.nulls_known && b.nulls_known;
    has_nan = a.has_nan || b.has_nan;
    minimum = lo;
    maximum = hi;
    distinct_bits = or_words a.distinct_bits b.distinct_bits;
  })

abbrev pub merge_columns : Statistics → Statistics → Result Statistics
merge_columns (a ∷ into) (b ∷ from) = do
  s ← merge_column a b
  rest ← merge_columns into from
  ok (s ∷ rest)
merge_columns into from = ok []

unfoldable pub merge_statistics : Statistics → Statistics → Result Statistics
merge_statistics [] from = ok from
merge_statistics (a ∷ into) from = do
  throw_if (not (length (a ∷ into) == length from)) invalid_argument
  merge_columns (a ∷ into) from

-- `stats.at(column_index(schema, id))`
unfoldable pub statistics_of : Schema → Statistics → ℕ → Result ColumnStatistics
statistics_of schema stats id = do
  i ← column_index schema id
  elim (get_elem? stats i) [ none ↦ err out_of_range | some s ↦ ok s ]

-- The `switch` on the kind: lo and hi compare the bounds with the literal.
abbrev pub bounds_match : Bool → ExprKind → ℤ → ℤ → Bool
bounds_match has_nan equal lo hi = leb_ℤ lo (pos 0) && leb_ℤ (pos 0) hi
bounds_match has_nan not_equal lo hi = has_nan || not (eqb_ℤ lo (pos 0)) || not (eqb_ℤ hi (pos 0))
bounds_match has_nan less lo hi = ltb_ℤ lo (pos 0)
bounds_match has_nan less_equal lo hi = leb_ℤ lo (pos 0)
bounds_match has_nan greater lo hi = ltb_ℤ (pos 0) hi
bounds_match has_nan greater_equal lo hi = leb_ℤ (pos 0) hi
bounds_match has_nan _ lo hi = true

abbrev pub is_nan_value : Value → Bool
is_nan_value (real x) = is_nan x
is_nan_value _ = false

abbrev pub is_not_equal : ExprKind → Bool
is_not_equal k = kind_index k == kind_index not_equal

abbrev pub is_null_value : Value → Bool
is_null_value null = true
is_null_value _ = false

-- `may_match` from `const auto& s` on.
unfoldable pub predicate_matches : Predicate → ColumnStatistics → Result Bool
predicate_matches p s =
    if is_null_value p.value || (s.nulls_known && s.nulls == s.rows)
    then ok false
    else if is_nan_value p.value
    then ok (is_not_equal p.kind)
    else elim s.minimum [
      | none ↦ ok true
      | some least ↦ elim s.maximum [
        | none ↦ ok true
        | some most ↦ do
          lo ← compare_value least p.value
          hi ← compare_value most p.value
          ok (bounds_match s.has_nan p.kind lo hi)
      ]
    ]

abbrev pub literal_matches : Value → Result Bool
literal_matches null = ok false
literal_matches (bool b) = ok b
literal_matches _ = err bad_variant_access

abbrev pub null_matches : ExprPtr → Schema → Statistics → Result Bool
null_matches missing schema stats = err logic_error
null_matches (node column id v t l r) schema stats = do
  s ← statistics_of schema stats id
  ok (not s.nulls_known || not (s.nulls == 0))
null_matches e schema stats = ok true

unfoldable pub simple_matches : ExprPtr → Schema → Statistics → Result Bool
unfolding predicate_matches statistics_of
simple_matches e schema stats = elim (simple e) [
  | none ↦ ok true
  | some p ↦ do s ← statistics_of schema stats p.column; predicate_matches p s
]

-- Reading through a missing operand of IS NULL is undefined in the source.
unfoldable pub may_match : ExprPtr → Schema → Statistics → Result Bool
unfolding simple_matches
may_match missing schema stats = ok true
may_match (node literal id v t l r) schema stats = literal_matches v
may_match (node and id v t l r) schema stats = do
  a ← may_match l schema stats
  let rest = may_match r schema stats
  if a then rest else ok false
may_match (node or id v t l r) schema stats = do
  a ← may_match l schema stats
  let rest = may_match r schema stats
  if a then ok true else rest
may_match (node is_null id v t l r) schema stats = null_matches l schema stats
may_match (node k id v t l r) schema stats = simple_matches (node k id v t l r) schema stats
