-- ===== src/Tests/Pruning.antt =====
-- The theorems on hashing, pruning, Filter and Limit, at small inputs.
use vectorized_query_engine.Base.{
  ℕ, zero, suc, ◌^◌, ◌≡◌, ◌≢◌, refl, true, false, Bool-cases, inl, inr, some, [], ◌∷◌, arith, ◌==◌,
}
use vectorized_query_engine.Base.Int.{pos}
use vectorized_query_engine.Base.Results.{ok}
use vectorized_query_engine.Vector.Value.{
  Value, int, Schema, int64, double, index_from, column_index,
}
use vectorized_query_engine.Vector.Validity
use vectorized_query_engine.Vector.Validity.{valid}
use vectorized_query_engine.Base.Bits.{shr}
use vectorized_query_engine.Vector.Selection
use vectorized_query_engine.Vector.Selection.{Selection, clear, max_batch_size}
use vectorized_query_engine.Vector.Batch
use vectorized_query_engine.Vector.Batch.{Batch}
use vectorized_query_engine.Vector.Column.{Column, doubles}
use vectorized_query_engine.Expression.{ExprPtr, col, literal_of, binary, less}
use vectorized_query_engine.Expression.Meaning.{sql_value}
use vectorized_query_engine.Hash.{hash_cell, equal_cell, compare_cell}
use vectorized_query_engine.Hash.Cells.{hash_cell-eq, compare_cell-flip, flip, IsWord64}
use vectorized_query_engine.Statistics.{
  ColumnStatistics, no_statistics, statistics_of, may_match, simple_matches, predicate_matches,
}
use vectorized_query_engine.Statistics.Predicates.{Describes, some-injective, ok-injective}
use vectorized_query_engine.Statistics.Pruning.{may_match-Sound}
use vectorized_query_engine.Operators.{Next, filter_rows}
use vectorized_query_engine.Operators.Rows.{rows_of, passing, filter_rows-Keeps}
use vectorized_query_engine.Tests.Expressions.{toy, rows, rows-Below, flags, flags-IsBools}

-- The two zeros, 0 and -0.
abbrev zeros : Column
zeros = record {
  type = double;
  validity = Validity.reset Validity.empty 2 true;
  payload = doubles (0 ∷ 2 ^ 63 ∷ []);
}

zeros-IsWord64 : IsWord64 zeros.payload
zeros-IsWord64 zero = omega arith
zeros-IsWord64 (suc zero) = omega arith
zeros-IsWord64 (suc (suc i)) = omega arith

zeros_equal : equal_cell zeros 0 zeros 1 ≡ ok true
unfolding equal_cell compare_cell Validity.reset valid shr
zeros_equal = refl

hash_cell-eq_example : hash_cell zeros 0 ≡ hash_cell zeros 1
hash_cell-eq_example = hash_cell-eq zeros 0 zeros 1 zeros-IsWord64 zeros-IsWord64 zeros_equal

zeros_compare : compare_cell zeros 0 zeros 1 ≡ ok (pos 0)
unfolding compare_cell Validity.reset valid shr
zeros_compare = refl

compare_cell-flip_example : compare_cell zeros 1 zeros 0 ≡ ok (flip (pos 0))
compare_cell-flip_example = compare_cell-flip zeros 0 zeros 1 (pos 0) zeros_compare

-- One column of integers from 10 to 20, and the predicate `x < 5`.
abbrev pub schema : Schema
schema = record { id = 7; type = int64; name = [] } ∷ []

abbrev pub entry : ColumnStatistics
entry = record no_statistics {
  rows = 2;
  minimum = some (int (pos 10));
  maximum = some (int (pos 20));
}

abbrev pub predicate : ExprPtr
predicate = binary less (col 7) (literal_of (int (pos 5)) int64)

abbrev pub row : ℕ → Value
row id = int (pos 10)

entry-Describes : Describes entry (row 7)
entry-Describes = record {
  null = λ k h. cc;
  full = λ k h. absurd (omega (arith, h));
  nan = λ h. cc;
  least = λ m e h k. rw (← some-injective e) refl;
  most = λ m e h k. rw (← some-injective e) refl;
}

pub schema-Describes :
    (id : ℕ) (s : ColumnStatistics)
    → statistics_of schema (entry ∷ []) id ≡ ok s
    → Describes s (row id)
unfolding statistics_of column_index index_from
schema-Describes id s e = elim (Bool-cases (7 == id)) [
  | inl hit ↦ (let k = rw hit at e in rw (← ok-injective k) entry-Describes)
  | inr miss ↦ (let k = rw miss at e in cc)
]

pub skips : may_match predicate schema (entry ∷ []) ≡ ok false
unfolding may_match simple_matches statistics_of predicate_matches column_index index_from
skips = refl

may_match-Sound_example : sql_value toy row predicate ≢ Value.bool true
may_match-Sound_example =
    may_match-Sound toy schema (entry ∷ []) row schema-Describes predicate skips

filter_rows-Keeps_example :
    (r : Selection) × (filter_rows flags rows (clear Selection.empty) ≡ ok r)
    × (rows_of r ≡ passing flags rows)
filter_rows-Keeps_example =
    filter_rows-Keeps flags-IsBools rows Selection.empty (λ i h. omega (arith, rows-Below i h))
      (omega arith)

abbrev four : Selection
four = record { dense = true; size = 4; indices = [] }

abbrev pub batch : Batch
batch = record { schema = []; columns = []; selection = four; capacity = 4; physical_size = 4 }

-- A child that always yields the batch.
abbrev repeat : Next (Unit {0})
repeat st out = ok (true, st, batch)
