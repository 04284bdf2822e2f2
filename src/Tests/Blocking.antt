-- ===== src/Tests/Blocking.antt =====
-- The theorems on sorting and aggregation, at two rows of which one is NULL, and those on
-- a hash index, at an empty one.
use vectorized_query_engine.Base.{
  ℕ, ◌+◌, ◌≡◌, refl, Bool, true, List, [], ◌∷◌, ltb, if◌then◌else◌, ◌==◌, some, replicate, arith,
}
use vectorized_query_engine.Hash.Index.{HashIndex, empty_bucket, find, find_or_insert}
use vectorized_query_engine.Hash.Index.Stored.{find-find_or_insert}
use vectorized_query_engine.Hash.Index.Probing.{IsIndex, find_or_insert-IsIndex}
use vectorized_query_engine.Base.Int.{ℤ, pos, negsuc}
use vectorized_query_engine.Base.Results.{ok}
use vectorized_query_engine.Vector.Value.{int}
use vectorized_query_engine.Vector.Column.{append_value}
use vectorized_query_engine.Vector.Validity
use vectorized_query_engine.Vector.Validity.{valid}
use vectorized_query_engine.Base.Bits.{shr}
use vectorized_query_engine.Blocking.{sum, minimum}
use vectorized_query_engine.Blocking.Sort.{Key, order_rows}
use vectorized_query_engine.Blocking.Sort.Lexical.{row_before}
use vectorized_query_engine.Blocking.Sort.Order.{IsOrdered, occurrences, order_rows-IsOrdered}
use vectorized_query_engine.Blocking.Aggregate.{append_result}
use vectorized_query_engine.Blocking.Aggregate.Update.{State, no_state}
use vectorized_query_engine.Blocking.Aggregate.Exact.{sql_sum, IsIn, IsFirst}
use vectorized_query_engine.Blocking.Aggregate.Rows.{
  present, update_rows, sum-Computes, extreme-Computes,
}
use vectorized_query_engine.Tests.Expressions.{toy, numbers, rows}

abbrev key : Key
key = record { column = numbers; ascending = true; nulls_first = true }

order_rows-IsOrdered_example :
    IsOrdered (row_before (key ∷ [])) (order_rows (key ∷ []) 2)
    × ((i : ℕ) → occurrences i (order_rows (key ∷ []) 2) ≡ (if ltb i 2 then 1 else 0))
order_rows-IsOrdered_example = order_rows-IsOrdered (key ∷ []) 2 (tt, tt)

abbrev cells : List ℤ
cells = pos 4611686018427387904 ∷ negsuc 4 ∷ []

sum-Computes_example :
    (s : State) × (update_rows toy sum numbers rows no_state ≡ ok s)
    × (append_result sum s numbers ≡ append_value numbers (sql_sum (present numbers cells rows)))
sum-Computes_example = sum-Computes toy numbers cells refl refl rows numbers refl

one_present : present numbers cells rows ≡ pos 4611686018427387904 ∷ []
unfolding valid shr Validity.set_valid Validity.reset
one_present = refl

extreme-Computes_example :
    (s : State) × (r : ℤ) × (update_rows toy minimum numbers rows no_state ≡ ok s)
    × (append_result minimum s numbers ≡ append_value numbers (int r))
    × IsIn r (pos 4611686018427387904 ∷ [])
    × IsFirst minimum r (pos 4611686018427387904 ∷ [])
extreme-Computes_example =
    extreme-Computes toy numbers cells refl refl minimum rows numbers tt refl one_present

abbrev blank : HashIndex
blank = record { buckets = replicate 16 empty_bucket; size = 0 }

blank-IsIndex : IsIndex blank
blank-IsIndex = record {
  exponent = 4;
  width = refl;
  counted = refl;
  loaded = omega arith;
  wide = omega arith;
}

find_or_insert-IsIndex_example :
    (h' : HashIndex) × (r : ℕ) × (new : Bool) × (find_or_insert blank 21 (λ k. ok true) 0
      ≡ ok (h', r, new))
    × IsIndex h'
    × (h'.size ≡ (if new then 0 + 1 else 0))
    × (if new then r ≡ 0 else ok true ≡ ok true)
find_or_insert-IsIndex_example =
    find_or_insert-IsIndex blank 21 0 (λ k. ok true) blank-IsIndex (λ k. (true, refl))

find-find_or_insert_example :
    (h' : HashIndex) × (r : ℕ) × (new : Bool) × (find_or_insert blank 21 (λ k. ok (k == 3)) 3
      ≡ ok (h', r, new))
    × (find h' 21 (λ k. ok (k == 3)) ≡ ok (some r))
find-find_or_insert_example =
    find-find_or_insert blank 21 3 (λ k. ok (k == 3)) blank-IsIndex (λ k. (k == 3, refl)) refl
