-- ===== src/Tests/Expressions.antt =====
-- The theorems on the operators and the kernels, at two rows of which one is NULL.
use vectorized_query_engine.Base.{
  ℕ, zero, suc, ◌+◌, ◌-◌, ◌*◌, ◌^◌, ◌≡◌, refl, true, false, List, [], ◌∷◌, arith,
}
use vectorized_query_engine.Base.Int.{ℤ, pos, negsuc}
use vectorized_query_engine.Base.Results.{ok}
use vectorized_query_engine.Vector.Double.{Arithmetic}
use vectorized_query_engine.Vector.Value.{boolean, int64, contains}
use vectorized_query_engine.Vector.Validity
use vectorized_query_engine.Vector.Validity.Flags.{IsValid, set_valid-Sets}
use vectorized_query_engine.Vector.Validity.Append.{reset-Fills}
use vectorized_query_engine.Vector.Column.{Column, bytes8, int64s, value}
use vectorized_query_engine.Kernels.{auto, x86, less_i64_constant, less_scalar, add_f64, add_scalar}
use vectorized_query_engine.Kernels.Lanes.{less_i64_constant-eq, add_f64-eq}
use vectorized_query_engine.Expression.{less, multiply}
use vectorized_query_engine.Expression.Scalar.{sql_not, sql_compare, sql_arithmetic}
use vectorized_query_engine.Expression.Evaluator.{
  for_rows, connective_row, not_row, comparison_row, arithmetic_row,
}
use vectorized_query_engine.Expression.Evaluator.Logic.{
  IsBools, Below, Computes, connective, connective-Computes, not-Computes,
}
use vectorized_query_engine.Expression.Evaluator.Compare.{comparison-Computes}
use vectorized_query_engine.Expression.Evaluator.Numbers.{IsInts, InRange, arithmetic-Computes}

abbrev pub rows : List ℕ
rows = 0 ∷ 1 ∷ []

pub rows-Below : Below rows 2
rows-Below i h = ground arith

-- Row 1 is NULL.
abbrev mask : Validity.Validity
mask = Validity.set_valid (Validity.reset Validity.empty 2 true) 1 false

mask-IsValid : IsValid mask
mask-IsValid =
    (set_valid-Sets 1 false (reset-Fills Validity.empty 2 true (omega arith)).0
      (unfold Validity.reset in omega arith)).0

abbrev pub flags : Column
flags = record { type = boolean; validity = mask; payload = bytes8 (1 ∷ 1 ∷ []) }

pub flags-IsBools : IsBools flags 2
unfolding Validity.set_valid Validity.reset
flags-IsBools = (record { mask = mask-IsValid; counted = refl; typed = tt; rows = refl }, refl)

connective-Computes_example :
    Computes
      (for_rows (connective_row true flags flags) rows flags)
      rows
      2
      (λ i. connective true (value flags i) (value flags i))
connective-Computes_example =
    connective-Computes rows rows-Below flags-IsBools flags-IsBools true flags flags-IsBools

not-Computes_example :
    Computes (for_rows (not_row flags) rows flags) rows 2 (λ i. sql_not (value flags i))
not-Computes_example = not-Computes rows rows-Below flags-IsBools flags-IsBools

abbrev pub numbers : Column
numbers = record { type = int64; validity = mask; payload = int64s (pos (2 ^ 62) ∷ negsuc 4 ∷ []) }

pub numbers-IsInts : IsInts numbers 2
unfolding Validity.set_valid Validity.reset
numbers-IsInts = (record { mask = mask-IsValid; counted = refl; typed = tt; rows = refl }, refl)

pub numbers-InRange : InRange numbers.payload
numbers-InRange zero = refl
numbers-InRange (suc zero) = refl
numbers-InRange (suc (suc i)) = refl

comparison-Computes_example :
    Computes
      (for_rows (comparison_row less numbers numbers) rows flags)
      rows
      2
      (λ i. sql_compare less (value numbers i) (value numbers i))
comparison-Computes_example =
    comparison-Computes less rows tt rows-Below numbers-IsInts.0 numbers-IsInts.0 refl tt tt
      flags-IsBools

-- A machine whose arithmetic on bit patterns is arithmetic on numbers.
abbrev pub toy : Arithmetic
toy = record { add = ◌+◌; subtract = ◌-◌; multiply = ◌*◌; divide = λ x y. 0 }

-- The product in row 0 overflows.
arithmetic-Computes_example :
    (r : Column) × (for_rows (arithmetic_row toy multiply numbers numbers) rows numbers ≡ ok r)
    × IsInts r 2
    × ((i : ℕ)
        → contains i rows ≡ true
        → value r i ≡ sql_arithmetic toy multiply (value numbers i) (value numbers i))
arithmetic-Computes_example =
    arithmetic-Computes toy multiply rows tt rows-Below numbers-IsInts numbers-IsInts
      numbers-InRange numbers-InRange numbers-IsInts

abbrev five : List ℤ
five = pos 3 ∷ negsuc 0 ∷ pos 9 ∷ pos 0 ∷ pos 2 ∷ []

abbrev zeros : List ℕ
zeros = 0 ∷ 0 ∷ 0 ∷ 0 ∷ 0 ∷ []

less_i64_constant-eq_example :
    less_i64_constant (x86 true) auto five (pos 3) zeros 5 ≡ less_scalar five (pos 3) zeros 5
less_i64_constant-eq_example = less_i64_constant-eq (x86 true) auto five (pos 3) zeros 5

add_f64-eq_example :
    add_f64 toy (x86 true) auto zeros zeros zeros 5 ≡ add_scalar toy zeros zeros zeros 5
add_f64-eq_example = add_f64-eq toy (x86 true) auto zeros zeros zeros 5
