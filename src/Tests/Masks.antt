-- ===== src/Tests/Masks.antt =====
-- The theorems on masks, at masks of a few rows and at one that crosses a word.
use vectorized_query_engine.Base.{
  suc, ◌%◌, ◌≡◌, refl, true, false, [], ◌∷◌, ◌++◌, arith, inl, set, take, drop, replicate,
}
use vectorized_query_engine.Base.Results.{ok, err, invalid_argument}
use vectorized_query_engine.Base.Bits.{shr, bit-zero}
use vectorized_query_engine.Vector.Validity.{
  Validity, valid, empty, reset, set_valid, append, append_range,
}
use vectorized_query_engine.Vector.Validity.Words.{bit_at}
use vectorized_query_engine.Vector.Validity.Flags.{IsValid, IsClean, view, nulls, set_valid-Sets}
use vectorized_query_engine.Vector.Validity.Append.{
  reset-Fills, append-Appends, append-reset_miscounts,
}
use vectorized_query_engine.Vector.Validity.Range.{append_range-Appends, append_range-refuses}

pub empty-IsValid : IsValid empty
empty-IsValid = record {
  ranged = λ i. omega arith;
  words = refl;
  counted = unfold view nulls in refl;
  fits = omega arith;
}

pub empty-IsClean : IsClean empty
unfolding bit_at
empty-IsClean row h = bit-zero (row % 64)

-- Seventy rows, none of them NULL.
abbrev seventy : Validity
seventy = reset empty 70 true

reset-Fills_example : IsValid seventy × (view seventy ≡ replicate 70 true)
reset-Fills_example = reset-Fills empty 70 true (omega arith)

pub seventy-IsValid : IsValid seventy
seventy-IsValid = (reset-Fills empty 70 true (omega arith)).0

-- Row 66 made NULL.
abbrev holed : Validity
holed = set_valid seventy 66 false

set_valid-Sets_example : IsValid holed × (view holed ≡ set (view seventy) 66 false)
set_valid-Sets_example = set_valid-Sets 66 false seventy-IsValid (unfold reset in omega arith)

holed-IsValid : IsValid holed
holed-IsValid = (set_valid-Sets 66 false seventy-IsValid (unfold reset in omega arith)).0

abbrev single : Validity
single = append empty true

append-Appends_example : IsValid single × IsClean single × (view single ≡ view empty ++ true ∷ [])
append-Appends_example = append-Appends empty-IsValid empty-IsClean (omega arith) true

single-IsValid : IsValid single × IsClean single
single-IsValid = let a = append-Appends empty-IsValid empty-IsClean (omega arith) true in (a.0, a.1)

-- Rows 2 to 67 land one bit off a word boundary.
append_range-Appends_example :
    (r : Validity) × (append_range false single holed 2 66 ≡ ok r)
    × IsValid r
    × IsClean r
    × (view r ≡ view single ++ take 66 (drop 2 (view holed)))
append_range-Appends_example =
    append_range-Appends 2 66 single-IsValid.0 single-IsValid.1 holed-IsValid
      (unfold set_valid reset in omega arith) (unfold append set_valid in omega arith)

append_range-refuses_example : append_range true single single 0 1 ≡ err invalid_argument
append_range-refuses_example = append_range-refuses true single single 0 1 (inl refl)

append-reset_miscounts_example :
    (append (reset empty 3 true) true).null_count ≡ suc (nulls (replicate 3 true ++ true ∷ []))
append-reset_miscounts_example =
    append-reset_miscounts empty 3 true (λ e. omega (arith, e)) (omega arith)

-- Three valid rows, and the counter says one NULL.
miscounted : (append (reset empty 3 true) true).null_count ≡ 1
unfolding append reset set_valid valid shr
miscounted = refl
