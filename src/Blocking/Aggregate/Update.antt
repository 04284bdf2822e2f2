-- ===== src/Blocking/Aggregate/Update.antt =====
-- The state of one aggregate of one group (struct State of include/vqe/blocking.hpp), and what a row
-- does to it (HashAggregate::consume of src/blocking.cpp).
use vectorized_query_engine.Base.{ℕ, Bool, true, false, not, ◌||◌, if◌then◌else◌}
use vectorized_query_engine.Base.Int.{ℤ, pos, ◌+ℤ◌, ltb_ℤ}
use vectorized_query_engine.Base.Results.{Result, ok, err, overflow_error}
use vectorized_query_engine.Vector.Double.{Arithmetic, is_nan, lt_double}
use vectorized_query_engine.Expression.Scalar.{fits_int64}
use vectorized_query_engine.Expression.Evaluator.{wrap64}
use vectorized_query_engine.Blocking.{AggregateKind, sum, minimum}

pub record State : Type 0 where
  pub integer : ℤ
  pub floating : ℕ
  pub seen : Bool
  pub overflow : Bool

-- The member initialisers
abbrev pub no_state : State
no_state = record { integer = pos 0; floating = 0; seen = false; overflow = false }

-- COUNT: a counter that overflows throws.
unfoldable pub count_row : State → Result State
count_row s =
    let next = s.integer +ℤ pos 1 in
    if not (fits_int64 next)
    then err overflow_error
    else ok (record s { integer = next; seen = true })

-- SUM adds with wrap-around and remembers that it overflowed; MIN and MAX replace.
unfoldable pub int64_row : AggregateKind → ℤ → State → State
int64_row sum x s = record s {
  integer = wrap64 (s.integer +ℤ x);
  overflow = s.overflow || not (fits_int64 (s.integer +ℤ x));
  seen = true;
}
int64_row minimum x s = record s {
  integer = if not s.seen || ltb_ℤ x s.integer then x else s.integer;
  seen = true;
}
int64_row _ x s = record s {
  integer = if not s.seen || ltb_ℤ s.integer x then x else s.integer;
  seen = true;
}

-- NaN is larger than every number.
abbrev pub smaller : ℕ → ℕ → Bool
smaller x old = if is_nan old then not (is_nan x) else lt_double x old

abbrev pub larger : ℕ → ℕ → Bool
larger x old = if is_nan x then not (is_nan old) else lt_double old x

unfoldable pub double_row : Arithmetic → AggregateKind → ℕ → State → State
double_row m sum x s = record s { floating = m.add s.floating x; seen = true }
double_row m minimum x s = record s {
  floating = if not s.seen || smaller x s.floating then x else s.floating;
  seen = true;
}
double_row m _ x s = record s {
  floating = if not s.seen || larger x s.floating then x else s.floating;
  seen = true;
}
