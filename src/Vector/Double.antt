-- ===== src/Vector/Double.antt =====
-- A `double` is its IEEE 754 bit pattern, a number below 2^64, as `std::bit_cast` shows it. Order and
-- equality are read off the pattern; the four rounded operations are a parameter.
use vectorized_query_engine.Base.{
  ℕ, ◌+◌, ◌-◌, ◌%◌, ◌^◌, Bool, not, ◌&&◌, ltb, leb, ◌==◌, if◌then◌else◌,
}

-- The processor's rounded arithmetic. Nothing is assumed of it.
pub record Arithmetic : Type 0 where
  pub add : ℕ → ℕ → ℕ
  pub subtract : ℕ → ℕ → ℕ
  pub multiply : ℕ → ℕ → ℕ
  pub divide : ℕ → ℕ → ℕ

-- `std::isnan`: exponent all ones, mantissa not 0
abbrev pub is_nan : ℕ → Bool
is_nan x = ltb 0x7ff0_0000_0000_0000 (x % 2 ^ 63)

-- The numbers in order: both zeros have one key.
abbrev pub order_key : ℕ → ℕ
order_key x = if ltb x (2 ^ 63) then 2 ^ 63 + x else 2 ^ 64 - x

-- `x < y`, `x <= y`, `x == y` on doubles: false where either is NaN
abbrev pub lt_double : ℕ → ℕ → Bool
lt_double x y = not (is_nan x) && not (is_nan y) && ltb (order_key x) (order_key y)

abbrev pub le_double : ℕ → ℕ → Bool
le_double x y = not (is_nan x) && not (is_nan y) && leb (order_key x) (order_key y)

abbrev pub eq_double : ℕ → ℕ → Bool
eq_double x y = not (is_nan x) && not (is_nan y) && order_key x == order_key y
