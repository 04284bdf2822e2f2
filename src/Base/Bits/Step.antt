-- ===== src/Base/Bits/Step.antt =====
-- The recursion on the lowest digit that `&` and `|` stand for.
use Prim.Native.Nat.{
  ℕ, zero, suc, ◌+◌, ◌-◌, ◌*◌, ◌/◌, ◌%◌, ◌≤◌, min, max, bit_and, bit_or, digits, bit_and-bitwise,
  bit_or-bitwise,
}
use mathlib.Core.Path.{◌≡◌, refl}
use native.Mathlib.Omega.{arith}

module _ (stop : ℕ → ℕ) (op : ℕ → ℕ → ℕ) where
  -- One more step of fuel changes nothing, so neither do k more.
  one_more : (fuel x y : ℕ) → x ≤ fuel → digits stop op (suc fuel) x y ≡ digits stop op fuel x y
  one_more fuel zero y enough = ends fuel y
    where
      ends : (fuel y : ℕ) → digits stop op (suc fuel) zero y ≡ digits stop op fuel zero y
      ends zero y = refl
      ends (suc fuel) y = refl
  one_more zero (suc x) y enough = absurd (omega arith)
  one_more (suc fuel) (suc x) y enough =
      omega (arith, one_more fuel (suc x / 2) (y / 2) (omega arith))

  more : (k fuel x y : ℕ) → x ≤ fuel → digits stop op (k + fuel) x y ≡ digits stop op fuel x y
  more zero fuel x y enough = let e : 0 + fuel ≡ fuel = omega arith in rw e
  more (suc k) fuel x y enough =
      let e : suc k + fuel ≡ suc (k + fuel) = omega arith in
      rw e (omega (arith, one_more (k + fuel) x y (omega arith), more k fuel x y enough))

  -- The fuel that a step leaves is as good as the fuel that its operand would be given.
  half_fuel : (x y : ℕ) → digits stop op x (suc x / 2) y ≡ digits stop op (suc x / 2) (suc x / 2) y
  half_fuel x y =
      let e : x - suc x / 2 + suc x / 2 ≡ x = omega arith in
      rw e at (more (x - suc x / 2) (suc x / 2) (suc x / 2) y (omega arith))

pub bit_or_step : (x y : ℕ) → bit_or x y ≡ bit_or (x / 2) (y / 2) * 2 + max (x % 2) (y % 2)
bit_or_step zero y = omega (arith, bit_or-bitwise 0 y, bit_or-bitwise 0 (y / 2))
bit_or_step (suc x) y =
    let whole = bit_or-bitwise (suc x) y in
    let rest = bit_or-bitwise (suc x / 2) (y / 2) in
    omega (arith, whole, rest, half_fuel (λ b. b) max x (y / 2))

pub bit_and_step : (x y : ℕ) → bit_and x y ≡ bit_and (x / 2) (y / 2) * 2 + min (x % 2) (y % 2)
bit_and_step zero y = omega (arith, bit_and-bitwise 0 y, bit_and-bitwise 0 (y / 2))
bit_and_step (suc x) y =
    let whole = bit_and-bitwise (suc x) y in
    let rest = bit_and-bitwise (suc x / 2) (y / 2) in
    omega (arith, whole, rest, half_fuel (λ b. zero) min x (y / 2))

pub zero-bit_and : (y : ℕ) → bit_and 0 y ≡ 0
zero-bit_and y = bit_and-bitwise 0 y
