-- ===== src/Base/Bits.antt =====
-- The bits of an unsigned word, for every width: shifts, masks, `|`, `&` and the population count.
mod Step
use Prim.Native.Nat.{
  ℕ, zero, suc, ◌+◌, ◌-◌, ◌*◌, ◌/◌, ◌%◌, ◌^◌, ◌≤◌, ◌<◌, min, max, bit_and, bit_or,
}
use Prim.Native.Nat.{bit_xor}
use mathlib.Core.Path.{◌≡◌, refl, ap, ◌∙◌, sym}
use mathlib.Core.Bool.{Bool, true, false}
use mathlib.Core.Logic.{◌≢◌}
use native.Mathlib.Nat.{pow-suc, pow-succ', one-le-pow, div-div-eq-div-mul, div-add-mod}
use native.Mathlib.Omega.{arith}
use vectorized_query_engine.Base.Tests.{◌==◌, if◌then◌else◌}
use Step.{bit_and_step, bit_or_step, zero-bit_and}

-- `x >> k`
unfoldable pub shr : ℕ → ℕ → ℕ
shr x zero = x
shr x (suc k) = shr (x / 2) k

-- Bit k of a word, as 0 or 1.
unfoldable pub bit : ℕ → ℕ → ℕ
bit zero x = x % 2
bit (suc k) x = bit k (x / 2)

pub bit-le-one : (k x : ℕ) → bit k x ≤ 1
unfolding bit
bit-le-one zero x = omega arith
bit-le-one (suc k) x = bit-le-one k (x / 2)

pub bit-zero : (k : ℕ) → bit k 0 ≡ 0
unfolding bit
bit-zero zero = refl
bit-zero (suc k) = bit-zero k

pub bit-bit_and : (k a b : ℕ) → bit k (bit_and a b) ≡ min (bit k a) (bit k b)
unfolding bit
bit-bit_and zero a b = omega (arith, bit_and_step a b)
bit-bit_and (suc k) a b =
    let halves : bit_and a b / 2 ≡ bit_and (a / 2) (b / 2) = omega (arith, bit_and_step a b) in
    rw halves (bit-bit_and k (a / 2) (b / 2))

pub bit-bit_or : (k a b : ℕ) → bit k (bit_or a b) ≡ max (bit k a) (bit k b)
unfolding bit
bit-bit_or zero a b = omega (arith, bit_or_step a b)
bit-bit_or (suc k) a b =
    let halves : bit_or a b / 2 ≡ bit_or (a / 2) (b / 2) = omega (arith, bit_or_step a b) in
    rw halves (bit-bit_or k (a / 2) (b / 2))

-- `1 << j`
pub bit-pow_self : (k : ℕ) → bit k (2 ^ k) ≡ 1
unfolding bit
bit-pow_self zero = refl
bit-pow_self (suc k) =
    let half : 2 ^ suc k / 2 ≡ 2 ^ k = omega (arith, pow-suc 2 k) in rw half (bit-pow_self k)

pub bit-pow_ne : (k j : ℕ) → k ≢ j → bit k (2 ^ j) ≡ 0
unfolding bit
bit-pow_ne zero zero h = absurd (h refl)
bit-pow_ne zero (suc j) h = omega (arith, pow-suc 2 j)
bit-pow_ne (suc k) zero h = bit-zero k
bit-pow_ne (suc k) (suc j) h =
    let half : 2 ^ suc j / 2 ≡ 2 ^ j = omega (arith, pow-suc 2 j) in
    rw half (bit-pow_ne k j (λ e. h (ap suc e)))

-- `~a`, over n bits
pub bit-complement : (k n a : ℕ) → k < n → a < 2 ^ n → bit k (2 ^ n - 1 - a) + bit k a ≡ 1
unfolding bit
bit-complement k zero a h p = absurd (omega arith)
bit-complement zero (suc n) a h p = omega (arith, pow-suc 2 n)
bit-complement (suc k) (suc n) a h p =
    let half : (2 ^ suc n - 1 - a) / 2 ≡ 2 ^ n - 1 - a / 2 = omega (arith, pow-suc 2 n) in
    rw half (bit-complement k n (a / 2) (omega arith) (omega (arith, pow-suc 2 n)))

pub bit-shr : (k j x : ℕ) → bit k (shr x j) ≡ bit (j + k) x
unfolding bit shr
bit-shr k zero x = let e : 0 + k ≡ k = omega arith in rw e
bit-shr k (suc j) x = let e : suc j + k ≡ suc (j + k) = omega arith in rw e (bit-shr k j (x / 2))

bit_and-zero : (most x : ℕ) → x ≤ most → bit_and x 0 ≡ 0
bit_and-zero most zero below = zero-bit_and 0
bit_and-zero zero (suc x) below = absurd (omega arith)
bit_and-zero (suc most) (suc x) below =
    let half = bit_and-zero most (suc x / 2) (omega arith) in
    omega (arith, half, bit_and_step (suc x) 0)

-- `x & (2^k - 1)`
pub bit_and-mask : (k a : ℕ) → bit_and a (2 ^ k - 1) ≡ a % 2 ^ k
bit_and-mask zero a = omega (arith, bit_and-zero a a (omega arith))
bit_and-mask (suc k) a = rw (pow-succ' 2 k) (
    let p = one-le-pow k 2 in
    let half : (2 * 2 ^ k - 1) / 2 ≡ 2 ^ k - 1 = omega arith in
    omega (
      arith,
      (rw half at (bit_and_step a (2 * 2 ^ k - 1))),
      bit_and-mask k (a / 2),
      ap (λ (t : ℕ). 2 ^ k * t) (div-div-eq-div-mul a 2 (2 ^ k)),
      div-add-mod a (2 * 2 ^ k),
      div-add-mod (a / 2) (2 ^ k),
    ))

-- A mask of t ones.
pub bit-mask_low : (k t : ℕ) → k < t → bit k (2 ^ t - 1) ≡ 1
unfolding bit
bit-mask_low k zero h = absurd (omega arith)
bit-mask_low zero (suc t) h = omega (arith, pow-suc 2 t, one-le-pow t 2)
bit-mask_low (suc k) (suc t) h =
    let half : (2 ^ suc t - 1) / 2 ≡ 2 ^ t - 1 = omega (arith, pow-suc 2 t, one-le-pow t 2) in
    rw half (bit-mask_low k t (omega arith))

pub bit-of_lt : (k t x : ℕ) → x < 2 ^ t → t ≤ k → bit k x ≡ 0
unfolding bit
bit-of_lt k zero x p h = let e : x ≡ 0 = omega arith in rw e (bit-zero k)
bit-of_lt zero (suc t) x p h = absurd (omega arith)
bit-of_lt (suc k) (suc t) x p h = bit-of_lt k t (x / 2) (omega (arith, pow-suc 2 t)) (omega arith)

pub bit-mask_high : (k t : ℕ) → t ≤ k → bit k (2 ^ t - 1) ≡ 0
bit-mask_high k t h = bit-of_lt k t (2 ^ t - 1) (omega (arith, one-le-pow t 2)) h

-- `x % 2^n` keeps the low n bits.
pub bit-mod : (k n x : ℕ) → k < n → bit k (x % 2 ^ n) ≡ bit k x
bit-mod k n x h = omega (
  arith,
  ap (bit k) (bit_and-mask n x),
  bit-bit_and k x (2 ^ n - 1),
  bit-mask_low k n h,
  bit-le-one k x,
)

-- `x << s`, before it is cut to the width
pub bit-mul_pow_high : (k s x : ℕ) → bit (s + k) (x * 2 ^ s) ≡ bit k x
unfolding bit
bit-mul_pow_high k zero x =
    let e : 0 + k ≡ k = omega arith in let u : x * 2 ^ 0 ≡ x = omega arith in rw (e, u)
bit-mul_pow_high k (suc s) x =
    let e : suc s + k ≡ suc (s + k) = omega arith in
    let half : x * 2 ^ suc s / 2 ≡ x * 2 ^ s = omega (arith, ap (λ (t : ℕ). x * t) (pow-suc 2 s)) in
    rw (e, bit, half) (bit-mul_pow_high k s x)

pub bit-mul_pow_low : (k s x : ℕ) → k < s → bit k (x * 2 ^ s) ≡ 0
unfolding bit
bit-mul_pow_low k zero x h = absurd (omega arith)
bit-mul_pow_low zero (suc s) x h = omega (arith, ap (λ (t : ℕ). x * t) (pow-suc 2 s))
bit-mul_pow_low (suc k) (suc s) x h =
    let half : x * 2 ^ suc s / 2 ≡ x * 2 ^ s = omega (arith, ap (λ (t : ℕ). x * t) (pow-suc 2 s)) in
    rw half (bit-mul_pow_low k s x (omega arith))

-- `std::popcount`, over the low n bits
unfoldable pub popcount : ℕ → ℕ → ℕ
popcount zero x = 0
popcount (suc n) x = x % 2 + popcount n (x / 2)

-- A word below 2^n with the bits of another is that word, so `|`, `&` stay below 2^n.
pub bit_or-lt : (n a b : ℕ) → a < 2 ^ n → b < 2 ^ n → bit_or a b < 2 ^ n
bit_or-lt zero a b p q =
    let ea : a ≡ 0 = omega arith in let eb : b ≡ 0 = omega arith in rw (ea, eb) (omega arith)
bit_or-lt (suc n) a b p q = omega (
  arith,
  bit_or_step a b,
  pow-suc 2 n,
  bit_or-lt n (a / 2) (b / 2) (omega (arith, pow-suc 2 n)) (omega (arith, pow-suc 2 n)),
)

pub bit_and-lt : (n a b : ℕ) → a < 2 ^ n → bit_and a b < 2 ^ n
bit_and-lt zero a b p = let ea : a ≡ 0 = omega arith in rw ea (omega (arith, zero-bit_and b))
bit_and-lt (suc n) a b p = omega (
  arith,
  bit_and_step a b,
  pow-suc 2 n,
  bit_and-lt n (a / 2) (b / 2) (omega (arith, pow-suc 2 n)),
)

pub bit_and-lt_right : (n a b : ℕ) → b < 2 ^ n → bit_and a b < 2 ^ n
bit_and-lt_right zero a b p =
    let eb : b ≡ 0 = omega arith in rw eb (omega (arith, bit_and-zero a a (omega arith)))
bit_and-lt_right (suc n) a b p = omega (
  arith,
  bit_and_step a b,
  pow-suc 2 n,
  bit_and-lt_right n (a / 2) (b / 2) (omega (arith, pow-suc 2 n)),
)

-- A word below 2^t has all its ones among the low t bits.
popcount-zero : (n : ℕ) → popcount n 0 ≡ 0
unfolding popcount
popcount-zero zero = refl
popcount-zero (suc n) = omega (arith, popcount-zero n)

pub popcount-low : (t n x : ℕ) → x < 2 ^ t → t ≤ n → popcount n x ≡ popcount t x
unfolding popcount
popcount-low zero n x p h = let e : x ≡ 0 = omega arith in rw e (popcount-zero n)
popcount-low (suc t) zero x p h = absurd (omega arith)
popcount-low (suc t) (suc n) x p h =
    ap (λ k. x % 2 + k) (popcount-low t n (x / 2) (omega (arith, pow-suc 2 t)) (omega arith))
