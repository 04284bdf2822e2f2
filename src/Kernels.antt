-- ===== src/Kernels.antt =====
-- include/vqe/kernels.hpp, src/kernels.cpp and src/kernels_scalar.cpp: the two hot loops, one element
-- at a time and by SIMD lanes. A lane operation acts on each element of a short vector at once; the
-- compare-and-mask intrinsics yield one bit for each lane.
pub mod Lanes
use vectorized_query_engine.Base.{
  ℕ, zero, suc, ◌+◌, ◌*◌, Bool, true, false, List, [], ◌∷◌, if◌then◌else◌,
}
use vectorized_query_engine.Base.Int.{ℤ, ltb_ℤ}
use vectorized_query_engine.Base.Bits.{shr}
use vectorized_query_engine.Vector.Double.{Arithmetic}
use Prim.Native.Nat.{bit_and}

-- `enum class KernelMode`
pub data KernelMode : Type 0 where
  scalar auto : KernelMode

-- The processor that the program is built for and runs on.
pub data Machine : Type 0 where
  arm64 : Machine
  x86 : Bool → Machine
  other : Machine

abbrev pub flag : Bool → ℕ
flag b = if b then 1 else 0

-- `out[i] = in[i] < c` for the first n elements
unfoldable pub less_scalar : List ℤ → ℤ → List ℕ → ℕ → List ℕ
less_scalar (x ∷ xs) c (o ∷ os) (suc n) = flag (ltb_ℤ x c) ∷ less_scalar xs c os n
less_scalar xs c os n = os

unfoldable pub add_scalar : Arithmetic → List ℕ → List ℕ → List ℕ → ℕ → List ℕ
add_scalar m (x ∷ xs) (y ∷ ys) (o ∷ os) (suc n) = m.add x y ∷ add_scalar m xs ys os n
add_scalar m xs ys os n = os

-- `_mm256_movemask_pd` of four comparisons
abbrev pub movemask : Bool → Bool → Bool → Bool → ℕ
movemask a b c d = flag a + 2 * flag b + 4 * flag c + 8 * flag d

-- Four lanes at a time, then the scalar tail.
unfoldable pub less_avx2 : List ℤ → ℤ → List ℕ → ℕ → List ℕ
unfolding shr less_scalar
less_avx2 (x ∷ y ∷ z ∷ w ∷ xs) c (o ∷ p ∷ q ∷ r ∷ os) (suc (suc (suc (suc n)))) =
    let mask = movemask (ltb_ℤ x c) (ltb_ℤ y c) (ltb_ℤ z c) (ltb_ℤ w c) in
    bit_and (shr mask 0) 1
    ∷ bit_and (shr mask 1) 1
    ∷ bit_and (shr mask 2) 1
    ∷ bit_and (shr mask 3) 1
    ∷ less_avx2 xs c os n
less_avx2 xs c os n = less_scalar xs c os n

unfoldable pub add_avx2 : Arithmetic → List ℕ → List ℕ → List ℕ → ℕ → List ℕ
unfolding add_scalar
add_avx2 m (x ∷ x' ∷ x'' ∷ x''' ∷ xs) (y ∷ y' ∷ y'' ∷ y''' ∷ ys) (o ∷ p ∷ q ∷ r ∷ os)
      (suc (suc (suc (suc n)))) =
    m.add x y ∷ m.add x' y' ∷ m.add x'' y'' ∷ m.add x''' y''' ∷ add_avx2 m xs ys os n
add_avx2 m xs ys os n = add_scalar m xs ys os n

-- Two lanes at a time; a lane's mask is all ones or 0, and `!= 0` makes it a flag.
unfoldable pub less_neon : List ℤ → ℤ → List ℕ → ℕ → List ℕ
unfolding less_scalar
less_neon (x ∷ y ∷ xs) c (o ∷ p ∷ os) (suc (suc n)) =
    flag (ltb_ℤ x c) ∷ flag (ltb_ℤ y c) ∷ less_neon xs c os n
less_neon xs c os n = less_scalar xs c os n

unfoldable pub add_neon : Arithmetic → List ℕ → List ℕ → List ℕ → ℕ → List ℕ
unfolding add_scalar
add_neon m (x ∷ x' ∷ xs) (y ∷ y' ∷ ys) (o ∷ p ∷ os) (suc (suc n)) =
    m.add x y ∷ m.add x' y' ∷ add_neon m xs ys os n
add_neon m xs ys os n = add_scalar m xs ys os n

unfoldable pub less_i64_constant : Machine → KernelMode → List ℤ → ℤ → List ℕ → ℕ → List ℕ
unfolding less_scalar less_avx2 less_neon
less_i64_constant machine scalar input c out n = less_scalar input c out n
less_i64_constant arm64 auto input c out n = less_neon input c out n
less_i64_constant (x86 true) auto input c out n = less_avx2 input c out n
less_i64_constant (x86 false) auto input c out n = less_scalar input c out n
less_i64_constant other auto input c out n = less_scalar input c out n

unfoldable pub add_f64 : Arithmetic → Machine → KernelMode → List ℕ → List ℕ → List ℕ → ℕ → List ℕ
unfolding add_scalar add_avx2 add_neon
add_f64 m machine scalar a b out n = add_scalar m a b out n
add_f64 m arm64 auto a b out n = add_neon m a b out n
add_f64 m (x86 true) auto a b out n = add_avx2 m a b out n
add_f64 m (x86 false) auto a b out n = add_scalar m a b out n
add_f64 m other auto a b out n = add_scalar m a b out n
