-- ===== src/Kernels/Lanes.antt =====
-- The SIMD loops of src/kernels.cpp against the scalar loops.
use vectorized_query_engine.Base.{
  ℕ, zero, suc, ◌≡◌, refl, ap, Bool, true, false, List, ◌∷◌, arith, length, ◌≤◌, ◌<◌, get_or,
}
use vectorized_query_engine.Base.Int.{ℤ, pos, ltb_ℤ}
use vectorized_query_engine.Base.Bits.{shr}
use vectorized_query_engine.Vector.Double.{Arithmetic}
use vectorized_query_engine.Kernels.{
  KernelMode, scalar, auto, Machine, arm64, x86, other, flag, less_scalar, add_scalar, movemask,
  less_avx2, add_avx2, less_neon, add_neon, less_i64_constant, add_f64,
}
use Prim.Native.Nat.{bit_and}

mask_lanes :
    (a b c d : Bool)
    → let mask = movemask a b c d in
      (bit_and (shr mask 0) 1 ≡ flag a)
      × (bit_and (shr mask 1) 1 ≡ flag b)
      × (bit_and (shr mask 2) 1 ≡ flag c)
      × (bit_and (shr mask 3) 1 ≡ flag d)
unfolding shr
mask_lanes true true true true = (refl, refl, refl, refl)
mask_lanes true true true false = (refl, refl, refl, refl)
mask_lanes true true false true = (refl, refl, refl, refl)
mask_lanes true true false false = (refl, refl, refl, refl)
mask_lanes true false true true = (refl, refl, refl, refl)
mask_lanes true false true false = (refl, refl, refl, refl)
mask_lanes true false false true = (refl, refl, refl, refl)
mask_lanes true false false false = (refl, refl, refl, refl)
mask_lanes false true true true = (refl, refl, refl, refl)
mask_lanes false true true false = (refl, refl, refl, refl)
mask_lanes false true false true = (refl, refl, refl, refl)
mask_lanes false true false false = (refl, refl, refl, refl)
mask_lanes false false true true = (refl, refl, refl, refl)
mask_lanes false false true false = (refl, refl, refl, refl)
mask_lanes false false false true = (refl, refl, refl, refl)
mask_lanes false false false false = (refl, refl, refl, refl)

less_avx2-eq :
    (xs : List ℤ) (c : ℤ) (os : List ℕ) (n : ℕ) → less_avx2 xs c os n ≡ less_scalar xs c os n
unfolding less_avx2
less_avx2-eq (x ∷ y ∷ z ∷ w ∷ xs) c (o ∷ p ∷ q ∷ r ∷ os) (suc (suc (suc (suc n)))) =
    let m = mask_lanes (ltb_ℤ x c) (ltb_ℤ y c) (ltb_ℤ z c) (ltb_ℤ w c) in
    cc (m.0, m.1, m.2, m.3, less_avx2-eq xs c os n)
less_avx2-eq xs c os n = refl

less_neon-eq :
    (xs : List ℤ) (c : ℤ) (os : List ℕ) (n : ℕ) → less_neon xs c os n ≡ less_scalar xs c os n
unfolding less_neon
less_neon-eq (x ∷ y ∷ xs) c (o ∷ p ∷ os) (suc (suc n)) = cc (less_neon-eq xs c os n)
less_neon-eq xs c os n = refl

-- The comparison kernel writes what the scalar loop writes, on every machine, in every mode and
-- for every length.
pub less_i64_constant-eq :
    (machine : Machine) (mode : KernelMode) (xs : List ℤ) (c : ℤ) (os : List ℕ) (n : ℕ)
    → less_i64_constant machine mode xs c os n ≡ less_scalar xs c os n
unfolding less_i64_constant
less_i64_constant-eq machine scalar xs c os n = refl
less_i64_constant-eq arm64 auto xs c os n = less_neon-eq xs c os n
less_i64_constant-eq (x86 true) auto xs c os n = less_avx2-eq xs c os n
less_i64_constant-eq (x86 false) auto xs c os n = refl
less_i64_constant-eq other auto xs c os n = refl

module _ (m : Arithmetic) where
  add_avx2-eq : (xs ys os : List ℕ) (n : ℕ) → add_avx2 m xs ys os n ≡ add_scalar m xs ys os n
  unfolding add_avx2
  add_avx2-eq (x ∷ x' ∷ x'' ∷ x''' ∷ xs) (y ∷ y' ∷ y'' ∷ y''' ∷ ys) (o ∷ p ∷ q ∷ r ∷ os)
        (suc (suc (suc (suc n)))) =
      cc (add_avx2-eq xs ys os n)
  add_avx2-eq xs ys os n = refl

  add_neon-eq : (xs ys os : List ℕ) (n : ℕ) → add_neon m xs ys os n ≡ add_scalar m xs ys os n
  unfolding add_neon
  add_neon-eq (x ∷ x' ∷ xs) (y ∷ y' ∷ ys) (o ∷ p ∷ os) (suc (suc n)) = cc (add_neon-eq xs ys os n)
  add_neon-eq xs ys os n = refl

  -- The addition kernel writes what the scalar loop writes, on every machine, in every mode and
  -- for every length, whatever the rounded addition is.
  pub add_f64-eq :
      (machine : Machine) (mode : KernelMode) (xs ys os : List ℕ) (n : ℕ)
      → add_f64 m machine mode xs ys os n ≡ add_scalar m xs ys os n
  unfolding add_f64
  add_f64-eq machine scalar xs ys os n = refl
  add_f64-eq arm64 auto xs ys os n = add_neon-eq xs ys os n
  add_f64-eq (x86 true) auto xs ys os n = add_avx2-eq xs ys os n
  add_f64-eq (x86 false) auto xs ys os n = refl
  add_f64-eq other auto xs ys os n = refl

-- The scalar loop, element by element.
pub get_or-less_scalar :
    (xs : List ℤ) (c : ℤ) (os : List ℕ) (n i : ℕ)
    → n ≤ length xs
    → n ≤ length os
    → i < n
    → get_or (less_scalar xs c os n) i 0 ≡ flag (ltb_ℤ (get_or xs i (pos 0)) c)
unfolding less_scalar
get_or-less_scalar (x ∷ xs) c (o ∷ os) (suc n) zero h k p = refl
get_or-less_scalar (x ∷ xs) c (o ∷ os) (suc n) (suc i) h k p =
    get_or-less_scalar xs c os n i (omega arith) (omega arith) (omega arith)
get_or-less_scalar xs c os n i h k p = absurd (omega arith)

pub get_or-add_scalar :
    (m : Arithmetic) (xs ys os : List ℕ) (n i : ℕ)
    → n ≤ length xs
    → n ≤ length ys
    → n ≤ length os
    → i < n
    → get_or (add_scalar m xs ys os n) i 0 ≡ m.add (get_or xs i 0) (get_or ys i 0)
unfolding add_scalar
get_or-add_scalar m (x ∷ xs) (y ∷ ys) (o ∷ os) (suc n) zero h k l p = refl
get_or-add_scalar m (x ∷ xs) (y ∷ ys) (o ∷ os) (suc n) (suc i) h k l p =
    get_or-add_scalar m xs ys os n i (omega arith) (omega arith) (omega arith) (omega arith)
get_or-add_scalar m xs ys os n i h k l p = absurd (omega arith)

pub length-less_scalar :
    (xs : List ℤ) (c : ℤ) (os : List ℕ) (n : ℕ) → length (less_scalar xs c os n) ≡ length os
unfolding less_scalar
length-less_scalar (x ∷ xs) c (o ∷ os) (suc n) = ap suc (length-less_scalar xs c os n)
length-less_scalar xs c os n = refl

pub length-add_scalar :
    (m : Arithmetic) (xs ys os : List ℕ) (n : ℕ) → length (add_scalar m xs ys os n) ≡ length os
unfolding add_scalar
length-add_scalar m (x ∷ xs) (y ∷ ys) (o ∷ os) (suc n) = ap suc (length-add_scalar m xs ys os n)
length-add_scalar m xs ys os n = refl
