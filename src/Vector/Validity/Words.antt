-- ===== src/Vector/Validity/Words.antt =====
-- The bits of a vector of words, by row number.
use vectorized_query_engine.Base.{
  ℕ, zero, suc, ◌+◌, ◌*◌, ◌/◌, ◌%◌, ◌^◌, ◌<◌, ◌≤◌, ◌≡◌, ◌≢◌, refl, sym, ap, List, [], ◌∷◌, ◌++◌,
  not, arith, ◌==◌, length, get_or, set, get_or-set_self, get_or-set_ne, resize, get_or-resize,
}
use vectorized_query_engine.Base.Bits.{
  shr, bit, bit-shr, bit_and-mask, bit-mod, bit-pow_self, bit-pow_ne, bit-complement,
  bit-mul_pow_low, bit-mul_pow_high,
}
use vectorized_query_engine.Vector.Validity.{Validity, valid, shl64, not64}
use Prim.Native.Nat.{bit_and}

unfoldable pub bit_at : List ℕ → ℕ → ℕ
bit_at ws row = bit (row % 64) (get_or ws (row / 64) 0)

low_bit : (k x : ℕ) → bit_and (shr x k) 1 ≡ bit k x
unfolding bit
low_bit k x =
    let e : k + 0 ≡ k = omega arith in
    let s = bit-shr 0 k x in omega (arith, ap (λ i. bit i x) e, s, bit_and-mask 1 (shr x k))

pub valid-bit_at : (v : Validity) (row : ℕ) → valid v row ≡ not (bit_at v.bits row == 0)
unfolding valid bit_at
valid-bit_at v row = rw low_bit

-- A word that is written is read back, bit by bit; the other words stay.
pub bit_at-set_hit :
    (ws : List ℕ) (q w j : ℕ) → q < length ws → j / 64 ≡ q → bit_at (set ws q w) j ≡ bit (j % 64) w
unfolding bit_at
bit_at-set_hit ws q w j h e = rw (e, get_or-set_self ws q w 0 h)

pub bit_at-set_miss : (ws : List ℕ) (q w j : ℕ) → j / 64 ≢ q → bit_at (set ws q w) j ≡ bit_at ws j
unfolding bit_at
bit_at-set_miss ws q w j h = rw (get_or-set_ne ws q (j / 64) w 0 (λ e. h (sym e)))

-- Zero words at the end are what is read past the end.
pub get_or-append_default : (ws : List ℕ) (i : ℕ) → get_or (ws ++ 0 ∷ []) i 0 ≡ get_or ws i 0
get_or-append_default [] zero = refl
get_or-append_default [] (suc i) = refl
get_or-append_default (w ∷ ws) zero = refl
get_or-append_default (w ∷ ws) (suc i) = get_or-append_default ws i

pub bit_at-append_zero : (ws : List ℕ) (j : ℕ) → bit_at (ws ++ 0 ∷ []) j ≡ bit_at ws j
unfolding bit_at
bit_at-append_zero ws j = rw get_or-append_default

pub bit_at-resize : (ws : List ℕ) (n j : ℕ) → j / 64 < n → bit_at (resize n 0 ws) j ≡ bit_at ws j
unfolding bit_at
bit_at-resize ws n j h = rw (get_or-resize n 0 ws (j / 64) h)

-- Bits of a shifted word.
pub bit-shl64_low : (k s x : ℕ) → k < 64 → k < s → bit k (shl64 x s) ≡ 0
bit-shl64_low k s x w h = rw (bit-mod k 64 (x * 2 ^ s) w) (bit-mul_pow_low k s x h)

pub bit-shl64_high : (k s x : ℕ) → s + k < 64 → bit (s + k) (shl64 x s) ≡ bit k x
bit-shl64_high k s x w = rw (bit-mod (s + k) 64 (x * 2 ^ s) w) (bit-mul_pow_high k s x)

one_shifted : (s : ℕ) → 1 * 2 ^ s ≡ 2 ^ s
one_shifted s = omega arith

pub bit-shl64_one_self : (k : ℕ) → k < 64 → bit k (shl64 1 k) ≡ 1
bit-shl64_one_self k w = rw (bit-mod k 64 (1 * 2 ^ k) w, one_shifted k) (bit-pow_self k)

pub bit-shl64_one_ne : (k s : ℕ) → k < 64 → k ≢ s → bit k (shl64 1 s) ≡ 0
bit-shl64_one_ne k s w h = rw (bit-mod k 64 (1 * 2 ^ s) w, one_shifted s) (bit-pow_ne k s h)

pub shl64-lt : (x s : ℕ) → shl64 x s < 2 ^ 64
shl64-lt x s = omega arith

pub bit-not64 : (k x : ℕ) → k < 64 → x < 2 ^ 64 → bit k (not64 x) + bit k x ≡ 1
bit-not64 k x w h = bit-complement k 64 x w h

-- A vector that grows by `resize(n, 0)` reads as before.
pub get_or-resize_grow :
    (n : ℕ) (ws : List ℕ) (i : ℕ) → length ws ≤ n → get_or (resize n 0 ws) i 0 ≡ get_or ws i 0
get_or-resize_grow zero [] i h = refl
get_or-resize_grow zero (w ∷ ws) i h = absurd (omega arith)
get_or-resize_grow (suc n) [] zero h = refl
get_or-resize_grow (suc n) [] (suc i) h = get_or-resize_grow n [] i (omega arith)
get_or-resize_grow (suc n) (w ∷ ws) zero h = refl
get_or-resize_grow (suc n) (w ∷ ws) (suc i) h = get_or-resize_grow n ws i (omega arith)

pub resized :
    (n : ℕ) (ws : List ℕ) → length ws ≤ n → (j : ℕ) → bit_at (resize n 0 ws) j ≡ bit_at ws j
unfolding bit_at
resized n ws h j = rw (get_or-resize_grow n ws (j / 64) h)
