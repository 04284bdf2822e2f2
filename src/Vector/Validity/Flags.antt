-- ===== src/Vector/Validity/Flags.antt =====
-- What `set` does to the sequence of flags, and the invariant of the NULL counter.
use vectorized_query_engine.Base.{
  ℕ, zero, suc, ◌+◌, ◌/◌, ◌%◌, ◌^◌, ◌<◌, ◌≤◌, ◌≡◌, ◌≢◌, refl, sym, ◌∙◌, List, [], ◌∷◌, ◌++◌, Bool,
  true, false, arith, length, get_or, set, length-set, tabulate, length-tabulate, get_or-tabulate,
  get_or-ext, get_or-set_self, get_or-set_ne, inl, inr, eq_cases, if◌then◌else◌, Bool-cases,
}
use vectorized_query_engine.Base.Bits.{bit-bit_and, bit-bit_or, bit-le-one, bit_or-lt, bit_and-lt}
use vectorized_query_engine.Vector.Validity.{Validity, valid, set_valid, shl64}
use vectorized_query_engine.Vector.Validity.Words.{
  bit_at, valid-bit_at, bit_at-set_hit, bit_at-set_miss, bit-shl64_one_self, bit-shl64_one_ne,
  shl64-lt, bit-not64,
}

-- The flags of the rows in use, in order: what the mask means.
unfoldable pub view : Validity → List Bool
view v = tabulate v.size (valid v)

-- How many rows are NULL.
unfoldable pub nulls : List Bool → ℕ
nulls [] = 0
nulls (b ∷ bs) = (if b then 0 else 1) + nulls bs

pub nulls-append : (xs ys : List Bool) → nulls (xs ++ ys) ≡ nulls xs + nulls ys
unfolding nulls
nulls-append [] ys = omega arith
nulls-append (b ∷ xs) ys = omega (arith, nulls-append xs ys)

pub nulls-le : (xs : List Bool) → nulls xs ≤ length xs
unfolding nulls
nulls-le [] = omega arith
nulls-le (true ∷ xs) = omega (arith, nulls-le xs)
nulls-le (false ∷ xs) = omega (arith, nulls-le xs)

pub nulls-set :
    (xs : List Bool) (i : ℕ) (b : Bool)
    → i < length xs
    → nulls (set xs i b) + (if get_or xs i true then 0 else 1) ≡ nulls xs + (if b then 0 else 1)
unfolding nulls
nulls-set [] i b h = absurd (omega arith)
nulls-set (x ∷ xs) zero b h = omega arith
nulls-set (x ∷ xs) (suc i) b h = omega (arith, nulls-set xs i b (omega arith))

pub nulls_pos : (xs : List Bool) (i : ℕ) → get_or xs i true ≡ false → 0 < nulls xs
unfolding nulls
nulls_pos [] i h = cc
nulls_pos (x ∷ xs) zero h = rw h (omega arith)
nulls_pos (x ∷ xs) (suc i) h = omega (arith, nulls_pos xs i h)

-- The representation is in step with the flags: enough words of 64 bits, and the counter is the
-- count of the flags that are false.
pub record IsValid (v : Validity) : Type 0 where
  pub ranged : (i : ℕ) → get_or v.bits i 0 < 2 ^ 64
  pub words : length v.bits ≡ (v.size + 63) / 64
  pub counted : v.null_count ≡ nulls (view v)
  pub fits : v.size < 2 ^ 64

-- The spare bits of the last word are 0, as `append` needs them.
abbrev pub IsClean : Validity → Type 0
IsClean v = (row : ℕ) → v.size ≤ row → bit_at v.bits row ≡ 0

pub length-view : (v : Validity) → length (view v) ≡ v.size
unfolding view
length-view v = length-tabulate v.size (valid v)

pub get_or-view : (v : Validity) (i : ℕ) (d : Bool) → i < v.size → get_or (view v) i d ≡ valid v i
unfolding view
get_or-view v i d h = get_or-tabulate v.size (valid v) i d h

-- The bits after `set`.
abbrev pub flag : Bool → ℕ
flag b = if b then 1 else 0

pub bit_at-set_valid_self :
    (v : Validity) (row : ℕ) (b : Bool)
    → row / 64 < length v.bits
    → bit_at (set_valid v row b).bits row ≡ flag b
unfolding set_valid
bit_at-set_valid_self v row true h =
    rw
      (
        bit_at-set_hit v.bits (row / 64) _ row h refl,
        bit-bit_or,
        bit-shl64_one_self (row % 64) (omega arith),
      )
      (omega (arith, bit-le-one (row % 64) (get_or v.bits (row / 64) 0)))
bit_at-set_valid_self v row false h =
    let one = bit-shl64_one_self (row % 64) (omega arith) in
    rw (bit_at-set_hit v.bits (row / 64) _ row h refl, bit-bit_and)
      (omega
        (arith, bit-not64 (row % 64) (shl64 1 (row % 64)) (omega arith) (shl64-lt 1 (row % 64))))

-- Inside the word that is written, the other bits stay.
same_word :
    (v : Validity) (row j : ℕ) (b : Bool)
    → row / 64 < length v.bits
    → j % 64 ≢ row % 64
    → j / 64 ≡ row / 64
    → bit_at (set_valid v row b).bits j ≡ bit_at v.bits j
unfolding set_valid bit_at
same_word v row j true h apart near =
    rw (bit_at-set_hit v.bits (row / 64) _ j h near, bit-bit_or, near)
      (omega (arith, bit-shl64_one_ne (j % 64) (row % 64) (omega arith) apart))
same_word v row j false h apart near =
    let low = bit-shl64_one_ne (j % 64) (row % 64) (omega arith) apart in
    let k = bit-not64 (j % 64) (shl64 1 (row % 64)) (omega arith) (shl64-lt 1 (row % 64)) in
    rw (bit_at-set_hit v.bits (row / 64) _ j h near, bit-bit_and, near)
      (omega (arith, bit-le-one (j % 64) (get_or v.bits (row / 64) 0)))

pub bit_at-set_valid_ne :
    (v : Validity) (row j : ℕ) (b : Bool)
    → row / 64 < length v.bits
    → j ≢ row
    → bit_at (set_valid v row b).bits j ≡ bit_at v.bits j
bit_at-set_valid_ne v row j b h ne = elim (eq_cases (j / 64) (row / 64)) [
  | inl near ↦ same_word v row j b h (omega arith) near
  | inr far ↦ unfold set_valid in bit_at-set_miss v.bits (row / 64) _ j far
]

pub size-set_valid : (v : Validity) (row : ℕ) (b : Bool) → (set_valid v row b).size ≡ v.size
unfolding set_valid
size-set_valid v row b = refl

pub valid-set_valid_self :
    (v : Validity) (row : ℕ) (b : Bool)
    → row / 64 < length v.bits
    → valid (set_valid v row b) row ≡ b
valid-set_valid_self v row true h = rw (valid-bit_at, bit_at-set_valid_self v row true h)
valid-set_valid_self v row false h = rw (valid-bit_at, bit_at-set_valid_self v row false h)

pub valid-set_valid_ne :
    (v : Validity) (row j : ℕ) (b : Bool)
    → row / 64 < length v.bits
    → j ≢ row
    → valid (set_valid v row b) j ≡ valid v j
valid-set_valid_ne v row j b h ne =
    rw (valid-bit_at (set_valid v row b), valid-bit_at v, bit_at-set_valid_ne v row j b h ne)

pub in_words : {v : Validity} (row : ℕ) → IsValid v → row < v.size → row / 64 < length v.bits
in_words row iv h = omega (arith, iv.words)

view-set_valid :
    {v : Validity} (row : ℕ) (b : Bool)
    → IsValid v
    → row < v.size
    → view (set_valid v row b) ≡ set (view v) row b
view-set_valid {v} row b iv h =
    get_or-ext (view (set_valid v row b)) (set (view v) row b) true
      (rw (length-view, length-set, length-view, size-set_valid))
      (λ i p. flags i (rw (length-view, size-set_valid) at p))
  where
    inside : row / 64 < length v.bits
    inside = in_words row iv h

    flags :
        (i : ℕ)
        → i < v.size
        → get_or (view (set_valid v row b)) i true ≡ get_or (set (view v) row b) i true
    flags i p = elim (eq_cases i row) [
      | inl e ↦
          rw
            (
              e,
              get_or-view (set_valid v row b) row true (rw size-set_valid h),
              get_or-set_self (view v) row b true (rw length-view h),
            )
            (valid-set_valid_self v row b inside)
      | inr ne ↦
          rw
            (
              get_or-view (set_valid v row b) i true (rw size-set_valid p),
              get_or-set_ne (view v) row i b true (λ e. ne (sym e)),
              get_or-view v i true p,
            )
            (valid-set_valid_ne v row i b inside ne)
    ]

counted-set_valid :
    {v : Validity} (row : ℕ) (b : Bool)
    → IsValid v
    → row < v.size
    → (set_valid v row b).null_count ≡ nulls (set (view v) row b)
unfolding set_valid
counted-set_valid {v} row b iv h =
    let old = get_or-view v row true h in
    let after = nulls-set (view v) row b (rw length-view h) in
    elim (Bool-cases (valid v row)) [
      | inl was ↦ ground (arith, iv.counted, (rw (old, was) at after))
      | inr was ↦ ground (
        arith,
        iv.counted,
        (rw (old, was) at after),
        nulls_pos (view v) row (old ∙ was),
        nulls-le (view v),
        length-view v,
      )
    ]

pub ranged-set :
    (ws : List ℕ) (q w : ℕ)
    → ((i : ℕ) → get_or ws i 0 < 2 ^ 64)
    → w < 2 ^ 64
    → (i : ℕ) → get_or (set ws q w) i 0 < 2 ^ 64
ranged-set [] q w all h i = omega arith
ranged-set (x ∷ ws) zero w all h zero = h
ranged-set (x ∷ ws) zero w all h (suc i) = all (suc i)
ranged-set (x ∷ ws) (suc q) w all h zero = all 0
ranged-set (x ∷ ws) (suc q) w all h (suc i) = ranged-set ws q w (λ k. all (suc k)) h i

ranged-set_valid :
    {v : Validity} (row : ℕ) (b : Bool)
    → IsValid v
    → (i : ℕ) → get_or (set_valid v row b).bits i 0 < 2 ^ 64
unfolding set_valid
ranged-set_valid {v} row true iv =
    ranged-set v.bits (row / 64) _ iv.ranged
      (bit_or-lt 64 _ _ (iv.ranged (row / 64)) (shl64-lt 1 (row % 64)))
ranged-set_valid {v} row false iv =
    ranged-set v.bits (row / 64) _ iv.ranged (bit_and-lt 64 _ _ (iv.ranged (row / 64)))

-- On a mask under the invariant and one of its rows, set writes that flag and no other, and keeps
-- the invariant, so the NULL counter stays exact.
pub set_valid-Sets :
    {v : Validity} (row : ℕ) (b : Bool)
    → IsValid v
    → row < v.size
    → IsValid (set_valid v row b) × (view (set_valid v row b) ≡ set (view v) row b)
set_valid-Sets {v} row b iv h =
    let e = view-set_valid row b iv h in
    (
      record {
        ranged = ranged-set_valid row b iv;
        words = unfold set_valid in rw length-set (iv.words);
        counted = rw e (counted-set_valid row b iv h);
        fits = unfold set_valid in iv.fits;
      },
      e,
    )
