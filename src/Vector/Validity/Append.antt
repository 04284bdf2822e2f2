-- ===== src/Vector/Validity/Append.antt =====
-- `reset` and `append` of class Validity (src/vector.cpp) on the sequence of flags.
use vectorized_query_engine.Base.{
  ℕ, zero, suc, ◌+◌, ◌/◌, ◌%◌, ◌^◌, ◌<◌, ◌≤◌, ◌≡◌, ◌≢◌, refl, sym, ap, ◌∙◌, List, [], ◌∷◌, ◌++◌,
  Bool, true, false, arith, ◌==◌, length, get_or, set, replicate, length-append, length-replicate,
  get_or-replicate, tabulate, tabulate-add, inl, inr, if◌then◌else◌, Bool-cases,
}
use mathlib.Core.Path.{fun_ext}
use vectorized_query_engine.Base.Bits.{bit-mask_low, bit-zero}
use vectorized_query_engine.Vector.Validity.{
  Validity, valid, reset, set_valid, append, word_count, word_max,
}
use vectorized_query_engine.Vector.Validity.Words.{
  get_or-append_default, bit_at, valid-bit_at, bit_at-append_zero,
}
use vectorized_query_engine.Vector.Validity.Flags.{
  length-view, in_words, view, nulls, nulls-append, IsValid, IsClean, set_valid-Sets,
  bit_at-set_valid_ne, size-set_valid,
}

valid-reset :
    (v : Validity) (n : ℕ) (b : Bool) (i : ℕ) → n + 63 < 2 ^ 64 → i < n → valid (reset v n b) i ≡ b
unfolding reset bit_at
valid-reset v n true i fits h = rw (
  valid-bit_at,
  get_or-replicate (word_count n) (i / 64) word_max 0 (omega (arith, fits, h)),
  bit-mask_low (i % 64) 64 (omega arith),
)
valid-reset v n false i fits h = rw (
  valid-bit_at,
  get_or-replicate {A = ℕ} (word_count n) (i / 64) 0 0 (omega (arith, fits, h)),
  bit-zero,
)

pub tabulate-const :
    (n : ℕ) (f : ℕ → Bool) (b : Bool) → ((i : ℕ) → i < n → f i ≡ b) → tabulate n f ≡ replicate n b
tabulate-const zero f b h = refl
tabulate-const (suc n) f b h =
    cc (h 0 (omega arith), tabulate-const n (λ i. f (suc i)) b (λ i p. h (suc i) (omega arith)))

pub nulls-replicate : (n : ℕ) (b : Bool) → nulls (replicate n b) ≡ (if b then 0 else n)
unfolding nulls
nulls-replicate zero b = ground arith
nulls-replicate (suc n) true = omega (arith, nulls-replicate n true)
nulls-replicate (suc n) false = omega (arith, nulls-replicate n false)

view-reset :
    (v : Validity) (n : ℕ) (b : Bool) → n + 63 < 2 ^ 64 → view (reset v n b) ≡ replicate n b
unfolding view reset
view-reset v n b fits = tabulate-const n (valid (reset v n b)) b (λ i. valid-reset v n b i fits)

ranged-replicate : (k w i : ℕ) → w < 2 ^ 64 → get_or (replicate k w) i 0 < 2 ^ 64
ranged-replicate zero w i h = omega arith
ranged-replicate (suc k) w zero h = h
ranged-replicate (suc k) w (suc i) h = ranged-replicate k w i h

ranged-reset : (v : Validity) (n : ℕ) (b : Bool) (i : ℕ) → get_or (reset v n b).bits i 0 < 2 ^ 64
unfolding reset
ranged-reset v n true i = ranged-replicate (word_count n) word_max i (omega arith)
ranged-reset v n false i = ranged-replicate (word_count n) 0 i (omega arith)

-- For n with n + 63 below 2^64, reset(n, b) leaves a mask under the invariant with n flags, all
-- equal to b.
pub reset-Fills :
    (v : Validity) (n : ℕ) (b : Bool)
    → n + 63 < 2 ^ 64
    → IsValid (reset v n b) × (view (reset v n b) ≡ replicate n b)
unfolding reset
reset-Fills v n b h =
    let e = view-reset v n b h in
    (
      record {
        ranged = ranged-reset v n b;
        words =
            length-replicate (word_count n) (if b then word_max else 0)
            ∙ (let exact : word_count n ≡ (n + 63) / 64 = omega (arith, h) in exact);
        counted = rw (e, nulls-replicate);
        fits = omega (arith, h);
      },
      e,
    )

-- The state of `append` between `push_back(0)`, the two increments, and `set`.
grow : Validity → Validity
grow v = record {
  bits = (if v.size % 64 == 0 then v.bits ++ 0 ∷ [] else v.bits);
  size = v.size + 1;
  null_count = v.null_count + 1;
}

bit_at-grow : (v : Validity) (j : ℕ) → bit_at (grow v).bits j ≡ bit_at v.bits j
unfolding grow
bit_at-grow v j = elim (Bool-cases (v.size % 64 == 0)) [
  | inl full ↦ rw full (bit_at-append_zero v.bits j)
  | inr room ↦ rw room
]

valid-grow : (v : Validity) (j : ℕ) → valid (grow v) j ≡ valid v j
valid-grow v j = rw (valid-bit_at (grow v), valid-bit_at v, bit_at-grow)

view-grow : (v : Validity) → view (grow v) ≡ view v ++ valid v v.size ∷ []
unfolding view grow
view-grow v =
    rw (fun_ext (valid-grow v))
      (let e : v.size + 0 ≡ v.size = omega arith in rw e at (tabulate-add v.size 1 (valid v)))

ranged-grow : {v : Validity} → IsValid v → (i : ℕ) → get_or (grow v).bits i 0 < 2 ^ 64
unfolding grow
ranged-grow {v} iv i = elim (Bool-cases (v.size % 64 == 0)) [
  | inl full ↦ rw (full, get_or-append_default) (iv.ranged i)
  | inr room ↦ rw room (iv.ranged i)
]

words-grow : {v : Validity} → IsValid v → length (grow v).bits ≡ ((grow v).size + 63) / 64
unfolding grow
words-grow {v} iv = elim (Bool-cases (v.size % 64 == 0)) [
  | inl full ↦ rw (full, length-append) (ground (arith, iv.words))
  | inr room ↦ rw room (ground (arith, iv.words))
]

set-append_last :
    (xs : List Bool) (a b : Bool) (i : ℕ) → i ≡ length xs → set (xs ++ a ∷ []) i b ≡ xs ++ b ∷ []
set-append_last [] a b zero e = refl
set-append_last [] a b (suc i) e = absurd (omega arith)
set-append_last (x ∷ xs) a b zero e = absurd (omega arith)
set-append_last (x ∷ xs) a b (suc i) e = ap (λ l. x ∷ l) (set-append_last xs a b i (omega arith))

append-grow : (v : Validity) (b : Bool) → append v b ≡ set_valid (grow v) v.size b
unfolding append grow
append-grow v b = refl

module _ {v : Validity} (iv : IsValid v) (clean : IsClean v) (room : v.size + 1 < 2 ^ 64) where
  clean_flag : valid v v.size ≡ false
  clean_flag = rw (valid-bit_at, clean v.size (omega arith))

  grow-IsValid : IsValid (grow v)
  grow-IsValid = record {
    ranged = ranged-grow iv;
    words = words-grow iv;
    counted =
        rw (view-grow v, clean_flag, nulls-append) (unfold grow nulls in omega (arith, iv.counted));
    fits = unfold grow in room;
  }

  last_row : v.size < (grow v).size
  last_row = unfold grow in omega arith

  after_append : (b : Bool) → view (append v b) ≡ view v ++ b ∷ []
  after_append b =
      rw (append-grow, (set_valid-Sets v.size b grow-IsValid last_row).1, view-grow v)
        (set-append_last (view v) (valid v v.size) b v.size (sym (length-view v)))

  append-IsClean : (b : Bool) → IsClean (append v b)
  append-IsClean b row h =
      let past : v.size + 1 ≤ row = unfold append in (rw size-set_valid at h) in
      rw
        (
          append-grow,
          bit_at-set_valid_ne (grow v) v.size row b (in_words v.size grow-IsValid last_row)
              (omega arith),
          bit_at-grow,
        )
        (clean row (omega arith))

  -- On a mask under the invariant with clean spare bits and room below 2^64 rows, append adds one
  -- flag at the end and keeps the invariant and the clean spare bits.
  pub append-Appends :
      (b : Bool)
      → IsValid (append v b) × IsClean (append v b) × (view (append v b) ≡ view v ++ b ∷ [])
  append-Appends b = (
    rw append-grow (set_valid-Sets v.size b grow-IsValid last_row).0,
    append-IsClean b,
    after_append b,
  )

set_valid-clears_none :
    (v : Validity) (row : ℕ) (b : Bool)
    → valid v row ≡ true
    → (set_valid v row b).null_count ≡ (if b then v.null_count else v.null_count + 1)
unfolding set_valid
set_valid-clears_none v row b was = rw was

-- Where the spare bit is already set, `append` counts one NULL too many.
stale_count :
    (v : Validity) (b : Bool)
    → v.null_count ≡ nulls (view v)
    → valid v v.size ≡ true
    → (append v b).null_count ≡ suc (nulls (view v ++ b ∷ []))
stale_count v b counted stale =
    rw
      (
        append-grow,
        set_valid-clears_none (grow v) v.size b (valid-grow v v.size ∙ stale),
        nulls-append,
      )
      (unfold grow nulls in ground (arith, counted))

stale_flag : (v : Validity) (n : ℕ) → n % 64 ≢ 0 → n + 63 < 2 ^ 64 → valid (reset v n true) n ≡ true
unfolding reset bit_at
stale_flag v n h fits = rw (
  valid-bit_at,
  get_or-replicate (word_count n) (n / 64) word_max 0 (omega (arith, h, fits)),
  bit-mask_low (n % 64) 64 (omega arith),
)

-- After reset(n, true), with n + 63 below 2^64 and n no multiple of 64, append leaves a NULL
-- counter that is one more than the number of NULLs, whatever flag is appended.
pub append-reset_miscounts :
    (v : Validity) (n : ℕ) (b : Bool)
    → n % 64 ≢ 0
    → n + 63 < 2 ^ 64
    → (append (reset v n true) b).null_count ≡ suc (nulls (replicate n true ++ b ∷ []))
append-reset_miscounts v n b h fits =
    let (iv, e) = reset-Fills v n true fits in
    rw e at (stale_count (reset v n true) b iv.counted (unfold reset in stale_flag v n h fits))

pub size-append : (v : Validity) (b : Bool) → (append v b).size ≡ v.size + 1
unfolding append set_valid
size-append v b = refl
