-- ===== src/Vector/Validity/Chunk.antt =====
-- One round of `Validity::append_range` (src/vector.cpp): the bits that are read and written.
use native.Mathlib.Nat.{pow-le-pow_right, one-le-pow}
use Prim.Native.Nat.{bit_and, bit_or}
use vectorized_query_engine.Base.{
  ℕ, ◌+◌, ◌-◌, ◌*◌, ◌/◌, ◌%◌, ◌^◌, ◌<◌, ◌≤◌, ◌≡◌, ◌⊎◌, refl, sym, true, not, ◌&&◌, arith, ◌==◌, ltb,
  get_or, inl, inr, eq_cases, if◌then◌else◌, Bool-cases,
}
use vectorized_query_engine.Base.Bits.{
  shr, bit, bit-shr, bit-bit_and, bit-bit_or, bit-le-one, bit-mask_low, bit-of_lt, bit_and-lt_right,
}
use vectorized_query_engine.Vector.Validity.{Validity, all_valid, read_chunk, shl64, word_max}
use vectorized_query_engine.Vector.Validity.Words.{bit_at, bit-shl64_low, bit-shl64_high}

-- `take == 64 ? ~0 : (1 << take) - 1`
unfoldable pub ones : ℕ → ℕ
ones take = if take == 64 then word_max else shl64 1 take - 1

pub ones-pow : (take : ℕ) → take ≤ 64 → ones take ≡ 2 ^ take - 1
unfolding ones
ones-pow take h = elim (eq_cases take 64) [
  | inl e ↦ rw e
  | inr ne ↦
      let small : 2 ^ take ≤ 2 ^ 63 =
        pow-le-pow_right {n = 2} (omega arith) {i = take} {j = 63} (omega arith) in
      let fits : 1 * 2 ^ take % 2 ^ 64 ≡ 2 ^ take = omega arith in ground (arith, fits)
]

-- What the word before the mask is.
raw_chunk : Validity → ℕ → ℕ → ℕ
raw_chunk source start take =
    let source_shift = start % 64 in
    let low = shr (get_or source.bits (start / 64) 0) source_shift in
    let high = shl64 (get_or source.bits (start / 64 + 1) 0) (64 - source_shift) in
    if not (source_shift == 0) && ltb (64 - source_shift) take then bit_or low high else low

module _ (source : Validity) where
  read_chunk-raw :
      (start take : ℕ)
      → read_chunk source start take ≡ (
          if all_valid source then ones take else bit_and (raw_chunk source start take) (ones take))
  unfolding read_chunk raw_chunk ones
  read_chunk-raw start take = refl

  -- A chunk fits in its number of bits.
  pub read_chunk-lt : (start take : ℕ) → take ≤ 64 → read_chunk source start take < 2 ^ take
  read_chunk-lt start take fits =
      let small : ones take < 2 ^ take =
        rw (ones-pow take fits) (omega (arith, one-le-pow take 2)) in
      rw read_chunk-raw (elim (Bool-cases (all_valid source)) [
        | inl full ↦ rw full small
        | inr part ↦ rw part (bit_and-lt_right take (raw_chunk source start take) (ones take) small)
      ])

module _ (source : Validity) (ranged : (i : ℕ) → get_or source.bits i 0 < 2 ^ 64) where
  raw_near :
      (start take k : ℕ)
      → start % 64 + k < 64
      → bit k (raw_chunk source start take) ≡ bit_at source.bits (start + k)
  unfolding raw_chunk bit_at
  raw_near start take k h =
      let q : (start + k) / 64 ≡ start / 64 = omega arith in
      let r : (start + k) % 64 ≡ start % 64 + k = omega arith in
      let low = bit-shr k (start % 64) (get_or source.bits (start / 64) 0) in
      let high =
        bit-shl64_low k (64 - start % 64) (get_or source.bits (start / 64 + 1) 0) (omega arith) in
      elim (Bool-cases (not (start % 64 == 0) && ltb (64 - start % 64) take)) [
        | inl both ↦ rw (both, bit-bit_or, q, r) (omega (arith, low, high (omega arith)))
        | inr one ↦ rw (one, q, r) low
      ]

  raw_far :
      (start take k : ℕ)
      → k < take
      → take ≤ 64
      → 64 ≤ start % 64 + k
      → bit k (raw_chunk source start take) ≡ bit_at source.bits (start + k)
  unfolding raw_chunk bit_at
  raw_far start take k h fits far =
      let q : (start + k) / 64 ≡ start / 64 + 1 = omega arith in
      let j = k - (64 - start % 64) in
      let r : (start + k) % 64 ≡ j = omega arith in
      let e : 64 - start % 64 + j ≡ k = omega arith in
      let both : (not (start % 64 == 0) && ltb (64 - start % 64) take) ≡ true = ground arith in
      let w = get_or source.bits (start / 64) 0 in
      let low = bit-shr k (start % 64) w in
      let none_left = bit-of_lt (start % 64 + k) 64 w (ranged (start / 64)) far in
      let high = bit-shl64_high j (64 - start % 64) (get_or source.bits (start / 64 + 1) 0) in
      rw (both, bit-bit_or, q, r) (omega (arith, low, none_left, (rw e at high) (omega arith)))

  bit-raw_chunk :
      (start take k : ℕ)
      → k < take
      → take ≤ 64
      → bit k (raw_chunk source start take) ≡ bit_at source.bits (start + k)
  bit-raw_chunk start take k h fits = elim (near_or_far (start % 64) k) [
    | inl near ↦ raw_near start take k near
    | inr far ↦ raw_far start take k h fits far
  ]
    where
      near_or_far : (s k : ℕ) → (s + k < 64) ⊎ (64 ≤ s + k)
      near_or_far s k = omega arith

  -- Its bits are the source's flags, row by row.
  pub bit-read_chunk :
      (start take k : ℕ)
      → k < take
      → take ≤ 64
      → (all_valid source ≡ true → bit_at source.bits (start + k) ≡ 1)
      → bit k (read_chunk source start take) ≡ bit_at source.bits (start + k)
  bit-read_chunk start take k h fits whole =
      let one : bit k (ones take) ≡ 1 = rw (ones-pow take fits) (bit-mask_low k take h) in
      rw (read_chunk-raw source) (elim (Bool-cases (all_valid source)) [
        | inl full ↦ rw (full, one) (sym (whole full))
        | inr part ↦
            let raw = bit-raw_chunk start take k h fits in
            let small = bit-le-one k (raw_chunk source start take) in
            rw (part, bit-bit_and) (omega arith)
      ])
