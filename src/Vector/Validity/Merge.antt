-- ===== src/Vector/Validity/Merge.antt =====
-- One round of `Validity::append_range` (src/vector.cpp): the word that is written.
use Prim.Native.Nat.{bit_and, bit_or}
use vectorized_query_engine.Base.{
  ℕ, ◌+◌, ◌-◌, ◌/◌, ◌%◌, ◌^◌, ◌<◌, ◌≤◌, ◌≡◌, refl, arith, min, length, get_or, set, inl, inr,
  eq_cases,
}
use vectorized_query_engine.Base.Bits.{
  bit, bit-bit_and, bit-bit_or, bit-le-one, bit-mask_low, bit-mask_high, bit-of_lt,
}
use vectorized_query_engine.Vector.Validity.{Validity, read_chunk, append_chunk, shl64, not64}
use vectorized_query_engine.Vector.Validity.Chunk.{ones, ones-pow, read_chunk-lt}
use vectorized_query_engine.Vector.Validity.Words.{
  bit_at, bit_at-set_hit, bit_at-set_miss, bit-shl64_low, bit-shl64_high, shl64-lt, bit-not64,
}

-- The word that a round writes: the old word with `take` bits replaced from bit `shift` on.
merge : ℕ → ℕ → ℕ → ℕ → ℕ
merge word value shift take =
    bit_or (bit_and word (not64 (shl64 (ones take) shift))) (shl64 value shift)

merge_outside :
    (word value shift take k : ℕ)
    → k < 64
    → bit k (shl64 (ones take) shift) ≡ 0
    → bit k (shl64 value shift) ≡ 0
    → bit k (merge word value shift take) ≡ bit k word
unfolding merge
merge_outside word value shift take k w m v =
    let n = bit-not64 k (shl64 (ones take) shift) w (shl64-lt (ones take) shift) in
    let small = bit-le-one k word in rw (bit-bit_or, bit-bit_and) (omega arith)

merge_before :
    (word value shift take k : ℕ)
    → k < 64
    → k < shift
    → bit k (merge word value shift take) ≡ bit k word
merge_before word value shift take k w h =
    merge_outside word value shift take k w (bit-shl64_low k shift (ones take) w h)
      (bit-shl64_low k shift value w h)

module _ (word value shift take : ℕ) (fits : shift + take ≤ 64) (small : value < 2 ^ take) where
  merge_after :
      (k : ℕ)
      → shift + k < 64
      → take ≤ k
      → bit (shift + k) (merge word value shift take) ≡ bit (shift + k) word
  merge_after k w h =
      let high = bit-mask_high k take h in
      merge_outside word value shift take (shift + k) w
        (rw (bit-shl64_high k shift (ones take) w, ones-pow take (omega arith)) high)
        (rw (bit-shl64_high k shift value w) (bit-of_lt k take value small h))

  merge_inside : (k : ℕ) → k < take → bit (shift + k) (merge word value shift take) ≡ bit k value
  unfolding merge
  merge_inside k h =
      let w : shift + k < 64 = omega arith in
      let one : bit k (ones take) ≡ 1 = rw (ones-pow take (omega arith)) (bit-mask_low k take h) in
      let covered = bit-shl64_high k shift (ones take) w in
      let cleared =
        bit-not64 (shift + k) (shl64 (ones take) shift) w (shl64-lt (ones take) shift) in
      let moved = bit-shl64_high k shift value w in rw (bit-bit_or, bit-bit_and) (omega arith)

-- The rows that one round copies.
abbrev pub chunk_size : Validity → ℕ → ℕ
chunk_size v count = min count (64 - v.size % 64)

module _ (v source : Validity) (start count : ℕ) (inside : v.size / 64 < length v.bits) where
  append_chunk-bits :
      (append_chunk v source start count).bits
      ≡ set v.bits (v.size / 64) (
          merge
            (get_or v.bits (v.size / 64) 0)
            (read_chunk source start (chunk_size v count))
            (v.size % 64)
            (chunk_size v count))
  unfolding append_chunk merge ones
  append_chunk-bits = refl

  -- The rows in use keep their bits.
  pub chunk_before :
      (j : ℕ) → j < v.size → bit_at (append_chunk v source start count).bits j ≡ bit_at v.bits j
  chunk_before j h = elim (eq_cases (j / 64) (v.size / 64)) [
    | inr far ↦ rw append_chunk-bits (bit_at-set_miss v.bits (v.size / 64) _ j far)
    | inl near ↦
        rw (append_chunk-bits, bit_at-set_hit v.bits (v.size / 64) _ j inside near)
          (unfold bit_at in
            rw near (
              merge_before _ _ (v.size % 64) (chunk_size v count) (j % 64) (omega arith)
                (omega arith)))
  ]

  -- The next rows get the chunk.
  pub chunk_inside :
      (k : ℕ)
      → k < chunk_size v count
      → bit_at (append_chunk v source start count).bits (v.size + k)
        ≡ bit k (read_chunk source start (chunk_size v count))
  chunk_inside k h =
      let q : (v.size + k) / 64 ≡ v.size / 64 = omega arith in
      let r : (v.size + k) % 64 ≡ v.size % 64 + k = omega arith in
      let small = read_chunk-lt source start (chunk_size v count) (omega arith) in
      rw (append_chunk-bits, bit_at-set_hit v.bits (v.size / 64) _ (v.size + k) inside q, r)
        (merge_inside _ _ (v.size % 64) (chunk_size v count) (omega arith) small k h)

  -- The bits past them stay, so clean spare bits stay clean.
  pub chunk_after :
      (j : ℕ)
      → v.size + chunk_size v count ≤ j
      → bit_at (append_chunk v source start count).bits j ≡ bit_at v.bits j
  chunk_after j h = elim (eq_cases (j / 64) (v.size / 64)) [
    | inr far ↦ rw append_chunk-bits (bit_at-set_miss v.bits (v.size / 64) _ j far)
    | inl near ↦
        let k = j % 64 - v.size % 64 in
        let r : v.size % 64 + k ≡ j % 64 = omega arith in
        let small = read_chunk-lt source start (chunk_size v count) (omega arith) in
        rw (append_chunk-bits, bit_at-set_hit v.bits (v.size / 64) _ j inside near)
          (unfold bit_at in
            rw (near, ← r)
              (merge_after _ _ (v.size % 64) (chunk_size v count) (omega arith) small k
                (omega arith) (omega arith)))
  ]
