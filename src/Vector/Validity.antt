-- ===== src/Vector/Validity.antt =====
-- The bit-packed NULL mask: class Validity of include/vqe/vector.hpp, with src/vector.cpp.
-- A word is a number below 2^64. `assert` is off in Release builds; a row out of range, which is
-- undefined behaviour there, reads as 0 here.
pub mod Words
pub mod Flags
pub mod Append
pub mod Chunk
pub mod Merge
pub mod Copy
pub mod Range
use vectorized_query_engine.Base.{
  ℕ, zero, suc, ◌+◌, ◌-◌, ◌*◌, ◌/◌, ◌%◌, ◌^◌, min, Bool, true, false, not, ◌&&◌, ◌||◌, List, [],
  ◌∷◌, ◌++◌, ltb, ◌==◌, if◌then◌else◌, length, get_or, set, replicate, resize,
}
use vectorized_query_engine.Base.Bits.{shr, popcount}
use vectorized_query_engine.Base.Results.{Result, ok, err, invalid_argument, throw_if, ◌>>=◌, ◌>>◌}
use Prim.Native.Nat.{bit_and, bit_or}

-- `~std::uint64_t{0}`
abbrev pub word_max : ℕ
word_max = 2 ^ 64 - 1

-- `x << k` and `~x` on 64 bits
abbrev pub shl64 : ℕ → ℕ → ℕ
shl64 x k = x * 2 ^ k % 2 ^ 64

abbrev pub not64 : ℕ → ℕ
not64 x = word_max - x

pub record Validity : Type 0 where
  pub bits : List ℕ
  pub size : ℕ
  pub null_count : ℕ

unfoldable pub valid : Validity → ℕ → Bool
valid v row = not (bit_and (shr (get_or v.bits (row / 64) 0) (row % 64)) 1 == 0)

unfoldable pub all_valid : Validity → Bool
all_valid v = v.null_count == 0

abbrev pub empty : Validity
empty = record { bits = []; size = 0; null_count = 0 }

-- `(n + 63) / 64` on 64 bits
abbrev pub word_count : ℕ → ℕ
word_count n = (n + 63) % 2 ^ 64 / 64

-- The vector is resized and then filled whole, whatever it held.
unfoldable pub reset : Validity → ℕ → Bool → Validity
reset v n b = record {
  bits = replicate (word_count n) (if b then word_max else 0);
  size = n;
  null_count = if b then 0 else n;
}

-- `--null_count_` on an unsigned counter
abbrev pub decrement : ℕ → ℕ
decrement n = (n + word_max) % 2 ^ 64

unfoldable pub set_valid : Validity → ℕ → Bool → Validity
unfolding valid
set_valid v row b =
    let old = valid v row in
    let count =
      (if old
        then (if b then v.null_count else v.null_count + 1)
        else (if b then decrement v.null_count else v.null_count)) in
    let mask = shl64 1 (row % 64) in
    let word = get_or v.bits (row / 64) 0 in
    record v {
      bits = set v.bits (row / 64) (if b then bit_or word mask else bit_and word (not64 mask));
      null_count = count;
    }

unfoldable pub append : Validity → Bool → Validity
unfolding set_valid
append v b =
    let grown = (if v.size % 64 == 0 then v.bits ++ 0 ∷ [] else v.bits) in
    set_valid (record { bits = grown; size = v.size + 1; null_count = v.null_count + 1 }) v.size b

-- The bits of rows start, …, start + take - 1 of the source, in the low bits of a word.
unfoldable pub read_chunk : Validity → ℕ → ℕ → ℕ
read_chunk source start take =
    let mask = (if take == 64 then word_max else shl64 1 take - 1) in
    let source_shift = start % 64 in
    let low = shr (get_or source.bits (start / 64) 0) source_shift in
    let high = shl64 (get_or source.bits (start / 64 + 1) 0) (64 - source_shift) in
    let value =
      (if not (source_shift == 0) && ltb (64 - source_shift) take then bit_or low high else low) in
    if all_valid source then mask else bit_and value mask

-- One round of the loop: at most a word, up to the destination's next word boundary.
unfoldable pub append_chunk : Validity → Validity → ℕ → ℕ → Validity
append_chunk v source start count =
    let shift = v.size % 64 in
    let take = min count (64 - shift) in
    let mask = (if take == 64 then word_max else shl64 1 take - 1) in
    let value = read_chunk source start take in
    let word = get_or v.bits (v.size / 64) 0 in
    record {
      bits =
          set v.bits (v.size / 64)
            (bit_or (bit_and word (not64 (shl64 mask shift))) (shl64 value shift));
      size = v.size + take;
      null_count =
          (if all_valid source then v.null_count else v.null_count + (take - popcount 64 value));
    }

-- `while (count)`: each round copies at least one row, so `count` rounds are enough.
unfoldable pub append_loop : ℕ → Validity → Validity → ℕ → ℕ → Validity
append_loop zero v source start count = v
append_loop (suc fuel) v source start count =
    let take = min count (64 - v.size % 64) in
    let rest =
      append_loop fuel (append_chunk v source start count) source (start + take) (count - take) in
    if count == 0 then v else rest

-- `aliased` is the comparison `&source == this`.
unfoldable pub append_range : Bool → Validity → Validity → ℕ → ℕ → Result Validity
append_range aliased v source start count = do
  throw_if (aliased || ltb source.size start || ltb (source.size - start) count) invalid_argument
  let end = (v.size + count) % 2 ^ 64
  ok (append_loop count (record v { bits = resize (word_count end) 0 v.bits }) source start count)
