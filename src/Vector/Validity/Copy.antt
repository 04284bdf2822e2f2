-- ===== src/Vector/Validity/Copy.antt =====
-- The loop of `Validity::append_range` (src/vector.cpp), round by round.
use vectorized_query_engine.Base.{
  ℕ, zero, suc, ◌+◌, ◌-◌, ◌*◌, ◌/◌, ◌%◌, ◌^◌, ◌<◌, ◌≤◌, ◌≡◌, refl, sym, ap, ◌∙◌, ◌++◌, true, false,
  not, arith, ◌==◌, length, get_or, length-set, inl, inr, eq_cases, Bool-cases, tabulate,
  tabulate_ext, tabulate-add,
}
use mathlib.Core.Path.{ap₂}
use native.Mathlib.Nat.{add_assoc}
use mathlib.Core.List.{append-nil, append_assoc}
use vectorized_query_engine.Base.Bits.{
  bit, bit-le-one, bit_or-lt, bit_and-lt, popcount, popcount-low,
}
use vectorized_query_engine.Vector.Validity.{
  Validity, valid, all_valid, read_chunk, append_chunk, append_loop,
}
use vectorized_query_engine.Vector.Validity.Words.{bit_at, valid-bit_at, shl64-lt}
use vectorized_query_engine.Vector.Validity.Flags.{
  view, nulls, nulls-append, nulls_pos, IsValid, get_or-view, ranged-set,
}
use vectorized_query_engine.Vector.Validity.Append.{tabulate-const, nulls-replicate}
use vectorized_query_engine.Vector.Validity.Chunk.{bit-read_chunk, read_chunk-lt}
use vectorized_query_engine.Vector.Validity.Merge.{
  chunk_size, chunk_before, chunk_inside, chunk_after,
}

-- The ones of a word count the flags that are true.
popcount-nulls : (t x : ℕ) → nulls (tabulate t (λ k. not (bit k x == 0))) + popcount t x ≡ t
unfolding nulls popcount bit
popcount-nulls zero x = refl
popcount-nulls (suc t) x = ground (arith, popcount-nulls t (x / 2))

-- `r` is `v` with `count` flags of the source, from `start` on, added at the end.
pub record Copied (v source : Validity) (start count : ℕ) (r : Validity) : Type 0 where
  pub size : r.size ≡ v.size + count
  pub words : length r.bits ≡ length v.bits
  pub ranged : (i : ℕ) → get_or r.bits i 0 < 2 ^ 64
  pub counted : r.null_count ≡ nulls (view r)
  pub flags : view r ≡ view v ++ tabulate count (λ k. valid source (start + k))
  pub spare : (j : ℕ) → v.size + count ≤ j → bit_at r.bits j ≡ bit_at v.bits j

module _ {source : Validity} (iv : IsValid source) where
  source_full : all_valid source ≡ true → (i : ℕ) → i < source.size → valid source i ≡ true
  source_full full i h = elim (Bool-cases (valid source i)) [
    | inl t ↦ t
    | inr f ↦ absurd (
        unfold all_valid in
        ground (arith, iv.counted, nulls_pos (view source) i (get_or-view source i true h ∙ f)))
  ]

  bit_of_valid : (i : ℕ) → valid source i ≡ true → bit_at source.bits i ≡ 1
  bit_of_valid i t =
      let small : bit_at source.bits i ≤ 1 = unfold bit_at in bit-le-one (i % 64) _ in
      ground (arith, (rw valid-bit_at at t))

  module _ (v : Validity) (start count : ℕ) (counted : v.null_count ≡ nulls (view v))
      (ranged : (i : ℕ) → get_or v.bits i 0 < 2 ^ 64) (inside : v.size / 64 < length v.bits)
      (range : start + count ≤ source.size) where
    abbrev chunk : ℕ
    chunk = read_chunk source start (chunk_size v count)

    bit-chunk : (k : ℕ) → k < chunk_size v count → bit k chunk ≡ bit_at source.bits (start + k)
    bit-chunk k h =
        bit-read_chunk source iv.ranged start (chunk_size v count) k h (omega arith)
          (λ full. bit_of_valid (start + k) (source_full full (start + k) (omega arith)))

    chunk_flag :
        (k : ℕ)
        → k < chunk_size v count
        → valid (append_chunk v source start count) (v.size + k) ≡ valid source (start + k)
    chunk_flag k h = rw (
      valid-bit_at (append_chunk v source start count),
      valid-bit_at source,
      chunk_inside v source start count inside k h,
      bit-chunk k h,
    )

    old_flag : (j : ℕ) → j < v.size → valid (append_chunk v source start count) j ≡ valid v j
    old_flag j h = rw (
      valid-bit_at (append_chunk v source start count),
      valid-bit_at v,
      chunk_before v source start count inside j h,
    )

    chunk_view :
        view (append_chunk v source start count)
        ≡ view v ++ tabulate (chunk_size v count) (λ k. valid source (start + k))
    unfolding view append_chunk
    chunk_view =
        let r = append_chunk v source start count in
        tabulate-add v.size (chunk_size v count) (valid r)
        ∙ ap₂ ◌++◌ (tabulate_ext v.size (valid r) (valid v) old_flag) (
            tabulate_ext (chunk_size v count) (λ k. valid r (v.size + k))
              (λ k. valid source (start + k)) chunk_flag)

    -- The rows of a source with no NULL, and those counted in the chunk.
    full_nulls :
        all_valid source ≡ true
        → nulls (tabulate (chunk_size v count) (λ k. valid source (start + k))) ≡ 0
    full_nulls full =
        rw
          (tabulate-const (chunk_size v count) (λ k. valid source (start + k)) true
            (λ k h. source_full full (start + k) (omega arith)))
          (nulls-replicate (chunk_size v count) true)

    part_nulls :
        nulls (tabulate (chunk_size v count) (λ k. valid source (start + k))) + popcount 64 chunk
        ≡ chunk_size v count
    part_nulls =
        let same =
          tabulate_ext (chunk_size v count) (λ k. valid source (start + k))
            (λ k. not (bit k chunk == 0)) (λ k h. rw (valid-bit_at source, bit-chunk k h)) in
        rw
          (
            same,
            popcount-low (chunk_size v count) 64 chunk
                (read_chunk-lt source start (chunk_size v count) (omega arith)) (omega arith),
          )
          (popcount-nulls (chunk_size v count) chunk)

    chunk_nulls :
        (append_chunk v source start count).null_count
        ≡ v.null_count + nulls (tabulate (chunk_size v count) (λ k. valid source (start + k)))
    unfolding append_chunk
    chunk_nulls = elim (Bool-cases (all_valid source)) [
      | inl full ↦ rw full (omega (arith, full_nulls full))
      | inr part ↦ rw part (omega (arith, part_nulls))
    ]

    append_chunk-Copied :
        Copied v source start (chunk_size v count) (append_chunk v source start count)
    append_chunk-Copied = record {
      size = unfold append_chunk in refl;
      words = unfold append_chunk in length-set v.bits (v.size / 64) _;
      ranged =
          unfold append_chunk in
          ranged-set v.bits (v.size / 64) _ ranged
            (bit_or-lt 64 _ _ (bit_and-lt 64 _ _ (ranged (v.size / 64))) (shl64-lt chunk _));
      counted = rw (chunk_view, nulls-append) (omega (arith, chunk_nulls));
      flags = chunk_view;
      spare = chunk_after v source start count inside;
    }

Copied-trans :
    {v source r s : Validity} {start m n : ℕ}
    → Copied v source start m r
    → Copied r source (start + m) n s
    → Copied v source start (m + n) s
Copied-trans {v} {source} {r} {s} {start} {m} {n} a b = record {
  size = omega (arith, a.size, b.size);
  words = b.words ∙ a.words;
  ranged = b.ranged;
  counted = b.counted;
  flags =
      b.flags
      ∙ ap (λ l. l ++ tabulate n (λ k. valid source (start + m + k))) a.flags
      ∙ append_assoc (view v) (tabulate m (λ k. valid source (start + k)))
          (tabulate n (λ k. valid source (start + m + k)))
      ∙ ap (λ l. view v ++ l)
          (ap (λ l. tabulate m (λ k. valid source (start + k)) ++ l)
              (tabulate_ext n _ _ (λ i p. ap (valid source) (add_assoc start m i)))
            ∙ sym (tabulate-add m n (λ k. valid source (start + k))));
  spare = λ j h. b.spare j (rw a.size (omega arith)) ∙ a.spare j (omega arith);
}

Copied-none :
    {v source : Validity} {start : ℕ}
    → v.null_count ≡ nulls (view v)
    → ((i : ℕ) → get_or v.bits i 0 < 2 ^ 64)
    → Copied v source start 0 v
Copied-none {v} counted ranged = record {
  size = omega arith;
  words = refl;
  ranged = ranged;
  counted = counted;
  flags = sym (append-nil (view v));
  spare = λ j h. refl;
}

-- With as much fuel as rows the loop copies them all.
pub append_loop-Copied :
    {source : Validity}
    → IsValid source
    → (fuel : ℕ) (v : Validity) (start count : ℕ) → v.null_count ≡ nulls (view v)
    → ((i : ℕ) → get_or v.bits i 0 < 2 ^ 64)
    → v.size + count ≤ 64 * length v.bits
    → start + count ≤ source.size
    → count ≤ fuel
    → Copied v source start count (append_loop fuel v source start count)
unfolding append_loop
append_loop-Copied {source} iv zero v start count counted ranged room range enough =
    let e : 0 ≡ count = omega arith in rw (← e) (Copied-none counted ranged)
append_loop-Copied {source} iv (suc fuel) v start count counted ranged room range enough =
    elim (eq_cases count 0) [
      | inl e ↦ rw e (Copied-none counted ranged)
      | inr ne ↦
          let t = chunk_size v count in
          let one = append_chunk-Copied iv v start count counted ranged (omega arith) range in
          let rest =
            append_loop-Copied iv fuel (append_chunk v source start count) (start + t) (count - t)
              one.counted one.ranged (omega (arith, one.size, one.words)) (omega arith)
              (omega arith) in
          let whole : t + (count - t) ≡ count = omega arith in
          let more : (count == 0) ≡ false = ground arith in
          rw more (rw whole at (Copied-trans one rest))
    ]
