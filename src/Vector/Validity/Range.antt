-- ===== src/Vector/Validity/Range.antt =====
-- `Validity::append_range` (src/vector.cpp) on the sequences of flags of the two masks.
use vectorized_query_engine.Vector.Validity.Copy.{append_loop-Copied}
use vectorized_query_engine.Base.{
  ◌⊎◌, take-drop-tabulate, ℕ, ◌+◌, ◌/◌, ◌%◌, ◌^◌, ◌<◌, ◌≤◌, ◌≡◌, sym, ◌∙◌, ◌++◌, Bool, true, false,
  arith, length, take, drop, tabulate_ext, length-resize, resize,
}
use vectorized_query_engine.Base.Results.{ok, err, invalid_argument}
use mathlib.Core.Path.{ap₂}
use vectorized_query_engine.Vector.Validity.{Validity, valid, append_loop, append_range, word_count}
use vectorized_query_engine.Vector.Validity.Words.{
  get_or-resize_grow, resized, bit_at, valid-bit_at,
}
use vectorized_query_engine.Vector.Validity.Flags.{view, IsValid, IsClean}

-- For a mask under the invariant with clean spare bits, another mask under the invariant as source,
-- a range inside the source and a total of rows that is below 2^64 with 63 added, append_range
-- returns a mask that has the old flags and then the flags of the range, keeps the invariant (so
-- the NULL counter is exact) and has clean spare bits.
pub append_range-Appends :
    {v source : Validity} (start count : ℕ)
    → IsValid v
    → IsClean v
    → IsValid source
    → start + count ≤ source.size
    → v.size + count + 63 < 2 ^ 64
    → (r : Validity) × (append_range false v source start count ≡ ok r)
      × IsValid r
      × IsClean r
      × (view r ≡ view v ++ take count (drop start (view source)))
unfolding append_range
append_range-Appends {v} {source} start count iv clean src range fits =
    let words = (v.size + count + 63) / 64 in
    let whole : word_count ((v.size + count) % 2 ^ 64) ≡ words = omega (arith, fits) in
    let wide : Validity = record v { bits = resize words 0 v.bits } in
    let enough : length v.bits ≤ words = omega (arith, iv.words) in
    let same : (j : ℕ) → bit_at wide.bits j ≡ bit_at v.bits j = resized words v.bits enough in
    let flags : view wide ≡ view v =
      (unfold view in
        tabulate_ext v.size (valid wide) (valid v)
          (λ i p. rw (valid-bit_at wide, valid-bit_at v, same i))) in
    let c =
      append_loop-Copied src count wide start count (rw flags iv.counted)
        (λ i. rw (get_or-resize_grow words v.bits i enough) (iv.ranged i))
        (rw length-resize (omega arith)) range (omega arith) in
    (
      append_loop count wide source start count,
      rw whole (ground (arith, range)),
      record {
        ranged = c.ranged;
        words = c.words ∙ (rw (length-resize, c.size));
        counted = c.counted;
        fits = omega (arith, c.size, fits);
      },
      λ row h. c.spare row (rw c.size at h) ∙ same row ∙ clean row (omega (arith, c.size)),
      c.flags
          ∙ ap₂ ◌++◌ flags (
              sym (unfold view in take-drop-tabulate start count source.size (valid source) range)),
    )

-- append_range throws invalid_argument if the source is the mask itself or the range leaves the
-- source.
pub append_range-refuses :
    (aliased : Bool) (v source : Validity) (start count : ℕ)
    → (aliased ≡ true) ⊎ (source.size < start + count)
    → append_range aliased v source start count ≡ err invalid_argument
unfolding append_range
append_range-refuses aliased v source start count bad = ground arith
