-- ===== src/Operators/Limit.antt =====
-- `Selection::truncate` and `Limit::next` (src/vector.cpp, src/blocking.cpp) on the rows of a batch.
use vectorized_query_engine.Base.{
  ℕ, ◌≤◌, ◌<◌, ◌≡◌, refl, sym, ◌∙◌, false, ltb, take, tabulate_ext, if◌then◌else◌, arith,
  Bool-cases, inl, inr, take-tabulate, get_or-resize, resize,
}
use vectorized_query_engine.Base.Results.{ok}
use vectorized_query_engine.Vector.Selection.{Selection, at, truncate}
use vectorized_query_engine.Vector.Batch
use vectorized_query_engine.Vector.Batch.{Batch}
use vectorized_query_engine.Operators.Rows.{rows_of}

-- A shorter selection has the first n rows.
pub truncate-take :
    (s : Selection) (n : ℕ)
    → n ≤ s.size
    → (r : Selection) × (truncate s n ≡ ok r) × (r.size ≡ n) × (rows_of r ≡ take n (rows_of s))
unfolding truncate rows_of at
truncate-take s n h =
    let passes : ltb s.size n ≡ false = ground arith in
    let r : Selection = record s {
      size = n;
      indices = if s.dense then s.indices else resize n 0 s.indices;
    } in
    let same : (i : ℕ) → i < n → at r i ≡ at s i = (λ i p. elim (Bool-cases s.dense) [
      | inl all ↦ rw all
      | inr listed ↦ rw listed (get_or-resize n 0 s.indices i p)
    ]) in
    (r, rw passes, refl, tabulate_ext n (at r) (at s) same ∙ sym (take-tabulate n s.size (at s) h))
