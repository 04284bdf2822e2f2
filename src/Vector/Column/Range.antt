-- ===== src/Vector/Column/Range.antt =====
-- `append_range` of class Column (src/vector.cpp): a range of rows is copied array by array.
use vectorized_query_engine.Base.{
  ℕ, ◌+◌, ◌-◌, ◌^◌, ◌≤◌, ◌<◌, ◌≡◌, refl, sym, ap, ◌∙◌, true, false, not, ◌||◌, ◌++◌, length, get_or,
  take, drop, arith, length-append, ltb, get_or-append_left, get_or-append_right, length-drop,
  length-take, get_or-take, get_or-drop, tabulate, tabulate_ext, tabulate-add, take-drop-tabulate,
}
use mathlib.Core.Path.{ap₂}
use vectorized_query_engine.Base.Results.{ok}
use vectorized_query_engine.Base.Int.{pos}
use vectorized_query_engine.Vector.Value.{DataType, boolean, int64, double, string, type_eq}
use vectorized_query_engine.Vector.Validity
use vectorized_query_engine.Vector.Validity.{Validity}
use vectorized_query_engine.Vector.Validity.Flags.{view, get_or-view, length-view}
use vectorized_query_engine.Vector.Validity.Range
use vectorized_query_engine.Vector.Column.{
  Payload, bytes8, int64s, doubles, strings, Column, size, value, arena_max, range, payload_range,
  append_range,
}
use vectorized_query_engine.Vector.Column.Cells.{HoldsRows, IsTyped, IsColumn, values}
use vectorized_query_engine.Vector.Column.Append.{type_eq_refl}
use vectorized_query_engine.Vector.Column.Arena.{
  AddsCells, RangeFits, length-append_range, get_or-range_old, get_or-range_new, joined,
  joined-AddsCells,
}

-- The flags after the mask has grown by a range of flags.
module _ (v source m : Validity) (start count : ℕ)
    (flags : view m ≡ view v ++ take count (drop start (view source))) where
  masked_size : start + count ≤ source.size → m.size ≡ v.size + count
  masked_size inside =
      let all = ap length flags in
      let parts = length-append (view v) (take count (drop start (view source))) in
      let taken = length-take count (drop start (view source)) in
      let dropped = length-drop start (view source) in
      omega (arith, all, parts, taken, dropped, length-view v, length-view m, length-view source)

  module _ (grows : m.size ≡ v.size + count) where
    masked_old : (i : ℕ) → i < v.size → Validity.valid m i ≡ Validity.valid v i
    masked_old i h =
        sym (get_or-view m i true (omega arith))
        ∙ ap (λ l. get_or l i true) flags
        ∙ get_or-append_left (view v) _ i true (rw length-view h)
        ∙ get_or-view v i true h

    masked_fresh :
        start + count ≤ source.size
        → (k : ℕ) → k < count
        → Validity.valid m (v.size + k) ≡ Validity.valid source (start + k)
    masked_fresh inside k h =
        sym (get_or-view m (v.size + k) true (omega arith))
        ∙ ap (λ l. get_or l (v.size + k) true) flags
        ∙ get_or-append_right (view v) _ (v.size + k) k true (omega (arith, length-view v))
        ∙ get_or-take count k (drop start (view source)) true h
        ∙ get_or-drop start k (view source) true
        ∙ get_or-view source (start + k) true (omega arith)

payload_range-AddsCells :
    (t : DataType) (p q : Payload) (n m start count : ℕ)
    → IsTyped t p
    → IsTyped t q
    → HoldsRows p n
    → HoldsRows q m
    → start + count ≤ m
    → RangeFits p q start count
    → (r : Payload) × (payload_range p q start count ≡ ok r)
      × IsTyped t r
      × AddsCells p n q start count r
unfolding payload_range
payload_range-AddsCells boolean (bytes8 d) (bytes8 e) n m start count hp hq rp rq h f =
    let within : start + count ≤ length e = omega arith in
    (
      bytes8 (d ++ range e start count),
      refl,
      tt,
      record {
        rows = length-append_range d e start count n 0 rp within;
        old = λ i p. rw (get_or-range_old d e start count n 0 rp within i p);
        fresh = λ k p. rw (get_or-range_new d e start count n 0 rp within k p);
      },
    )
payload_range-AddsCells int64 (int64s d) (int64s e) n m start count hp hq rp rq h f =
    let within : start + count ≤ length e = omega arith in
    (
      int64s (d ++ range e start count),
      refl,
      tt,
      record {
        rows = length-append_range d e start count n (pos 0) rp within;
        old = λ i p. rw (get_or-range_old d e start count n (pos 0) rp within i p);
        fresh = λ k p. rw (get_or-range_new d e start count n (pos 0) rp within k p);
      },
    )
payload_range-AddsCells double (doubles d) (doubles e) n m start count hp hq rp rq h f =
    let within : start + count ≤ length e = omega arith in
    (
      doubles (d ++ range e start count),
      refl,
      tt,
      record {
        rows = length-append_range d e start count n 0 rp within;
        old = λ i p. rw (get_or-range_old d e start count n 0 rp within i p);
        fresh = λ k p. rw (get_or-range_new d e start count n 0 rp within k p);
      },
    )
payload_range-AddsCells string (strings s) (strings t) n m start count hp hq rp rq h f =
    let width = get_or t.offsets (start + count) 0 - get_or t.offsets start 0 in
    let under : ltb (arena_max - length s.bytes) width ≡ false = ground arith in
    (
      strings (joined s t n m start count rp rq h),
      rw under,
      tt,
      joined-AddsCells s t n m start count rp rq h f,
    )
payload_range-AddsCells boolean (bytes8 d) q n m start count hp hq rp rq h f = absurd hq
payload_range-AddsCells int64 (int64s d) q n m start count hp hq rp rq h f = absurd hq
payload_range-AddsCells double (doubles d) q n m start count hp hq rp rq h f = absurd hq
payload_range-AddsCells string (strings s) q n m start count hp hq rp rq h f = absurd hq
payload_range-AddsCells _ p q n m start count hp hq rp rq h f = absurd hp

-- For two columns of one type under the invariant, not the same object, a range inside the source,
-- a total of rows that is below 2^64 with 63 added and texts that fit the arena, append_range
-- returns a column of the same type under the invariant that has the old values and then those of
-- the range.
pub append_range-Extends :
    {c source : Column} (start count : ℕ)
    → IsColumn c
    → IsColumn source
    → source.type ≡ c.type
    → start + count ≤ size source
    → size c + count + 63 < 2 ^ 64
    → RangeFits c.payload source.payload start count
    → (r : Column) × (append_range false c source start count ≡ ok r)
      × (r.type ≡ c.type)
      × IsColumn r
      × (values r ≡ values c ++ take count (drop start (values source)))
append_range-Extends {c} {source} start count good from same inside room fits =
    let (q, copied, typed, adds) =
      payload_range-AddsCells c.type c.payload source.payload (size c) (size source) start count
        good.typed (rw same at from.typed) good.rows from.rows inside fits in
    let (m, masked, mask, clean, flags) =
      Range.append_range-Appends start count good.mask good.clean from.mask inside room in
    let r : Column = record c { payload = q; validity = m } in
    let n = size c in
    let grows : m.size ≡ n + count =
      masked_size c.validity source.validity m start count flags inside in
    let old = masked_old c.validity source.validity m start count flags grows in
    let fresh = masked_fresh c.validity source.validity m start count flags grows inside in
    let passes : type_eq c.type source.type ≡ true =
      ap (λ t. type_eq c.type t) same ∙ type_eq_refl c.type in
    let guard : (false
          || not (type_eq c.type source.type)
          || ltb (size source) start
          || ltb (size source - start) count)
        ≡ false =
      rw passes (ground arith) in
    (
      r,
      unfold append_range in rw (guard, copied, masked),
      refl,
      record { mask = mask; clean = clean; typed = typed; rows = rw grows adds.rows },
      unfold values in
          (ap (λ k. tabulate k (value r)) grows
            ∙ tabulate-add n count (value r)
            ∙ ap₂ ◌++◌
                (tabulate_ext n (value r) (value c)
                  (λ i p. unfold value in rw (old i p, adds.old i p)))
                (tabulate_ext count (λ k. value r (n + k)) (λ k. value source (start + k))
                    (λ k p. unfold value in rw (fresh k p, adds.fresh k p))
                  ∙ sym (take-drop-tabulate start count (size source) (value source) inside))),
    )
