-- ===== src/Vector/Column/Arena.antt =====
-- A range of entries put behind another array, characters and offsets included.
use vectorized_query_engine.Base.{
  ℕ, zero, suc, ◌+◌, ◌-◌, ◌≤◌, ◌<◌, ◌≡◌, refl, sym, ap, ◌∙◌, List, ◌++◌, length, get_or, take, drop,
  arith, length-append, inl, inr, lt_cases, get_or-append_left, get_or-append_right, length-drop,
  length-take, get_or-take, get_or-drop, tabulate, length-tabulate, get_or-tabulate, take-drop-take,
  drop-append_add, drop-drop,
}
use vectorized_query_engine.Vector.Value.{text}
use vectorized_query_engine.Vector.Column.{
  StringBuffer, Payload, strings, slice, text_at, cell, arena_max, range,
}
use vectorized_query_engine.Vector.Column.Cells.{IsArena, HoldsRows}
use vectorized_query_engine.Vector.Column.Push.{slice-append, offset-le-last}

-- A range of a vector, put behind another one.
module _ {ℓ} {A : Type ℓ} (xs ys : List A) (start count n : ℕ) (d : A) (e : length xs ≡ n)
    (h : start + count ≤ length ys) where
  pub length-append_range : length (xs ++ range ys start count) ≡ n + count
  length-append_range = rw (length-append, length-take, length-drop) (omega arith)

  pub get_or-range_old : (i : ℕ) → i < n → get_or (xs ++ range ys start count) i d ≡ get_or xs i d
  get_or-range_old i p = get_or-append_left xs (range ys start count) i d (omega arith)

  pub get_or-range_new :
      (k : ℕ) → k < count → get_or (xs ++ range ys start count) (n + k) d ≡ get_or ys (start + k) d
  get_or-range_new k p =
      get_or-append_right xs (range ys start count) (n + k) k d (omega arith)
      ∙ get_or-take count k (drop start ys) d p
      ∙ get_or-drop start k ys d

-- What the arrays do when a range of rows is added.
pub record AddsCells (p : Payload) (n : ℕ) (source : Payload) (start count : ℕ) (q : Payload)
    : Type 0 where
  pub rows : HoldsRows q (n + count)
  pub old : (i : ℕ) → i < n → cell q i ≡ cell p i
  pub fresh : (k : ℕ) → k < count → cell q (n + k) ≡ cell source (start + k)

-- The characters that a range of rows needs in the arena.
abbrev pub RangeFits : Payload → Payload → ℕ → ℕ → Type 0
RangeFits (strings s) (strings t) start count =
    length s.bytes + (get_or t.offsets (start + count) 0 - get_or t.offsets start 0) ≤ arena_max
RangeFits _ _ start count = Unit

offset_mono :
    (t : StringBuffer) (n : ℕ)
    → IsArena t n
    → (k i : ℕ) → i + k ≤ n
    → get_or t.offsets i 0 ≤ get_or t.offsets (i + k) 0
offset_mono t n a zero i h = let e : i + 0 ≡ i = omega arith in rw e (omega arith)
offset_mono t n a (suc k) i h =
    let e : i + suc k ≡ suc (i + k) = omega arith in
    rw e (omega (arith, offset_mono t n a k i (omega arith), a.rising (i + k) (omega arith)))

-- A text inside a window of an arena, found again where the window is put behind another arena.
window :
    (xs ys : List ℕ) (first last from to : ℕ)
    → first ≤ from
    → from ≤ to
    → to ≤ last
    → slice (xs ++ slice ys first last) (length xs + (from - first)) (length xs + (to - first))
      ≡ slice ys from to
window xs ys first last from to h k l =
    let width : length xs + (to - first) - (length xs + (from - first)) ≡ to - from = omega arith in
    let start : first + (from - first) ≡ from = omega arith in
    rw (width, drop-append_add (from - first) (length xs) xs (slice ys first last) refl)
      (take-drop-take (to - from) (from - first) (last - first) (drop first ys) (omega arith)
        ∙ ap (take (to - from)) (drop-drop (from - first) first ys ∙ ap (λ i. drop i ys) start))

module _ (s t : StringBuffer) (n m start count : ℕ) (a : IsArena s n) (b : IsArena t m)
    (h : start + count ≤ m) where
  abbrev pub base : ℕ
  base = length s.bytes

  abbrev pub off : ℕ → ℕ
  off i = get_or t.offsets i 0

  abbrev pub moved : List ℕ
  moved = tabulate count (λ i. base + off (start + suc i) - off start)

  abbrev pub joined : StringBuffer
  joined = record {
    bytes = s.bytes ++ slice t.bytes (off start) (off (start + count));
    offsets = s.offsets ++ moved;
  }

  -- Offsets inside the range lie between its ends.
  between :
      (k : ℕ) → k ≤ count → (off start ≤ off (start + k)) × (off (start + k) ≤ off (start + count))
  between k p =
      let e : start + k + (count - k) ≡ start + count = omega arith in
      (
        offset_mono t m b k start (omega arith),
        rw e at (offset_mono t m b (count - k) (start + k) (omega arith)),
      )

  old_offset : (i : ℕ) → i ≤ n → get_or joined.offsets i 0 ≡ get_or s.offsets i 0
  old_offset i p = get_or-append_left s.offsets moved i 0 (omega (arith, a.counted))

  new_offset :
      (k : ℕ) → k ≤ count → get_or joined.offsets (n + k) 0 ≡ base + (off (start + k) - off start)
  new_offset zero p =
      let e : n + 0 ≡ n = omega arith in
      let e' : start + 0 ≡ start = omega arith in
      rw (e, e', old_offset n (omega arith)) (omega (arith, a.last))
  new_offset (suc k) p =
      let rises = (between (suc k) p).0 in
      get_or-append_right s.offsets moved (n + suc k) k 0 (omega (arith, a.counted))
      ∙ get_or-tabulate count (λ i. base + off (start + suc i) - off start) k 0 p
      ∙ omega arith

  length-joined : length joined.bytes ≡ base + (off (start + count) - off start)
  length-joined =
      let inside = offset-le-last t m b (m - (start + count)) (start + count) (omega arith) in
      let rises = (between count (omega arith)).0 in
      rw (length-append, length-take, length-drop) (omega arith)

  new_text : (k : ℕ) → k < count → text_at joined (n + k) ≡ text_at t (start + k)
  new_text k p =
      let e : suc (n + k) ≡ n + suc k = omega arith in
      let e' : suc (start + k) ≡ start + suc k = omega arith in
      let rises = b.rising (start + k) (omega arith) in
      rw (new_offset k (omega arith), e, new_offset (suc k) p, e')
        (window s.bytes t.bytes (off start) (off (start + count)) (off (start + k))
          (off (start + suc k)) (between k (omega arith)).0 (rw e' at rises) (between (suc k) p).1)

  new_rising :
      (k : ℕ) → k < count → get_or joined.offsets (n + k) 0 ≤ get_or joined.offsets (suc (n + k)) 0
  new_rising k p =
      let e : suc (n + k) ≡ n + suc k = omega arith in
      let e' : suc (start + k) ≡ start + suc k = omega arith in
      let rises = b.rising (start + k) (omega arith) in
      let low = (between k (omega arith)).0 in
      rw (new_offset k (omega arith), e, new_offset (suc k) p) (omega (arith, (rw e' at rises)))

  pub joined-AddsCells :
      base + (off (start + count) - off start) ≤ arena_max
      → AddsCells (strings s) n (strings t) start count (strings joined)
  joined-AddsCells small = record {
    rows = record {
      counted = rw (length-append, length-tabulate) (omega (arith, a.counted));
      first = old_offset 0 (omega arith) ∙ a.first;
      rising = λ i p. elim (lt_cases i n) [
        | inl before ↦
            rw (old_offset i (omega arith), old_offset (suc i) (omega arith)) (a.rising i before)
        | inr behind ↦
            let e : n + (i - n) ≡ i = omega arith in rw e at (new_rising (i - n) (omega arith))
      ];
      last = new_offset count (omega arith) ∙ sym length-joined;
      small = omega (arith, length-joined);
    };
    old = λ i p. ap text (
        rw (old_offset i (omega arith), old_offset (suc i) (omega arith))
          (slice-append s.bytes (slice t.bytes (off start) (off (start + count)))
            (get_or s.offsets i 0) (get_or s.offsets (suc i) 0) (a.rising i p)
            (offset-le-last s n a (n - suc i) (suc i) (omega arith))));
    fresh = λ k p. ap text (new_text k p);
  }
