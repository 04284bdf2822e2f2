-- ===== src/Vector/Column/Push.antt =====
-- One entry more in each of the four arrays of a column.
use vectorized_query_engine.Base.{
  ℕ, zero, suc, ◌+◌, ◌-◌, ◌≤◌, ◌<◌, ◌≡◌, refl, ap, ◌∙◌, not, List, [], ◌∷◌, ◌++◌, length, get_or,
  drop, arith, length-append, inl, inr, eq_cases, ◌==◌, get_or-append_left, get_or-append_right,
  take-append_left, drop-append_left, drop-append_right, take_all, length-drop,
}
use vectorized_query_engine.Base.Int.{ℤ, pos}
use vectorized_query_engine.Vector.Value.{bool, int, real, text}
use vectorized_query_engine.Vector.Column.{
  StringBuffer, bytes8, int64s, doubles, strings, slice, arena_max,
}
use vectorized_query_engine.Vector.Column.Cells.{IsArena, AddsCell}

module _ {ℓ} {A : Type ℓ} where
  -- One entry more at the end of a vector.
  get_or-push_old :
      (xs : List A) (x d : A) (n i : ℕ)
      → length xs ≡ n
      → i < n
      → get_or (xs ++ x ∷ []) i d ≡ get_or xs i d
  get_or-push_old xs x d n i e h = get_or-append_left xs (x ∷ []) i d (omega arith)

  get_or-push_new : (xs : List A) (x d : A) (n : ℕ) → length xs ≡ n → get_or (xs ++ x ∷ []) n d ≡ x
  get_or-push_new xs x d n e = get_or-append_right xs (x ∷ []) n 0 d (omega arith)

  length-push : (xs : List A) (x : A) (n : ℕ) → length xs ≡ n → length (xs ++ x ∷ []) ≡ suc n
  length-push xs x n e = rw length-append (omega arith)

pub byte-AddsCell :
    (d : List ℕ) (v n : ℕ)
    → length d ≡ n
    → AddsCell (bytes8 d) n (bool (not (v == 0))) (bytes8 (d ++ v ∷ []))
byte-AddsCell d v n e = record {
  rows = length-push d v n e;
  old = λ i h. rw (get_or-push_old d v 0 n i e h);
  fresh = rw (get_or-push_new d v 0 n e);
}

pub int64-AddsCell :
    (d : List ℤ) (v : ℤ) (n : ℕ)
    → length d ≡ n
    → AddsCell (int64s d) n (int v) (int64s (d ++ v ∷ []))
int64-AddsCell d v n e = record {
  rows = length-push d v n e;
  old = λ i h. rw (get_or-push_old d v (pos 0) n i e h);
  fresh = rw (get_or-push_new d v (pos 0) n e);
}

pub double-AddsCell :
    (d : List ℕ) (v n : ℕ) → length d ≡ n → AddsCell (doubles d) n (real v) (doubles (d ++ v ∷ []))
double-AddsCell d v n e = record {
  rows = length-push d v n e;
  old = λ i h. rw (get_or-push_old d v 0 n i e h);
  fresh = rw (get_or-push_new d v 0 n e);
}

-- A slice of the arena does not see what is written behind it.
pub slice-append :
    (xs ys : List ℕ) (a b : ℕ) → a ≤ b → b ≤ length xs → slice (xs ++ ys) a b ≡ slice xs a b
slice-append xs ys a b h k =
    rw (drop-append_left a xs ys (omega arith))
      (take-append_left (b - a) (drop a xs) ys (rw length-drop (omega arith)))

slice_last : (xs ys : List ℕ) → slice (xs ++ ys) (length xs) (length (xs ++ ys)) ≡ ys
slice_last xs ys =
    rw (drop-append_right (length xs) xs ys refl, length-append)
      (take_all (length xs + length ys - length xs) ys (omega arith))

pub offset-le-last :
    (s : StringBuffer) (n : ℕ)
    → IsArena s n
    → (k i : ℕ) → i + k ≡ n
    → get_or s.offsets i 0 ≤ length s.bytes
offset-le-last s n a zero i e = let e' : i ≡ n = omega arith in rw e' (omega (arith, a.last))
offset-le-last s n a (suc k) i e =
    omega (arith, a.rising i (omega arith), offset-le-last s n a k (suc i) (omega arith))

unfoldable pub push_string : StringBuffer → List ℕ → StringBuffer
push_string s v =
    let joined = s.bytes ++ v in
    record { bytes = joined; offsets = s.offsets ++ length joined ∷ [] }

pub string-AddsCell :
    (s : StringBuffer) (v : List ℕ) (n : ℕ)
    → IsArena s n
    → length s.bytes + length v ≤ arena_max
    → AddsCell (strings s) n (text v) (strings (push_string s v))
unfolding push_string
string-AddsCell s v n a room =
    let joined = s.bytes ++ v in
    let end = length joined in
    let grown : end ≡ length s.bytes + length v = length-append s.bytes v in
    let old_offset : (i : ℕ)
        → i < suc n
        → get_or (s.offsets ++ end ∷ []) i 0 ≡ get_or s.offsets i 0 =
      (λ i h. get_or-push_old s.offsets end 0 (suc n) i a.counted h) in
    let new_offset : get_or (s.offsets ++ end ∷ []) (suc n) 0 ≡ end =
      get_or-push_new s.offsets end 0 (suc n) a.counted in
    record {
      rows = record {
        counted = length-push s.offsets end (suc n) a.counted;
        first = old_offset 0 (omega arith) ∙ a.first;
        rising = λ i h. elim (eq_cases i n) [
          | inl e ↦ rw (e, old_offset n (omega arith), new_offset) (omega (arith, a.last))
          | inr ne ↦
              rw (old_offset i (omega arith), old_offset (suc i) (omega arith))
                (a.rising i (omega arith))
        ];
        last = new_offset;
        small = omega arith;
      };
      old = λ i h.
          rw (old_offset i (omega arith), old_offset (suc i) (omega arith))
            (ap text (
              slice-append s.bytes v (get_or s.offsets i 0) (get_or s.offsets (suc i) 0)
                (a.rising i h) (offset-le-last s n a (n - suc i) (suc i) (omega arith))));
      fresh = rw (old_offset n (omega arith), new_offset, a.last) (ap text (slice_last s.bytes v));
    }
