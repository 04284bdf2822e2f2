-- ===== src/Blocking/Sort/Comparator.antt =====
-- The comparator that Sort (src/blocking.cpp) hands to std::stable_sort, and the order of the values.
use vectorized_query_engine.Base.{
  ℕ, ◌≡◌, ◌≤◌, refl, ap, ◌∙◌, Bool, true, false, not, ◌&&◌, ◌||◌, List, [], ◌∷◌, ltb, get_or, ◌==◌,
  if◌then◌else◌, arith, inl, inr, Bool-cases,
}
use vectorized_query_engine.Base.Int.{ℤ, pos, negsuc}
use vectorized_query_engine.Base.Results.{ok}
use vectorized_query_engine.Vector.Validity
use vectorized_query_engine.Vector.Column.{Column, Payload, bytes8, int64s, doubles, strings}
use vectorized_query_engine.Vector.Column.Append.{type_eq_refl}
use vectorized_query_engine.Hash.{compare_cell, compare_payload, cmp, cmp_double}
use vectorized_query_engine.Expression.Scalar.{lt_bool}
use vectorized_query_engine.Expression.Evaluator.Compare.{IsNormal}
use vectorized_query_engine.Blocking.Sort.{Key, by_key, comes_before, compare_rows}
use vectorized_query_engine.Blocking.Sort.Lexical.{
  less_cell, less_cell-IsWeak, key_before, key_before-masked, key_before-IsWeak, row_before,
  AllNormal,
}
use vectorized_query_engine.Blocking.Sort.Weak.{IsWeak, nan_last, then_by, then_by-IsWeak}

abbrev sign : Bool → Bool → ℤ
sign before after = if before then negsuc 0 else if after then pos 1 else pos 0

-- On arrays whose booleans are 0 or 1, the three-way comparison of two cells.
compare_payload-sign :
    (p : Payload) (i j : ℕ)
    → IsNormal p
    → compare_payload p i p j ≡ ok (sign (less_cell p i j) (less_cell p j i))
compare_payload-sign (bytes8 d) i j h = ap ok (bytes (get_or d i 0) (get_or d j 0) (h i) (h j))
  where
    bytes :
        (x y : ℕ)
        → x ≤ 1
        → y ≤ 1
        → cmp ltb x y
          ≡ sign (lt_bool (not (x == 0)) (not (y == 0))) (lt_bool (not (y == 0)) (not (x == 0)))
    bytes x y p q = ground arith
compare_payload-sign (int64s d) i j h = refl
compare_payload-sign (doubles d) i j h = ap ok (reals (get_or d i 0) (get_or d j 0))
  where
    reals : (x y : ℕ) → cmp_double x y ≡ sign (nan_last x y) (nan_last y x)
    reals x y = ground arith
compare_payload-sign (strings s) i j h = refl

compare_rows-sign :
    (c : Column) (i j : ℕ)
    → IsNormal c.payload
    → Validity.valid c.validity i ≡ true
    → Validity.valid c.validity j ≡ true
    → compare_rows c i j ≡ sign (less_cell c.payload i j) (less_cell c.payload j i)
unfolding compare_cell
compare_rows-sign c i j normal vi vj =
    let z = sign (less_cell c.payload i j) (less_cell c.payload j i) in
    let e : compare_cell c i c j ≡ ok z =
      rw (type_eq_refl c.type, vi, vj) (compare_payload-sign c.payload i j normal) in
    rw (compare_rows, e)

compare_rows-nulls :
    (c : Column) (i j : ℕ)
    → Validity.valid c.validity i ≡ false
    → Validity.valid c.validity j ≡ false
    → compare_rows c i j ≡ pos 0
unfolding compare_cell
compare_rows-nulls c i j vi vj =
    let e : compare_cell c i c j ≡ ok (pos 0) = rw (type_eq_refl c.type, vi, vj) in
    rw (compare_rows, e)

by_sign :
    (nf asc x y rest : Bool)
    → (x ≡ true → y ≡ false)
    → by_key nf asc true true (sign x y) rest
      ≡ ((if asc then x else y) || not (if asc then y else x) && rest)
by_sign nf asc x y rest h = ground arith

-- One key in the comparator.
comes_before-key :
    (k : Key) (keys : List Key) (a b : ℕ)
    → IsNormal k.column.payload
    → comes_before (k ∷ keys) a b ≡ then_by (key_before k) (comes_before keys) a b
unfolding comes_before
comes_before-key k keys a b normal =
    let c = k.column in
    let w = less_cell-IsWeak c.payload in
    elim (Bool-cases (Validity.valid c.validity a)) [
      | inl va ↦ elim (Bool-cases (Validity.valid c.validity b)) [
        | inl vb ↦
            rw
              (
                key_before-masked k a b,
                key_before-masked k b a,
                va,
                vb,
                compare_rows-sign c a b normal va vb,
              )
              (by_sign k.nulls_first k.ascending (less_cell c.payload a b) (less_cell c.payload b a)
                (comes_before keys a b) (w.one_way a b))
        | inr vb ↦ rw (key_before-masked k a b, key_before-masked k b a, va, vb) (ground arith)
      ]
      | inr va ↦ elim (Bool-cases (Validity.valid c.validity b)) [
        | inl vb ↦ rw (key_before-masked k a b, key_before-masked k b a, va, vb) (ground arith)
        | inr vb ↦
            rw
              (
                key_before-masked k a b,
                key_before-masked k b a,
                va,
                vb,
                compare_rows-nulls c a b va vb,
              )
              (ground arith)
      ]
    ]

nested :
    (p p' q q' r : Bool)
    → (p ≡ true → p' ≡ false)
    → ((p || not p' && (q || not q' && r))) ≡ ((p || not p' && q) || not (p' || not p && q') && r)
nested p p' q q' r h = ground arith

-- The comparator, and the row's number where it calls two rows equal, is the order of the rows.
pub row_before-comes_before :
    (keys : List Key) (a b : ℕ)
    → AllNormal keys
    → row_before keys a b ≡ then_by (comes_before keys) ltb a b
unfolding comes_before
row_before-comes_before [] a b normal = refl
row_before-comes_before (k ∷ keys) a b normal =
    rw
      (
        comes_before-key k keys a b normal.0,
        comes_before-key k keys b a normal.0,
        row_before-comes_before keys a b normal.1,
      )
      (nested (key_before k a b) (key_before k b a) (comes_before keys a b) (comes_before keys b a)
        (ltb a b) ((key_before-IsWeak k).one_way a b))

-- The comparator is a strict weak order, which std::stable_sort asks for.
pub comes_before-IsWeak : (keys : List Key) → AllNormal keys → IsWeak (comes_before keys)
unfolding comes_before
comes_before-IsWeak [] normal = record { one_way = λ a b h. refl; between = λ a b c h. cc }
comes_before-IsWeak (k ∷ keys) normal =
    let w = then_by-IsWeak (key_before-IsWeak k) (comes_before-IsWeak keys normal.1) in
    let same : (a b : ℕ)
        → comes_before (k ∷ keys) a b ≡ then_by (key_before k) (comes_before keys) a b =
      (λ a b. comes_before-key k keys a b normal.0) in
    record {
      one_way = λ a b h. same b a ∙ w.one_way a b (rw (same a b) at h);
      between = λ a b c h. rw (same a b, same b c) (w.between a b c (rw (same a c) at h));
    }
