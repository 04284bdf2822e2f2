-- ===== src/Blocking/Sort/Lexical.antt =====
-- The order of rows that Sort (src/blocking.cpp) is for, said on the values in SQL.
use vectorized_query_engine.Base.{
  ℕ, ◌≡◌, refl, ◌∙◌, Bool, false, not, ◌&&◌, List, [], ◌∷◌, ltb, get_or, ◌==◌, if◌then◌else◌, arith,
  inl, inr, Bool-cases,
}
use vectorized_query_engine.Base.Int.{pos, ltb_ℤ}
use vectorized_query_engine.Vector.Validity
use vectorized_query_engine.Vector.Value.{Value, null, bool, int, real, text}
use vectorized_query_engine.Vector.Column.{
  Payload, bytes8, int64s, doubles, strings, cell, value, text_at,
}
use vectorized_query_engine.Expression.Scalar.{lt_text, lt_bool}
use vectorized_query_engine.Expression.Evaluator.Compare.{IsNormal}
use vectorized_query_engine.Blocking.Sort.{Key}
use vectorized_query_engine.Blocking.Sort.Weak.{
  IsWeak, nan_last, ltb_ℤ-IsWeak, lt_bool-IsWeak, nan_last-IsWeak, lt_text-IsWeak, on-IsWeak,
  then_by,
}

-- `<` of two values of one type; false where either is NULL.
abbrev pub less_value : Value → Value → Bool
less_value (bool a) (bool b) = lt_bool a b
less_value (int a) (int b) = ltb_ℤ a b
less_value (real a) (real b) = nan_last a b
less_value (text a) (text b) = lt_text a b
less_value _ _ = false

-- One sort key: NULLs first or last whatever the direction, the values up or down.
abbrev pub value_before : Bool → Bool → Value → Value → Bool
value_before nulls_first ascending null null = false
value_before nulls_first ascending null v = nulls_first
value_before nulls_first ascending u null = not nulls_first
value_before nulls_first ascending u v = if ascending then less_value u v else less_value v u

abbrev pub key_before : Key → ℕ → ℕ → Bool
key_before k a b = value_before k.nulls_first k.ascending (value k.column a) (value k.column b)

-- By the first key, then the next one, and at last by the row's number.
abbrev pub row_before : List Key → ℕ → ℕ → Bool
row_before [] = ltb
row_before (k ∷ keys) = then_by (key_before k) (row_before keys)

abbrev pub AllNormal : List Key → Type 0
AllNormal [] = Unit
AllNormal (k ∷ keys) = IsNormal k.column.payload × AllNormal keys

abbrev pub less_cell : Payload → ℕ → ℕ → Bool
less_cell p i j = less_value (cell p i) (cell p j)

pub less_cell-IsWeak : (p : Payload) → IsWeak (less_cell p)
less_cell-IsWeak (bytes8 d) = on-IsWeak (λ i. not (get_or d i 0 == 0)) lt_bool-IsWeak
less_cell-IsWeak (int64s d) = on-IsWeak (λ i. get_or d i (pos 0)) ltb_ℤ-IsWeak
less_cell-IsWeak (doubles d) = on-IsWeak (λ i. get_or d i 0) nan_last-IsWeak
less_cell-IsWeak (strings s) = on-IsWeak (text_at s) lt_text-IsWeak

-- One key, by the masks and the arrays.
abbrev pub by_mask : Bool → Bool → (ℕ → Bool) → (ℕ → ℕ → Bool) → ℕ → ℕ → Bool
by_mask nulls_first ascending valid less a b =
    if valid a
    then (if valid b then (if ascending then less a b else less b a) else not nulls_first)
    else valid b && nulls_first

by_mask-IsWeak :
    (nf asc : Bool) (valid : ℕ → Bool) {less : ℕ → ℕ → Bool}
    → IsWeak less
    → IsWeak (by_mask nf asc valid less)
by_mask-IsWeak nf asc valid w = record {
  one_way = λ a b h. ground (arith, w.one_way a b, w.one_way b a);
  between = λ a b c h. ground (arith, w.between a b c, w.between c b a);
}

value_before-cells :
    (nf asc : Bool) (p : Payload) (i j : ℕ)
    → value_before nf asc (cell p i) (cell p j) ≡ (if asc then less_cell p i j else less_cell p j i)
value_before-cells nf asc (bytes8 d) i j = refl
value_before-cells nf asc (int64s d) i j = refl
value_before-cells nf asc (doubles d) i j = refl
value_before-cells nf asc (strings s) i j = refl

null_before : (nf asc : Bool) (p : Payload) (j : ℕ) → value_before nf asc null (cell p j) ≡ nf
null_before nf asc (bytes8 d) j = refl
null_before nf asc (int64s d) j = refl
null_before nf asc (doubles d) j = refl
null_before nf asc (strings s) j = refl

before_null : (nf asc : Bool) (p : Payload) (i : ℕ) → value_before nf asc (cell p i) null ≡ not nf
before_null nf asc (bytes8 d) i = refl
before_null nf asc (int64s d) i = refl
before_null nf asc (doubles d) i = refl
before_null nf asc (strings s) i = refl

abbrev pub masked : Key → ℕ → ℕ → Bool
masked k =
    by_mask k.nulls_first k.ascending (Validity.valid k.column.validity)
      (less_cell k.column.payload)

pub key_before-masked : (k : Key) (a b : ℕ) → key_before k a b ≡ masked k a b
unfolding value
key_before-masked k a b =
    let p = k.column.payload in
    elim (Bool-cases (Validity.valid k.column.validity a)) [
      | inl va ↦ elim (Bool-cases (Validity.valid k.column.validity b)) [
        | inl vb ↦ rw (va, vb) (value_before-cells k.nulls_first k.ascending p a b)
        | inr vb ↦ rw (va, vb) (before_null k.nulls_first k.ascending p a)
      ]
      | inr va ↦ elim (Bool-cases (Validity.valid k.column.validity b)) [
        | inl vb ↦ rw (va, vb) (null_before k.nulls_first k.ascending p b)
        | inr vb ↦ rw (va, vb)
      ]
    ]

pub key_before-IsWeak : (k : Key) → IsWeak (key_before k)
key_before-IsWeak k =
    let w =
      by_mask-IsWeak k.nulls_first k.ascending (Validity.valid k.column.validity)
        (less_cell-IsWeak k.column.payload) in
    record {
      one_way =
          λ a b h. key_before-masked k b a ∙ w.one_way a b (rw (key_before-masked k a b) at h);
      between = λ a b c h.
          rw (key_before-masked k a b, key_before-masked k b c)
            (w.between a b c (rw (key_before-masked k a c) at h));
    }
