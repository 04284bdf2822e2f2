-- ===== src/Expression/Evaluator/Compare.antt =====
-- The comparisons (src/expression.cpp) against their meaning in SQL.
use vectorized_query_engine.Base.{
  ℕ, ◌≤◌, ◌<◌, ◌≡◌, refl, sym, ap, ◌∙◌, Bool, true, false, not, List, ◌==◌, get_or, arith, inl, inr,
  Bool-cases, ltb, leb,
}
use vectorized_query_engine.Base.Int.{pos, eqb_ℤ, ltb_ℤ, leb_ℤ}
use vectorized_query_engine.Base.Results.{ok}
use vectorized_query_engine.Vector.Column.{
  Column, Payload, bytes8, int64s, doubles, strings, text_at, cell, value,
}
use vectorized_query_engine.Vector.Column.Cells.{IsTyped}
use vectorized_query_engine.Vector.Validity
use vectorized_query_engine.Vector.Value.{
  DataType, boolean, int64, double, string, Value, null, bool, int, real, text,
}
use vectorized_query_engine.Expression.{
  ExprKind, equal, not_equal, less, less_equal, greater, greater_equal,
}
use vectorized_query_engine.Vector.Double.{eq_double, lt_double, le_double}
use vectorized_query_engine.Expression.{eq_bool, eq_text}
use vectorized_query_engine.Expression.Scalar.{relation, lt_bool, lt_text, sql_compare}
use vectorized_query_engine.Expression.Evaluator.{for_rows, compare, compare_cells, comparison_row}
use vectorized_query_engine.Expression.Evaluator.Rows.{IsShaped, RowIs, put_row, for_rows_lem}
use vectorized_query_engine.Expression.Evaluator.Logic.{
  IsBools, bytes_of, put_bool, wrote_bool, Below, Computes,
}

-- The six kinds that compare.
abbrev pub IsComparison : ExprKind → Type 0
IsComparison equal = Unit
IsComparison not_equal = Unit
IsComparison less = Unit
IsComparison less_equal = Unit
IsComparison greater = Unit
IsComparison greater_equal = Unit
IsComparison _ = ⊥

-- Bytes that hold booleans are 0 or 1.
abbrev pub IsNormal : Payload → Type 0
IsNormal (bytes8 d) = (i : ℕ) → get_or d i 0 ≤ 1
IsNormal _ = Unit

compare-relation {ℓ} :
    {A : Type ℓ} (eq lt le : A → A → Bool) (k : ExprKind) (x y : A)
    → IsComparison k
    → compare eq lt le k x y ≡ ok (relation eq lt le k x y)
compare-relation eq lt le equal x y h = refl
compare-relation eq lt le not_equal x y h = refl
compare-relation eq lt le less x y h = refl
compare-relation eq lt le less_equal x y h = refl
compare-relation eq lt le greater x y h = refl
compare-relation eq lt le greater_equal x y h = refl
compare-relation eq lt le _ x y h = absurd h

-- On 0 and 1 the order of bytes is the order of booleans.
relation-bytes :
    (k : ExprKind) (x y : ℕ)
    → x ≤ 1
    → y ≤ 1
    → relation ◌==◌ ltb leb k x y
      ≡ relation eq_bool lt_bool (λ a b. not (lt_bool b a)) k (not (x == 0)) (not (y == 0))
relation-bytes equal x y h p = ground arith
relation-bytes not_equal x y h p = ground arith
relation-bytes less x y h p = ground arith
relation-bytes less_equal x y h p = ground arith
relation-bytes greater x y h p = ground arith
relation-bytes greater_equal x y h p = ground arith
relation-bytes _ x y h p = refl

-- The comparison of two cells of one type never throws, and is SQL's.
compare_cells-sql :
    (k : ExprKind) (t : DataType) (p q : Payload) (i : ℕ)
    → IsComparison k
    → IsTyped t p
    → IsTyped t q
    → IsNormal p
    → IsNormal q
    → (z : Bool) × (compare_cells k p q i ≡ ok z) × (sql_compare k (cell p i) (cell q i) ≡ bool z)
compare_cells-sql k boolean (bytes8 d) (bytes8 e) i c h h' m m' =
    let x = get_or d i 0 in
    let y = get_or e i 0 in
    (
      relation ◌==◌ ltb leb k x y,
      compare-relation ◌==◌ ltb leb k x y c,
      ap bool (sym (relation-bytes k x y (m i) (m' i))),
    )
compare_cells-sql k int64 (int64s d) (int64s e) i c h h' m m' =
    (_, compare-relation eqb_ℤ ltb_ℤ leb_ℤ k (get_or d i (pos 0)) (get_or e i (pos 0)) c, refl)
compare_cells-sql k double (doubles d) (doubles e) i c h h' m m' =
    (_, compare-relation eq_double lt_double le_double k (get_or d i 0) (get_or e i 0) c, refl)
compare_cells-sql k string (strings d) (strings e) i c h h' m m' = (
  _,
  compare-relation eq_text lt_text (λ x y. not (lt_text y x)) k (text_at d i) (text_at e i) c,
  refl,
)
compare_cells-sql k boolean (bytes8 d) q i c h h' m m' = absurd h'
compare_cells-sql k int64 (int64s d) q i c h h' m m' = absurd h'
compare_cells-sql k double (doubles d) q i c h h' m m' = absurd h'
compare_cells-sql k string (strings d) q i c h h' m m' = absurd h'
compare_cells-sql k _ p q i c h h' m m' = absurd h

sql_compare-null_left : (k : ExprKind) (v : Value) → sql_compare k null v ≡ null
sql_compare-null_left k v = refl

sql_compare-null_right : (k : ExprKind) (v : Value) → sql_compare k v null ≡ null
sql_compare-null_right k null = refl
sql_compare-null_right k (bool b) = refl
sql_compare-null_right k (int n) = refl
sql_compare-null_right k (real x) = refl
sql_compare-null_right k (text s) = refl

-- Marking a row NULL and writing nothing.
put_null :
    {out : Column} {n : ℕ} (i : ℕ)
    → IsBools out n
    → i < n
    → RowIs out n i null (record out { validity = Validity.set_valid out.validity i false })
put_null {out} i so h = put_row i out.payload false so.0 h so.0.typed so.0.rows (λ j ne. refl)

-- One row of a comparison: NULL if an operand is NULL.
comparison_row-IsRow :
    {a b out : Column} {n : ℕ} (k : ExprKind) (i : ℕ)
    → IsComparison k
    → IsShaped a n
    → IsShaped b n
    → b.type ≡ a.type
    → IsNormal a.payload
    → IsNormal b.payload
    → IsBools out n
    → i < n
    → (r : Column) × (comparison_row k a b i out ≡ ok r)
      × RowIs out n i (sql_compare k (value a i) (value b i)) r
comparison_row-IsRow {a} {b} {out} {n} k i c sa sb same ma mb so h =
    let (dest, eo, lo) = bytes_of out n so in
    let (z, e, means) =
      compare_cells-sql k a.type a.payload b.payload i c sa.typed (rw same at sb.typed) ma mb in
    elim (Bool-cases (Validity.valid a.validity i)) [
      | inr fa ↦ (
        record out { validity = Validity.set_valid out.validity i false },
        unfold comparison_row in rw fa,
        unfold value in rw fa (put_null i so h),
      )
      | inl ta ↦ elim (Bool-cases (Validity.valid b.validity i)) [
        | inr fb ↦ (
          record out { validity = Validity.set_valid out.validity i false },
          unfold comparison_row in rw (ta, fb),
          unfold value in rw (ta, fb, sql_compare-null_right) (put_null i so h),
        )
        | inl tb ↦ (
          wrote_bool out i dest z true,
          unfold comparison_row in rw (ta, tb, e, eo),
          unfold value in rw (ta, tb, means) (put_bool i dest z true so eo h),
        )
      ]
    ]

-- For a comparison kind, two operands of one type with n rows (booleans kept as 0 and 1), a
-- boolean result of n rows, and listed rows below n, the comparison loop returns a boolean column
-- of n rows, and each listed row holds SQL's result: NULL where an operand is NULL, IEEE order for
-- doubles, byte order for texts.
pub comparison-Computes :
    {n : ℕ} (k : ExprKind) (rows : List ℕ) {a b out : Column}
    → IsComparison k
    → Below rows n
    → IsShaped a n
    → IsShaped b n
    → b.type ≡ a.type
    → IsNormal a.payload
    → IsNormal b.payload
    → IsBools out n
    → Computes
        (for_rows (comparison_row k a b) rows out)
        rows
        n
        (λ i. sql_compare k (value a i) (value b i))
comparison-Computes {n} k rows {a} {b} {out} c below sa sb same ma mb so =
    let (r, e, p, hit, miss) =
      for_rows_lem (λ c. IsBools c n) (λ i. sql_compare k (value a i) (value b i))
        (comparison_row k a b) n
        (λ i o h s.
          let (r, e, w) = comparison_row-IsRow k i c sa sb same ma mb s h in
          (r, e, (w.shaped, w.type ∙ s.1), w.here, w.others))
        rows below out so in
    (r, e, p, hit)
