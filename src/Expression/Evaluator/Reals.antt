-- ===== src/Expression/Evaluator/Reals.antt =====
-- `eval_arithmetic` on doubles, and IS NULL (src/expression.cpp), against their meaning in SQL.
use vectorized_query_engine.Base.{
  ℕ, ◌<◌, ◌≡◌, refl, sym, ap, ◌∙◌, Bool, true, false, not, List, if◌then◌else◌, length, get_or, set,
  length-set, get_or-set_self, get_or-set_ne, ◌≢◌, arith, inl, inr, Bool-cases,
}
use vectorized_query_engine.Base.Results.{ok}
use vectorized_query_engine.Vector.Column.{
  Column, Payload, bytes8, int64s, doubles, strings, cell, value, size,
}
use vectorized_query_engine.Vector.Column.Cells.{IsTyped, HoldsRows}
use vectorized_query_engine.Vector.Validity
use vectorized_query_engine.Vector.Validity.{all_valid}
use vectorized_query_engine.Vector.Validity.Flags.{IsValid, view, nulls_pos, get_or-view}
use vectorized_query_engine.Vector.Value.{
  DataType, boolean, int64, double, string, null, bool, real, type_eq, contains,
}
use vectorized_query_engine.Vector.Double.{Arithmetic}
use vectorized_query_engine.Expression.{ExprKind}
use vectorized_query_engine.Expression.Scalar.{sql_arithmetic, sql_is_null}
use vectorized_query_engine.Expression.Evaluator.{
  for_rows, arithmetic_row, double_step, is_null_row, flag,
}
use vectorized_query_engine.Expression.Evaluator.Rows.{IsShaped, RowIs, put_row, for_rows_lem}
use vectorized_query_engine.Expression.Evaluator.Logic.{
  IsBools, bytes_of, flag-bool, Below, Computes,
}
use vectorized_query_engine.Expression.Evaluator.Numbers.{
  IsArithmetic, double_step-sql, sql_arithmetic-null_left, sql_arithmetic-null_right, null_row,
}

-- A double column of n rows, and its array.
abbrev pub IsReals : Column → ℕ → Type 0
IsReals c n = IsShaped c n × (c.type ≡ double)

pub reals_of :
    (c : Column) (n : ℕ) → IsReals c n → (d : List ℕ) × (c.payload ≡ doubles d) × (length d ≡ n)
reals_of c n h = go c.type c.payload refl h.1 h.0.typed h.0.rows
  where
    go :
        (t : DataType) (p : Payload)
        → c.payload ≡ p
        → t ≡ double
        → IsTyped t p
        → HoldsRows p n
        → (d : List ℕ) × (c.payload ≡ doubles d) × (length d ≡ n)
    go double (doubles d) e same h k = (d, e, k)
    go double (bytes8 d) e same h k = absurd h
    go double (int64s d) e same h k = absurd h
    go double (strings d) e same h k = absurd h
    go boolean p e same h k = cc
    go int64 p e same h k = cc
    go string p e same h k = cc

put_real :
    {out : Column} {n : ℕ} (i : ℕ) (d : List ℕ) (z : ℕ) (b : Bool)
    → IsReals out n
    → out.payload ≡ doubles d
    → i < n
    → RowIs out n i (if b then real z else null) (record out {
      payload = doubles (set d i z);
      validity = Validity.set_valid out.validity i b;
    })
put_real {out} {n} i d z b s e h =
    let q = doubles (set d i z) in
    let long : length d ≡ n = rw e at s.0.rows in
    let written : cell q i ≡ real z = rw (get_or-set_self d i z 0 (omega arith)) in
    rw written at (
      put_row i q b s.0 h (rw s.1 tt) (length-set d i z ∙ long)
        (λ j ne. rw (e, get_or-set_ne d i j z 0 (λ p. ne (sym p)))))

module _ (m : Arithmetic) (k : ExprKind) (arithmetic : IsArithmetic k) where
  -- One row of arithmetic on doubles.
  double_row-IsRow :
      {a b out : Column} {n : ℕ} (i : ℕ)
      → IsReals a n
      → IsReals b n
      → IsReals out n
      → i < n
      → (r : Column) × (arithmetic_row m k a b i out ≡ ok r)
        × RowIs out n i (sql_arithmetic m k (value a i) (value b i)) r
  double_row-IsRow {a} {b} {out} {n} i sa sb so h =
      let (xs, ea, la) = reals_of a n sa in
      let (ys, eb, lb) = reals_of b n sb in
      let (rs, eo, lo) = reals_of out n so in
      let x = get_or xs i 0 in
      let y = get_or ys i 0 in
      let old = get_or rs i 0 in
      let s = double_step m k x y old in
      let not_int : type_eq a.type int64 ≡ false = ap (λ t. type_eq t int64) sa.1 in
      let means = double_step-sql m k x y old arithmetic in
      elim (Bool-cases (Validity.valid a.validity i)) [
        | inr fa ↦ (
          record out { validity = Validity.set_valid out.validity i false },
          unfold arithmetic_row in rw fa,
          unfold value in rw (fa, sql_arithmetic-null_left) (null_row i so.0 h),
        )
        | inl ta ↦ elim (Bool-cases (Validity.valid b.validity i)) [
          | inr fb ↦ (
            record out { validity = Validity.set_valid out.validity i false },
            unfold arithmetic_row in rw (ta, fb),
            unfold value in rw (ta, fb, sql_arithmetic-null_right) (null_row i so.0 h),
          )
          | inl tb ↦ (
            record out {
              payload = doubles (set rs i s.0);
              validity = Validity.set_valid out.validity i s.1;
            },
            unfold arithmetic_row in rw (ta, tb, not_int, ea, eb, eo),
            unfold value in rw (ta, tb, ea, eb, ← means) (put_real i rs s.0 s.1 so eo h),
          )
        ]
      ]

  -- The loop on two double columns.
  pub double_rows-Computes :
      {n : ℕ} (rows : List ℕ) {a b out : Column}
      → Below rows n
      → IsReals a n
      → IsReals b n
      → IsReals out n
      → (r : Column) × (for_rows (arithmetic_row m k a b) rows out ≡ ok r)
        × IsReals r n
        × ((i : ℕ)
            → contains i rows ≡ true
            → value r i ≡ sql_arithmetic m k (value a i) (value b i))
  double_rows-Computes {n} rows {a} {b} below sa sb so =
      let (r, e, p, hit, miss) =
        for_rows_lem (λ c. IsReals c n) (λ i. sql_arithmetic m k (value a i) (value b i))
          (arithmetic_row m k a b) n
          (λ i o p s.
            let (r, e, w) = double_row-IsRow i sa sb s p in
            (r, e, (w.shaped, w.type ∙ s.1), w.here, w.others))
          rows below _ so in
      (r, e, p, hit)

-- IS NULL writes no flag: every row of the result has to be valid before.
abbrev pub AllValid : Column → ℕ → Type 0
AllValid c n = (i : ℕ) → i < n → Validity.valid c.validity i ≡ true

cell-not_null : (p : Payload) (i : ℕ) → sql_is_null (cell p i) ≡ bool false
cell-not_null (bytes8 d) i = refl
cell-not_null (int64s d) i = refl
cell-not_null (doubles d) i = refl
cell-not_null (strings s) i = refl

pub null_test :
    (a : Column) (i : ℕ) → sql_is_null (value a i) ≡ bool (not (Validity.valid a.validity i))
unfolding value
null_test a i = elim (Bool-cases (Validity.valid a.validity i)) [
  | inl there ↦ rw there (cell-not_null a.payload i)
  | inr gone ↦ rw gone
]

-- One row of IS NULL.
is_null_row-Row :
    {out : Column} {n : ℕ} (a : Column) (i : ℕ)
    → i < n
    → IsBools out n × AllValid out n
    → (r : Column) × (is_null_row a i out ≡ ok r)
      × (IsBools r n × AllValid r n)
      × (value r i ≡ sql_is_null (value a i))
      × ((j : ℕ) → j ≢ i → value r j ≡ value out j)
is_null_row-Row {out} {n} a i h (so, full) =
    let (d, eo, lo) = bytes_of out n so in
    let z = not (Validity.valid a.validity i) in
    let q = bytes8 (set d i (flag z)) in
    let r : Column = record out { payload = q } in
    (
      r,
      unfold is_null_row in rw eo,
      (
        (
          record {
            mask = so.0.mask;
            counted = so.0.counted;
            typed = rw so.1 tt;
            rows = length-set d i (flag z) ∙ lo;
          },
          so.1,
        ),
        full,
      ),
      rw null_test (
          unfold value in rw (full i h, get_or-set_self d i (flag z) 0 (omega arith), flag-bool z)),
      λ j ne. unfold value in rw (eo, get_or-set_ne d i j (flag z) 0 (λ p. ne (sym p))),
    )

-- The loop of IS NULL, on a result whose rows are all valid.
pub is_null-Computes :
    {n : ℕ} (rows : List ℕ) (a : Column) {out : Column}
    → Below rows n
    → IsBools out n
    → AllValid out n
    → Computes (for_rows (is_null_row a) rows out) rows n (λ i. sql_is_null (value a i))
is_null-Computes {n} rows a {out} below so full =
    let (r, e, p, hit, miss) =
      for_rows_lem (λ c. IsBools c n × AllValid c n) (λ i. sql_is_null (value a i)) (is_null_row a)
        n (λ i o h s. is_null_row-Row a i h s) rows below out (so, full) in
    (r, e, p.0, hit)

-- A mask that counts no NULL has every flag set.
pub all_valid-AllValid :
    (c : Column) → IsValid c.validity → all_valid c.validity ≡ true → AllValid c (size c)
unfolding all_valid
all_valid-AllValid c mask none i h = elim (Bool-cases (Validity.valid c.validity i)) [
  | inl there ↦ there
  | inr gone ↦
      let some_null = nulls_pos (view c.validity) i (get_or-view c.validity i true h ∙ gone) in
      absurd (ground (arith, some_null, mask.counted))
]
