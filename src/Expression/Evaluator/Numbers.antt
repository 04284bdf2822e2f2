-- ===== src/Expression/Evaluator/Numbers.antt =====
-- `eval_arithmetic` (src/expression.cpp) against exact arithmetic that overflows to NULL.
use vectorized_query_engine.Base.{
  ℕ, zero, suc, ◌/◌, ◌<◌, ◌≡◌, refl, sym, ap, ◌∙◌, Bool, true, false, not, ◌&&◌, List,
  if◌then◌else◌, length, get_or, set, length-set, get_or-set_self, get_or-set_ne, arith, inl, inr,
  Bool-cases,
}
use native.Mathlib.Nat.{div-le_self, zero-div, div-lt_self}
use vectorized_query_engine.Base.Int.{ℤ, pos, negsuc, ◌+ℤ◌, ◌-ℤ◌, ◌*ℤ◌, quot_ℤ, eqb_ℤ}
use vectorized_query_engine.Base.Results.{ok}
use vectorized_query_engine.Vector.Column.{
  Column, Payload, bytes8, int64s, doubles, strings, cell, value,
}
use vectorized_query_engine.Vector.Column.Cells.{IsTyped, HoldsRows}
use vectorized_query_engine.Vector.Validity
use vectorized_query_engine.Vector.Value.{
  type_eq, DataType, boolean, int64, double, string, Value, null, int, real, contains,
}
use vectorized_query_engine.Expression.{ExprKind, add, subtract, multiply, divide}
use vectorized_query_engine.Vector.Double.{Arithmetic}
use vectorized_query_engine.Expression.Scalar.{sql_arithmetic, checked, fits_int64, is_zero}
use vectorized_query_engine.Expression.Evaluator.{
  for_rows, arithmetic_row, int64_step, double_step, wrap64, int64_min,
}
use vectorized_query_engine.Expression.Evaluator.Rows.{IsShaped, RowIs, put_row, for_rows_lem}
use vectorized_query_engine.Expression.Evaluator.Logic.{Below}

-- The four kinds that compute.
abbrev pub IsArithmetic : ExprKind → Type 0
IsArithmetic add = Unit
IsArithmetic subtract = Unit
IsArithmetic multiply = Unit
IsArithmetic divide = Unit
IsArithmetic _ = ⊥

-- A number in the range is what its low 64 bits stand for.
pub wrap64-fits : (z : ℤ) → fits_int64 z ≡ true → wrap64 z ≡ z
wrap64-fits (pos n) h = ground arith
wrap64-fits (negsuc n) h = ground arith

wrapped_or_null : (z : ℤ) → (if fits_int64 z then int (wrap64 z) else null) ≡ checked z
wrapped_or_null z = elim (Bool-cases (fits_int64 z)) [
  | inl e ↦ rw (e, wrap64-fits z e)
  | inr e ↦ rw e
]

-- The one quotient that does not fit is that of the least number by -1.
pub quot-fits :
    (x y : ℤ)
    → fits_int64 x ≡ true
    → fits_int64 y ≡ true
    → eqb_ℤ y (pos 0) ≡ false
    → fits_int64 (quot_ℤ x y) ≡ not (eqb_ℤ x int64_min && eqb_ℤ y (negsuc 0))
unfolding quot_ℤ
quot-fits (pos m) (pos (suc n)) hx hy hz = ground (arith, div-le_self m (suc n), zero-div (suc n))
quot-fits (pos m) (negsuc n) hx hy hz = ground (arith, div-le_self m (suc n), zero-div (suc n))
quot-fits (negsuc m) (pos (suc n)) hx hy hz =
    ground (arith, div-le_self (suc m) (suc n), zero-div (suc n))
quot-fits (negsuc m) (negsuc zero) hx hy hz = ground (arith, zero-div 1)
quot-fits (negsuc m) (negsuc (suc n)) hx hy hz =
    let small : suc m / suc (suc n) < suc m = div-lt_self (omega arith) (omega arith) in
    ground (arith, zero-div (suc (suc n)))
quot-fits x (pos zero) hx hy hz = cc

-- Every number in the array is one that 64 bits hold, as its C++ type says.
abbrev pub InRange : Payload → Type 0
InRange (int64s d) = (i : ℕ) → fits_int64 (get_or d i (pos 0)) ≡ true
InRange _ = Unit

-- One step on two integers is SQL's: exact, or NULL on overflow and on division by zero.
int64_step-sql :
    (m : Arithmetic) (k : ExprKind) (x y old : ℤ)
    → IsArithmetic k
    → fits_int64 x ≡ true
    → fits_int64 y ≡ true
    → (if (int64_step k x y old).1 then int (int64_step k x y old).0 else null)
      ≡ sql_arithmetic m k (int x) (int y)
int64_step-sql m add x y old h hx hy = wrapped_or_null (x +ℤ y)
int64_step-sql m subtract x y old h hx hy = wrapped_or_null (x -ℤ y)
int64_step-sql m multiply x y old h hx hy = wrapped_or_null (x *ℤ y)
int64_step-sql m divide x y old h hx hy = elim (Bool-cases (eqb_ℤ y (pos 0))) [
  | inl zero_y ↦ rw zero_y
  | inr nonzero ↦
      let fits = quot-fits x y hx hy nonzero in
      elim (Bool-cases (eqb_ℤ x int64_min && eqb_ℤ y (negsuc 0))) [
        | inl over ↦ rw (nonzero, over, fits, over)
        | inr under ↦ rw (nonzero, under, fits, under)
      ]
]
int64_step-sql m _ x y old h hx hy = absurd h

pub double_step-sql :
    (m : Arithmetic) (k : ExprKind) (x y old : ℕ)
    → IsArithmetic k
    → (if (double_step m k x y old).1 then real (double_step m k x y old).0 else null)
      ≡ sql_arithmetic m k (real x) (real y)
double_step-sql m add x y old h = refl
double_step-sql m subtract x y old h = refl
double_step-sql m multiply x y old h = refl
double_step-sql m divide x y old h = elim (Bool-cases (is_zero y)) [ inl e ↦ rw e | inr e ↦ rw e ]
double_step-sql m _ x y old h = absurd h

pub sql_arithmetic-null_left :
    (m : Arithmetic) (k : ExprKind) (v : Value) → sql_arithmetic m k null v ≡ null
sql_arithmetic-null_left m add v = refl
sql_arithmetic-null_left m subtract v = refl
sql_arithmetic-null_left m multiply v = refl
sql_arithmetic-null_left m divide v = refl
sql_arithmetic-null_left m _ v = refl

pub sql_arithmetic-null_right :
    (m : Arithmetic) (k : ExprKind) (v : Value) → sql_arithmetic m k v null ≡ null
sql_arithmetic-null_right m k v = ground arith

-- An integer column of n rows, and its array.
abbrev pub IsInts : Column → ℕ → Type 0
IsInts c n = IsShaped c n × (c.type ≡ int64)

pub ints_of :
    (c : Column) (n : ℕ) → IsInts c n → (d : List ℤ) × (c.payload ≡ int64s d) × (length d ≡ n)
ints_of c n h = go c.type c.payload refl h.1 h.0.typed h.0.rows
  where
    go :
        (t : DataType) (p : Payload)
        → c.payload ≡ p
        → t ≡ int64
        → IsTyped t p
        → HoldsRows p n
        → (d : List ℤ) × (c.payload ≡ int64s d) × (length d ≡ n)
    go int64 (int64s d) e same h k = (d, e, k)
    go int64 (bytes8 d) e same h k = absurd h
    go int64 (doubles d) e same h k = absurd h
    go int64 (strings d) e same h k = absurd h
    go boolean p e same h k = cc
    go double p e same h k = cc
    go string p e same h k = cc

-- Marking a row NULL and writing nothing.
pub null_row :
    {out : Column} {n : ℕ} (i : ℕ)
    → IsShaped out n
    → i < n
    → RowIs out n i null (record out { validity = Validity.set_valid out.validity i false })
null_row {out} i so h = put_row i out.payload false so h so.typed so.rows (λ j ne. refl)

put_int :
    {out : Column} {n : ℕ} (i : ℕ) (d : List ℤ) (z : ℤ) (b : Bool)
    → IsInts out n
    → out.payload ≡ int64s d
    → i < n
    → RowIs out n i (if b then int z else null) (record out {
      payload = int64s (set d i z);
      validity = Validity.set_valid out.validity i b;
    })
put_int {out} {n} i d z b s e h =
    let q = int64s (set d i z) in
    let long : length d ≡ n = rw e at s.0.rows in
    let written : cell q i ≡ int z = rw (get_or-set_self d i z (pos 0) (omega arith)) in
    rw written at (
      put_row i q b s.0 h (rw s.1 tt) (length-set d i z ∙ long)
        (λ j ne. rw (e, get_or-set_ne d i j z (pos 0) (λ p. ne (sym p)))))

module _ (m : Arithmetic) (k : ExprKind) (arithmetic : IsArithmetic k) where
  -- One row of integer arithmetic.
  int64_row-IsRow :
      {a b out : Column} {n : ℕ} (i : ℕ)
      → IsInts a n
      → IsInts b n
      → InRange a.payload
      → InRange b.payload
      → IsInts out n
      → i < n
      → (r : Column) × (arithmetic_row m k a b i out ≡ ok r)
        × RowIs out n i (sql_arithmetic m k (value a i) (value b i)) r
  int64_row-IsRow {a} {b} {out} {n} i sa sb ra rb so h =
      let (xs, ea, la) = ints_of a n sa in
      let (ys, eb, lb) = ints_of b n sb in
      let (rs, eo, lo) = ints_of out n so in
      let x = get_or xs i (pos 0) in
      let y = get_or ys i (pos 0) in
      let old = get_or rs i (pos 0) in
      let s = int64_step k x y old in
      let is_int : type_eq a.type int64 ≡ true = ap (λ t. type_eq t int64) sa.1 in
      let rx : fits_int64 x ≡ true = (rw ea at ra) i in
      let ry : fits_int64 y ≡ true = (rw eb at rb) i in
      let means = int64_step-sql m k x y old arithmetic rx ry in
      elim (Bool-cases (Validity.valid a.validity i)) [
        | inr fa ↦ (
          record out { validity = Validity.set_valid out.validity i false },
          unfold arithmetic_row in rw fa,
          unfold value in rw (fa, sql_arithmetic-null_left) (null_row i so.0 h),
        )
        | inl ta ↦ elim (Bool-cases (Validity.valid b.validity i)) [
          | inr fb ↦ (
            record out { validity = Validity.set_valid out.validity i false },
            unfold arithmetic_row in rw (ta, fb),
            unfold value in rw (ta, fb, sql_arithmetic-null_right) (null_row i so.0 h),
          )
          | inl tb ↦ (
            record out {
              payload = int64s (set rs i s.0);
              validity = Validity.set_valid out.validity i s.1;
            },
            unfold arithmetic_row in rw (ta, tb, is_int, ea, eb, eo),
            unfold value in rw (ta, tb, ea, eb, ← means) (put_int i rs s.0 s.1 so eo h),
          )
        ]
      ]

-- For an arithmetic kind, two operands and a result that are int64 columns of n rows, operand
-- cells in the range of int64, and listed rows below n, the loop of eval_arithmetic returns an
-- int64 column of n rows, and each listed row holds SQL's result: exact, or NULL on overflow, on
-- division by zero and where an operand is NULL.
pub arithmetic-Computes :
    {n : ℕ} (m : Arithmetic) (k : ExprKind) (rows : List ℕ) {a b out : Column}
    → IsArithmetic k
    → Below rows n
    → IsInts a n
    → IsInts b n
    → InRange a.payload
    → InRange b.payload
    → IsInts out n
    → (r : Column) × (for_rows (arithmetic_row m k a b) rows out ≡ ok r)
      × IsInts r n
      × ((i : ℕ) → contains i rows ≡ true → value r i ≡ sql_arithmetic m k (value a i) (value b i))
arithmetic-Computes {n} m k rows {a} {b} {out} h below sa sb ra rb so =
    let (r, e, p, hit, miss) =
      for_rows_lem (λ c. IsInts c n) (λ i. sql_arithmetic m k (value a i) (value b i))
        (arithmetic_row m k a b) n
        (λ i o p s.
          let (r, e, w) = int64_row-IsRow m k h i sa sb ra rb s p in
          (r, e, (w.shaped, w.type ∙ s.1), w.here, w.others))
        rows below out so in
    (r, e, p, hit)
