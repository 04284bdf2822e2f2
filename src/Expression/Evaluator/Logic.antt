-- ===== src/Expression/Evaluator/Logic.antt =====
-- AND, OR and NOT (src/expression.cpp) against SQL's truth tables.
use vectorized_query_engine.Base.{
  ℕ, ◌<◌, ◌≡◌, refl, sym, ◌∙◌, Bool, true, false, not, ◌&&◌, ◌||◌, List, ◌==◌, if◌then◌else◌,
  length, set, length-set, get_or-set_self, get_or-set_ne, arith,
}
use vectorized_query_engine.Base.Results.{Result, ok}
use vectorized_query_engine.Vector.Column.{
  Column, Payload, bytes8, int64s, doubles, strings, cell, value,
}
use vectorized_query_engine.Vector.Column.Cells.{IsTyped, HoldsRows}
use vectorized_query_engine.Vector.Validity
use vectorized_query_engine.Vector.Value.{
  DataType, boolean, int64, double, string, Value, null, bool, contains,
}
use vectorized_query_engine.Expression.Scalar.{sql_and, sql_or, sql_not}
use vectorized_query_engine.Expression.Evaluator.{for_rows, flag, is_true, connective_row, not_row}
use vectorized_query_engine.Expression.Evaluator.Rows.{IsShaped, RowIs, put_row, for_rows_lem}

-- A boolean column of n rows, and its array.
abbrev pub IsBools : Column → ℕ → Type 0
IsBools c n = IsShaped c n × (c.type ≡ boolean)

pub bytes_of :
    (c : Column) (n : ℕ) → IsBools c n → (d : List ℕ) × (c.payload ≡ bytes8 d) × (length d ≡ n)
bytes_of c n h = go c.type c.payload refl h.1 h.0.typed h.0.rows
  where
    go :
        (t : DataType) (p : Payload)
        → c.payload ≡ p
        → t ≡ boolean
        → IsTyped t p
        → HoldsRows p n
        → (d : List ℕ) × (c.payload ≡ bytes8 d) × (length d ≡ n)
    go boolean (bytes8 d) e same h k = (d, e, k)
    go boolean (int64s d) e same h k = absurd h
    go boolean (doubles d) e same h k = absurd h
    go boolean (strings d) e same h k = absurd h
    go int64 p e same h k = cc
    go double p e same h k = cc
    go string p e same h k = cc

pub flag-bool : (b : Bool) → not (flag b == 0) ≡ b
flag-bool true = refl
flag-bool false = refl

-- Writing a boolean and its flag.
pub put_bool :
    {out : Column} {n : ℕ} (i : ℕ) (d : List ℕ) (z b : Bool)
    → IsBools out n
    → out.payload ≡ bytes8 d
    → i < n
    → RowIs out n i (if b then bool z else null) (record out {
      payload = bytes8 (set d i (flag z));
      validity = Validity.set_valid out.validity i b;
    })
put_bool {out} {n} i d z b s e h =
    let q = bytes8 (set d i (flag z)) in
    let long : length d ≡ n = rw e at s.0.rows in
    let written : cell q i ≡ bool z =
      rw (get_or-set_self d i (flag z) 0 (omega arith), flag-bool z) in
    rw written at (
      put_row i q b s.0 h (rw s.1 tt) (length-set d i (flag z) ∙ long)
        (λ j ne. rw (e, get_or-set_ne d i j (flag z) 0 (λ p. ne (sym p)))))

abbrev pub wrote_bool : Column → ℕ → List ℕ → Bool → Bool → Column
wrote_bool out i d z b = record out {
  payload = bytes8 (set d i (flag z));
  validity = Validity.set_valid out.validity i b;
}

kleene_and :
    (av bv x y : Bool)
    → (if (av && bv) || (av && not x) || (bv && not y) then bool (x && y) else null)
      ≡ sql_and (if av then bool x else null) (if bv then bool y else null)
kleene_and av bv x y = ground arith

kleene_or :
    (av bv x y : Bool)
    → (if (av && bv) || (av && x) || (bv && y) then bool (x || y) else null)
      ≡ sql_or (if av then bool x else null) (if bv then bool y else null)
kleene_or av bv x y = ground arith

-- The value of a boolean column at a row, in terms of its byte and its flag.
pub value-byte :
    (c : Column) (d : List ℕ) (i : ℕ)
    → c.payload ≡ bytes8 d
    → value c i ≡ (if Validity.valid c.validity i then bool (is_true d i) else null)
unfolding value
value-byte c d i e = rw e

abbrev pub connective : Bool → Value → Value → Value
connective is_and a b = if is_and then sql_and a b else sql_or a b

-- One row of AND or OR, whatever the bytes of NULL operands hold.
connective_row-IsRow :
    {a b out : Column} {n : ℕ} (is_and : Bool) (i : ℕ)
    → IsBools a n
    → IsBools b n
    → IsBools out n
    → i < n
    → (r : Column) × (connective_row is_and a b i out ≡ ok r)
      × RowIs out n i (connective is_and (value a i) (value b i)) r
connective_row-IsRow {a} {b} {out} {n} true i sa sb so h =
    let (xs, ea, la) = bytes_of a n sa in
    let (ys, eb, lb) = bytes_of b n sb in
    let (dest, eo, lo) = bytes_of out n so in
    let av = Validity.valid a.validity i in
    let bv = Validity.valid b.validity i in
    let x = is_true xs i in
    let y = is_true ys i in
    let known = (av && bv) || (av && not x) || (bv && not y) in
    (
      wrote_bool out i dest (x && y) known,
      unfold connective_row in rw (eo, ea, eb),
      rw (value-byte a xs i ea, value-byte b ys i eb, ← kleene_and av bv x y)
          (put_bool i dest (x && y) known so eo h),
    )
connective_row-IsRow {a} {b} {out} {n} false i sa sb so h =
    let (xs, ea, la) = bytes_of a n sa in
    let (ys, eb, lb) = bytes_of b n sb in
    let (dest, eo, lo) = bytes_of out n so in
    let av = Validity.valid a.validity i in
    let bv = Validity.valid b.validity i in
    let x = is_true xs i in
    let y = is_true ys i in
    let known = (av && bv) || (av && x) || (bv && y) in
    (
      wrote_bool out i dest (x || y) known,
      unfold connective_row in rw (eo, ea, eb),
      rw (value-byte a xs i ea, value-byte b ys i eb, ← kleene_or av bv x y)
          (put_bool i dest (x || y) known so eo h),
    )

not_table :
    (av x : Bool) → (if av then bool (not x) else null) ≡ sql_not (if av then bool x else null)
not_table av x = ground arith

-- One row of NOT.
not_row-IsRow :
    {a out : Column} {n : ℕ} (i : ℕ)
    → IsBools a n
    → IsBools out n
    → i < n
    → (r : Column) × (not_row a i out ≡ ok r) × RowIs out n i (sql_not (value a i)) r
not_row-IsRow {a} {out} {n} i sa so h =
    let (xs, ea, la) = bytes_of a n sa in
    let (dest, eo, lo) = bytes_of out n so in
    let av = Validity.valid a.validity i in
    let x = is_true xs i in
    (
      wrote_bool out i dest (not x) av,
      unfold not_row in rw (eo, ea),
      rw (value-byte a xs i ea, ← not_table av x) (put_bool i dest (not x) av so eo h),
    )

-- The rows that a loop visits lie inside the batch.
abbrev pub Below : List ℕ → ℕ → Type 0
Below rows n = (i : ℕ) → contains i rows ≡ true → i < n

-- What a loop leaves: a boolean column with the value f i in every row that was visited.
abbrev pub Computes : Result Column → List ℕ → ℕ → (ℕ → Value) → Type 0
Computes result rows n f =
    (r : Column) × (result ≡ ok r)
    × IsBools r n
    × ((i : ℕ) → contains i rows ≡ true → value r i ≡ f i)

module _ {n : ℕ} (rows : List ℕ) (below : Below rows n) {a out : Column} (sa : IsBools a n)
    (so : IsBools out n) where
  -- For two boolean operands and a boolean result of n rows, and listed rows below n, the AND or
  -- OR loop returns a boolean column of n rows, and each listed row holds the value of Kleene's
  -- table.
  pub connective-Computes :
      (is_and : Bool) (b : Column)
      → IsBools b n
      → Computes
          (for_rows (connective_row is_and a b) rows out)
          rows
          n
          (λ i. connective is_and (value a i) (value b i))
  connective-Computes is_and b sb =
      let (r, e, p, hit, miss) =
        for_rows_lem (λ c. IsBools c n) (λ i. connective is_and (value a i) (value b i))
          (connective_row is_and a b) n
          (λ i c h s.
            let (r, e, w) = connective_row-IsRow is_and i sa sb s h in
            (r, e, (w.shaped, w.type ∙ s.1), w.here, w.others))
          rows below out so in
      (r, e, p, hit)

  -- For a boolean operand and a boolean result of n rows, and listed rows below n, the NOT loop
  -- returns a boolean column of n rows, and each listed row holds NULL for NULL and the opposite
  -- of a truth value.
  pub not-Computes : Computes (for_rows (not_row a) rows out) rows n (λ i. sql_not (value a i))
  not-Computes =
      let (r, e, p, hit, miss) =
        for_rows_lem (λ c. IsBools c n) (λ i. sql_not (value a i)) (not_row a) n
          (λ i c h s.
            let (r, e, w) = not_row-IsRow i sa s h in
            (r, e, (w.shaped, w.type ∙ s.1), w.here, w.others))
          rows below out so in
      (r, e, p, hit)
