-- ===== src/Expression/Evaluator/Rows.antt =====
-- A loop over the selected rows writes one row of the result at a time.
use vectorized_query_engine.Base.{
  ℕ, ◌<◌, ◌≡◌, ◌≢◌, refl, ◌∙◌, Bool, true, false, List, [], ◌∷◌, if◌then◌else◌, arith, inl, inr,
  Bool-cases,
}
use vectorized_query_engine.Base.Results.{Result, ok}
use vectorized_query_engine.Vector.Column.{Column, Payload, cell, value, size}
use vectorized_query_engine.Vector.Column.Cells.{IsTyped, HoldsRows}
use vectorized_query_engine.Vector.Validity
use vectorized_query_engine.Vector.Validity.Flags.{
  IsValid, set_valid-Sets, valid-set_valid_self, valid-set_valid_ne, in_words, size-set_valid,
}
use vectorized_query_engine.Vector.Value.{Value, null, contains}
use vectorized_query_engine.Expression.Evaluator.{for_rows}

-- A column of n rows whose arrays fit its type. (Spare bits of the mask are of no concern to `set`.)
pub record IsShaped (c : Column) (n : ℕ) : Type 0 where
  pub mask : IsValid c.validity
  pub counted : size c ≡ n
  pub typed : IsTyped c.type c.payload
  pub rows : HoldsRows c.payload n

-- `r` is `out` with the value v in row i.
pub record RowIs (out : Column) (n i : ℕ) (v : Value) (r : Column) : Type 0 where
  pub shaped : IsShaped r n
  pub type : r.type ≡ out.type
  pub here : value r i ≡ v
  pub others : (j : ℕ) → j ≢ i → value r j ≡ value out j

-- A cell and a flag are written, the cell to an array q that differs from the old one there.
pub put_row :
    {out : Column} {n : ℕ} (i : ℕ) (q : Payload) (b : Bool)
    → IsShaped out n
    → i < n
    → IsTyped out.type q
    → HoldsRows q n
    → ((j : ℕ) → j ≢ i → cell q j ≡ cell out.payload j)
    → RowIs out n i
        (if b then cell q i else null)
        (record out { payload = q; validity = Validity.set_valid out.validity i b })
put_row {out} {n} i q b s h typed rows same =
    let inside : i < size out = omega (arith, s.counted) in
    let word = in_words i s.mask inside in
    record {
      shaped = record {
        mask = (set_valid-Sets i b s.mask inside).0;
        counted = size-set_valid out.validity i b ∙ s.counted;
        typed = typed;
        rows = rows;
      };
      type = refl;
      here = unfold value in rw (valid-set_valid_self out.validity i b word);
      others =
          λ j ne. unfold value in rw (valid-set_valid_ne out.validity i j b word ne, same j ne);
    }

pub contains_head : (i : ℕ) (rows : List ℕ) → contains i (i ∷ rows) ≡ true
contains_head i rows = ground arith

pub contains_tail :
    (i k : ℕ) (rows : List ℕ) → contains k rows ≡ true → contains k (i ∷ rows) ≡ true
contains_tail i k rows h = ground arith

contains_only :
    (i j : ℕ) (rows : List ℕ) → contains j (i ∷ rows) ≡ true → contains j rows ≡ false → i ≡ j
contains_only i j rows h k = ground arith

contains_none :
    (i j : ℕ) (rows : List ℕ) → contains j (i ∷ rows) ≡ false → (j ≢ i) × (contains j rows ≡ false)
contains_none i j rows h = ground arith

-- A loop whose body writes f i to row i, under an invariant, writes f to every row that is listed.
pub for_rows_lem :
    (P : Column → Type 0) (f : ℕ → Value) (step : ℕ → Column → Result Column) (n : ℕ)
    → ((i : ℕ) (out : Column)
        → i < n
        → P out
        → (r : Column) × (step i out ≡ ok r)
          × P r
          × (value r i ≡ f i)
          × ((j : ℕ) → j ≢ i → value r j ≡ value out j))
    → (rows : List ℕ) → ((i : ℕ) → contains i rows ≡ true → i < n)
    → (out : Column) → P out
    → (r : Column) × (for_rows step rows out ≡ ok r)
      × P r
      × ((j : ℕ) → contains j rows ≡ true → value r j ≡ f j)
      × ((j : ℕ) → contains j rows ≡ false → value r j ≡ value out j)
unfolding for_rows
for_rows_lem P f step n each [] below out p = (out, refl, p, λ j h. cc, λ j h. refl)
for_rows_lem P f step n each (i ∷ rows) below out p =
    let (mid, e, pm, here, others) = each i out (below i (contains_head i rows)) p in
    let (r, e', pr, hit, miss) =
      for_rows_lem P f step n each rows (λ k h. below k (contains_tail i k rows h)) mid pm in
    (
      r,
      rw e e',
      pr,
      λ j h. elim (Bool-cases (contains j rows)) [
        | inl later ↦ hit j later
        | inr last ↦
            let same : i ≡ j = contains_only i j rows h last in
            rw (← same) (miss i (rw (← same) at last) ∙ here)
      ],
      λ j h. let (ne, rest) = contains_none i j rows h in miss j rest ∙ others j ne,
    )
