-- ===== src/Blocking/Sort.antt =====
-- Class Sort of src/blocking.cpp: the rows of the child are stored, put in order once, and given out
-- batch by batch.
pub mod Weak
pub mod Lexical
pub mod Comparator
pub mod Order
use vectorized_query_engine.Base.{
  ℕ, zero, suc, ◌+◌, Bool, true, false, not, ◌||◌, ◌&&◌, Option, none, some, List, [], ◌∷◌, ◌++◌,
  ltb, ◌==◌, length, take, drop, tabulate, if◌then◌else◌,
}
use vectorized_query_engine.Base.Int.{ℤ, pos, negsuc, ltb_ℤ, eqb_ℤ}
use vectorized_query_engine.Base.Results.{Result, ok, err, out_of_range, ◌>>=◌, ◌>>◌}
use vectorized_query_engine.Base.Sorting.{stable_sort}
use vectorized_query_engine.Vector.Value.{Schema, column_index}
use vectorized_query_engine.Vector.Validity
use vectorized_query_engine.Vector.Column.{Column, append_from}
use vectorized_query_engine.Vector.Batch
use vectorized_query_engine.Vector.Batch.{Batch}
use vectorized_query_engine.Expression.Evaluator.{active}
use vectorized_query_engine.Hash
use vectorized_query_engine.Hash.{RowStore, compare_cell, column_at}
use vectorized_query_engine.Operators.{Next, prepare}
use vectorized_query_engine.Blocking.{SortKey}

-- A key of the operator: the stored column and the order.
pub record Key : Type 0 where
  pub column : Column
  pub ascending : Bool
  pub nulls_first : Bool

unfoldable pub key_indices : Schema → List SortKey → Result (List ℕ)
key_indices s [] = ok []
key_indices s (k ∷ keys) = do i ← column_index s k.column; rest ← key_indices s keys; ok (i ∷ rest)

-- The stored columns of the keys
unfoldable pub key_columns : List Column → List SortKey → List ℕ → Result (List Key)
key_columns cs (k ∷ keys) (i ∷ is) = do
  c ← column_at cs i
  rest ← key_columns cs keys is
  ok (record { column = c; ascending = k.ascending; nulls_first = k.nulls_first } ∷ rest)
key_columns cs keys is = ok []

-- `compare_cell(c, a, c, b)`, which does not throw on two rows of one column.
abbrev pub compare_rows : Column → ℕ → ℕ → ℤ
compare_rows c a b = elim (compare_cell c a c b) [ ok z ↦ z | err thrown ↦ pos 0 ]

-- What one key says: whether the rows are valid, how they compare, and what the other keys say.
abbrev pub by_key : Bool → Bool → Bool → Bool → ℤ → Bool → Bool
by_key nulls_first ascending av bv c rest =
    if not av && bv || av && not bv
    then (if nulls_first then not av else av)
    else if eqb_ℤ c (pos 0)
    then rest
    else (if ascending then ltb_ℤ c (pos 0) else ltb_ℤ (pos 0) c)

-- The comparator: whether row a comes before row b.
unfoldable pub comes_before : List Key → ℕ → ℕ → Bool
comes_before [] a b = false
comes_before (k ∷ keys) a b =
    by_key k.nulls_first k.ascending (Validity.valid k.column.validity a)
      (Validity.valid k.column.validity b) (compare_rows k.column a b) (comes_before keys a b)

abbrev pub first_rows : ℕ → List ℕ
first_rows n = tabulate n (λ i. i)

-- `std::stable_sort` of the row numbers
unfoldable pub order_rows : List Key → ℕ → List ℕ
order_rows keys n = stable_sort (comes_before keys) (first_rows n)

unfoldable pub store_rows : RowStore → Batch → List ℕ → Result RowStore
store_rows s b [] = ok s
store_rows s b (i ∷ rows) = do s' ← Hash.append s b i; store_rows s' b rows

-- The row at each place of the order is appended to the output, while there is room.
unfoldable pub append_row : List Column → List Column → ℕ → Result (List Column)
append_row (c ∷ cs) (d ∷ ds) row = do
  c' ← append_from c d row
  rest ← append_row cs ds row
  ok (c' ∷ rest)
append_row cs ds row = ok cs

unfoldable pub append_rows : List Column → List Column → List ℕ → Result (List Column)
unfolding append_row
append_rows cs stored [] = ok cs
append_rows cs stored (row ∷ rows) = do cs' ← append_row cs stored row; append_rows cs' stored rows

pub record Sort (S : Type 0) : Type 0 where
  pub child : S
  pub store : RowStore
  pub input : Batch
  pub order : List ℕ
  pub sorted : Bool
  pub cursor : ℕ

module _ {S : Type 0} (child : Next S) where
  -- `while (child_->next(input_))`; no answer (`none`) is a child that goes on for `fuel` batches.
  unfoldable pub read_all : ℕ → S → RowStore → Batch → Result (Option (S × RowStore × Batch))
  unfolding store_rows
  read_all zero st store input = ok none
  read_all (suc fuel) st store input = do
    pulled ← child st input
    if not pulled.0 then ok (some (pulled.1, store, pulled.2)) else do
      store' ← store_rows store pulled.2 (active pulled.2)
      read_all fuel pulled.1 store' pulled.2

  abbrev filled : Sort S → List Key → S × RowStore × Batch → Sort S
  filled st keys read = record st {
    child = read.0;
    store = read.1;
    input = read.2;
    order = order_rows keys read.1.rows;
    sorted = true;
  }

  -- The first call reads the child and puts the rows in order.
  unfoldable pub sort_input : ℕ → List SortKey → List ℕ → Sort S → Result (Option (Sort S))
  sort_input fuel keys is st = if st.sorted then ok (some st) else do
    read ← read_all fuel st.child st.store st.input
    elim read [
      | none ↦ ok none
      | some r ↦ do ks ← key_columns r.1.columns keys is; ok (some (filled st ks r))
    ]

  -- `Sort::next`: the flag, the operator and the batch.
  unfoldable pub next :
      ℕ
      → Schema
      → ℕ
      → List SortKey
      → List ℕ
      → Sort S
      → Batch
      → Result (Option (Bool × Sort S × Batch))
  next fuel schema batch_size keys is st out = do
    ready ← prepare schema batch_size out
    sorted ← sort_input fuel keys is st
    elim sorted [
      | none ↦ ok none
      | some st' ↦ do
        let rows = take ready.capacity (drop st'.cursor st'.order)
        cs ← append_rows ready.columns st'.store.columns rows
        done ← Batch.finish (record ready { columns = cs }) (length rows)
        ok (some (not (length rows == 0), record st' { cursor = st'.cursor + length rows }, done))
    ]
