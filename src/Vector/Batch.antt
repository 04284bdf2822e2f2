-- ===== src/Vector/Batch.antt =====
-- Struct Batch of include/vqe/vector.hpp, with src/vector.cpp.
use vectorized_query_engine.Base.{
  ℕ, zero, suc, ◌+◌, Bool, true, not, ◌||◌, ◌&&◌, List, [], ◌∷◌, ltb, ◌==◌, length, map,
}
use vectorized_query_engine.Base.Results.{
  Result, ok, invalid_argument, length_error, logic_error, throw_if, ◌>>=◌, ◌>>◌,
}
use vectorized_query_engine.Vector.Value.{Schema, validate_schema, type_eq}
use vectorized_query_engine.Vector.Selection
use vectorized_query_engine.Vector.Selection.{Selection, max_batch_size}
use vectorized_query_engine.Vector.Column
use vectorized_query_engine.Vector.Column.{Column}

pub record Batch : Type 0 where
  pub schema : Schema
  pub columns : List Column
  pub selection : Selection
  pub capacity : ℕ
  pub physical_size : ℕ

abbrev pub size : Batch → ℕ
size b = b.selection.size

unfoldable pub new : Schema → ℕ → Result Batch
new s c = do
  throw_if (c == 0 || ltb max_batch_size c) invalid_argument
  validate_schema s
  ok (record {
    schema = s;
    columns = map (λ f. Column.new f.type) s;
    selection = Selection.empty;
    capacity = c;
    physical_size = 0;
  })

unfoldable pub reset : Batch → Result Batch
reset b = do
  s ← Selection.identity b.selection 0
  ok (record b {
    columns = map (λ c. Column.reset c 0) b.columns;
    physical_size = 0;
    selection = s;
  })

-- Every column has the batch's rows and the schema's type. (The two lists have one length.)
unfoldable pub columns_match : List Column → Schema → ℕ → Bool
columns_match [] s rows = true
columns_match (c ∷ cs) [] rows = true
columns_match (c ∷ cs) (f ∷ s) rows =
    Column.size c == rows && type_eq c.type f.type && columns_match cs s rows

-- `selection[i] < physical_size` for the first n entries
unfoldable pub selected_below : Selection → ℕ → ℕ → Bool
selected_below s zero rows = true
selected_below s (suc n) rows = selected_below s n rows && ltb (Selection.at s n) rows

unfoldable pub validate : Batch → Result (Unit {0})
validate b = do
  throw_if (ltb b.capacity b.physical_size || not (length b.columns == length b.schema)) logic_error
  throw_if (not (columns_match b.columns b.schema b.physical_size)) logic_error
  throw_if (not (selected_below b.selection (size b) b.physical_size)) logic_error

unfoldable pub finish : Batch → ℕ → Result Batch
finish b n = do
  throw_if (ltb b.capacity n) length_error
  s ← Selection.identity b.selection n
  let done = record b { physical_size = n; selection = s }
  validate done
  ok done

-- The row is copied column by column.
unfoldable pub append_cells : List Column → List Column → ℕ → Result (List Column)
append_cells (c ∷ cs) (d ∷ ds) row = do
  c' ← Column.append_from c d row
  rest ← append_cells cs ds row
  ok (c' ∷ rest)
append_cells cs ds row = ok []

unfoldable pub append_row : Batch → Batch → ℕ → Result Batch
append_row b source row = do
  throw_if (not (length b.columns == length source.columns)) invalid_argument
  throw_if (b.physical_size == b.capacity) length_error
  cs ← append_cells b.columns source.columns row
  ok (record b { columns = cs; physical_size = b.physical_size + 1 })
