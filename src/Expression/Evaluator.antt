-- ===== src/Expression/Evaluator.antt =====
-- Class Evaluator of src/expression.cpp: an expression is compiled to nodes in postorder, and each
-- node is evaluated over the whole batch. `std::get` on the wrong variant throws; reading through a
-- null operand is undefined there and stops with a logic error here.
pub mod Rows
pub mod Logic
pub mod Compare
pub mod Numbers
pub mod Plain
pub mod Reals
pub mod Literals
pub mod Paths
pub mod Operator
pub mod Loops
pub mod Binary
pub mod Nodes
pub mod Correct
use vectorized_query_engine.Base.{
  ℕ, zero, suc, ◌+◌, ◌-◌, ◌%◌, ◌^◌, Bool, true, false, not, ◌&&◌, ◌||◌, Option, none, some, List,
  [], ◌∷◌, ◌++◌, ltb, leb, ◌==◌, if◌then◌else◌, length, get_or, get_elem?, set, tabulate,
}
use vectorized_query_engine.Base.Int.{ℤ, pos, negsuc, ◌+ℤ◌, ◌-ℤ◌, ◌*ℤ◌, quot_ℤ, ltb_ℤ, leb_ℤ, eqb_ℤ}
use vectorized_query_engine.Base.Results.{
  Result, ok, err, logic_error, out_of_range, bad_variant_access, ◌>>=◌, ◌>>◌,
}
use vectorized_query_engine.Kernels.{KernelMode, Machine, less_i64_constant, add_f64}
use vectorized_query_engine.Vector.Batch
use vectorized_query_engine.Vector.Batch.{Batch}
use vectorized_query_engine.Vector.Column
use vectorized_query_engine.Vector.Column.{
  Column, Payload, bytes8, int64s, doubles, strings, text_at, append_value,
}
use vectorized_query_engine.Vector.Double.{Arithmetic, eq_double, lt_double, le_double}
use vectorized_query_engine.Vector.Selection
use vectorized_query_engine.Vector.Validity
use vectorized_query_engine.Vector.Validity.{all_valid}
use vectorized_query_engine.Vector.Value.{
  DataType, boolean, int64, double, string, Value, int, type_eq, Schema, column_index,
}
use vectorized_query_engine.Expression.{
  ExprKind, column, literal, add, subtract, multiply, divide, equal, not_equal, less, less_equal,
  greater, greater_equal, and, or, negation, is_null, ExprPtr, missing, node, expression_type,
  kind_index, eq_text,
}
use vectorized_query_engine.Expression.Scalar.{fits_int64, is_zero, lt_text}

pub record Node : Type 0 where
  pub expression : ExprPtr
  pub left : ℕ
  pub right : ℕ
  pub column_index : ℕ
  pub type : DataType

-- `compile`, and the index 0 for a child that is not there. The constructor has typed the root.
unfoldable pub compile : ExprPtr → Schema → List Node → Result (List Node × ℕ)
compile missing s nodes = ok (nodes, 0)
compile (node k id v t l r) s nodes = do
  type ← expression_type (node k id v t l r) s
  a ← compile l s nodes
  b ← compile r s a.0
  at ← (if kind_index k == 0 then column_index s id else ok 0)
  let n : Node = record {
    expression = node k id v t l r;
    left = a.1;
    right = b.1;
    column_index = at;
    type = type;
  }
  ok (b.0 ++ n ∷ [], length b.0)

-- What a query runs on: the machine, the mode of the kernels and the arithmetic of doubles.
pub record Setting : Type 0 where
  pub machine : Machine
  pub mode : KernelMode
  pub arithmetic : Arithmetic

-- `data<T>()`
abbrev pub byte_data : Column → Result (List ℕ)
byte_data c = elim c.payload [ bytes8 d ↦ ok d | other ↦ err bad_variant_access ]

abbrev pub int64_data : Column → Result (List ℤ)
int64_data c = elim c.payload [ int64s d ↦ ok d | other ↦ err bad_variant_access ]

abbrev pub double_data : Column → Result (List ℕ)
double_data c = elim c.payload [ doubles d ↦ ok d | other ↦ err bad_variant_access ]

abbrev pub word_of : ℤ → ℕ
word_of (pos n) = n % 2 ^ 64
word_of (negsuc n) = 2 ^ 64 - 1 - n % 2 ^ 64

-- The two's complement value of the low 64 bits: what the overflow builtins store.
abbrev pub wrap64 : ℤ → ℤ
wrap64 z = let w = word_of z in if ltb w (2 ^ 63) then pos w else negsuc (2 ^ 64 - 1 - w)

abbrev pub int64_min : ℤ
int64_min = negsuc (2 ^ 63 - 1)

-- The new content of the result's cell, which held `old`, and whether the row is valid.
abbrev pub int64_step : ExprKind → ℤ → ℤ → ℤ → ℤ × Bool
int64_step add x y old = (wrap64 (x +ℤ y), fits_int64 (x +ℤ y))
int64_step subtract x y old = (wrap64 (x -ℤ y), fits_int64 (x -ℤ y))
int64_step multiply x y old = (wrap64 (x *ℤ y), fits_int64 (x *ℤ y))
int64_step divide x y old =
    if not (eqb_ℤ y (pos 0)) && not (eqb_ℤ x int64_min && eqb_ℤ y (negsuc 0))
    then (quot_ℤ x y, true)
    else (old, false)
int64_step _ x y old = (old, true)

abbrev pub double_step : Arithmetic → ExprKind → ℕ → ℕ → ℕ → ℕ × Bool
double_step m add x y old = (m.add x y, true)
double_step m subtract x y old = (m.subtract x y, true)
double_step m multiply x y old = (m.multiply x y, true)
double_step m divide x y old = if not (is_zero y) then (m.divide x y, true) else (old, false)
double_step m _ x y old = (old, true)

-- One write to the result: a cell, a flag, or both.
abbrev pub write_flag : Column → ℕ → Bool → Column
write_flag c i b = record c { validity = Validity.set_valid c.validity i b }

abbrev pub write_byte : Column → List ℕ → ℕ → ℕ → Column
write_byte c d i x = record c { payload = bytes8 (set d i x) }

-- The body of the loop of `eval_arithmetic`.
unfoldable pub arithmetic_row : Arithmetic → ExprKind → Column → Column → ℕ → Column → Result Column
arithmetic_row m k a b i out =
    let both = Validity.valid a.validity i && Validity.valid b.validity i in
    if both && type_eq a.type int64
    then (do
      xs ← int64_data a
      ys ← int64_data b
      rs ← int64_data out
      let s = int64_step k (get_or xs i (pos 0)) (get_or ys i (pos 0)) (get_or rs i (pos 0))
      ok (write_flag (record out { payload = int64s (set rs i s.0) }) i s.1))
    else if both
    then (do
      xs ← double_data a
      ys ← double_data b
      rs ← double_data out
      let s = double_step m k (get_or xs i 0) (get_or ys i 0) (get_or rs i 0)
      ok (write_flag (record out { payload = doubles (set rs i s.0) }) i s.1))
    else ok (write_flag out i false)

-- The template `compare`, from `==`, `<` and `<=` of the type.
abbrev pub compare {ℓ} :
    {A : Type ℓ} → (A → A → Bool) → (A → A → Bool) → (A → A → Bool) → ExprKind → A → A → Result Bool
compare eq lt le equal a b = ok (eq a b)
compare eq lt le not_equal a b = ok (not (eq a b))
compare eq lt le less a b = ok (lt a b)
compare eq lt le less_equal a b = ok (le a b)
compare eq lt le greater a b = ok (lt b a)
compare eq lt le greater_equal a b = ok (le b a)
compare eq lt le _ a b = err logic_error

-- `switch (a.type())`, on the arrays of that type. Booleans are compared as bytes.
abbrev pub compare_cells : ExprKind → Payload → Payload → ℕ → Result Bool
compare_cells k (bytes8 d) (bytes8 e) i = compare ◌==◌ ltb leb k (get_or d i 0) (get_or e i 0)
compare_cells k (int64s d) (int64s e) i =
    compare eqb_ℤ ltb_ℤ leb_ℤ k (get_or d i (pos 0)) (get_or e i (pos 0))
compare_cells k (doubles d) (doubles e) i =
    compare eq_double lt_double le_double k (get_or d i 0) (get_or e i 0)
compare_cells k (strings s) (strings t) i =
    compare eq_text lt_text (λ x y. not (lt_text y x)) k (text_at s i) (text_at t i)
compare_cells k _ _ i = err bad_variant_access

abbrev pub flag : Bool → ℕ
flag b = if b then 1 else 0

abbrev pub is_true : List ℕ → ℕ → Bool
is_true d i = not (get_or d i 0 == 0)

unfoldable pub is_null_row : Column → ℕ → Column → Result Column
is_null_row a i out = do
  dest ← byte_data out
  ok (write_byte out dest i (flag (not (Validity.valid a.validity i))))

unfoldable pub not_row : Column → ℕ → Column → Result Column
not_row a i out = do
  dest ← byte_data out
  xs ← byte_data a
  ok (
      write_flag (write_byte out dest i (flag (not (is_true xs i)))) i
        (Validity.valid a.validity i))

-- AND and OR: `is_and` picks the table.
unfoldable pub connective_row : Bool → Column → Column → ℕ → Column → Result Column
connective_row is_and a b i out = do
  dest ← byte_data out
  xs ← byte_data a
  ys ← byte_data b
  let av = Validity.valid a.validity i
  let bv = Validity.valid b.validity i
  let x = is_true xs i
  let y = is_true ys i
  let z = (if is_and then x && y else x || y)
  let differs = λ (w : Bool). (if is_and then not w else w)
  ok (
      write_flag (write_byte out dest i (flag z)) i
        ((av && bv) || (av && differs x) || (bv && differs y)))

unfoldable pub comparison_row : ExprKind → Column → Column → ℕ → Column → Result Column
comparison_row k a b i out =
    let both = Validity.valid a.validity i && Validity.valid b.validity i in
    if not both then ok (write_flag out i false) else (do
      z ← compare_cells k a.payload b.payload i
      dest ← byte_data out
      ok (write_byte (write_flag out i true) dest i (flag z)))

-- The body of the last loop of `evaluate`, by kind; `b` is there if the node has a right operand.
abbrev pub logic_row : ExprKind → Column → Option Column → ℕ → Column → Result Column
logic_row is_null a b i out = is_null_row a i out
logic_row negation a b i out = not_row a i out
logic_row k a none i out = err logic_error
logic_row and a (some b) i out = connective_row true a b i out
logic_row or a (some b) i out = connective_row false a b i out
logic_row k a (some b) i out = comparison_row k a b i out

-- `for (j = 0; j < selection.size(); ++j)`, over the rows that the selection lists
unfoldable pub for_rows : (ℕ → Column → Result Column) → List ℕ → Column → Result Column
for_rows step [] out = ok out
for_rows step (i ∷ rows) out = do out' ← step i out; for_rows step rows out'

abbrev pub is_arithmetic : ExprKind → Bool
is_arithmetic k = leb 2 (kind_index k) && leb (kind_index k) 5

abbrev pub active : Batch → List ℕ
active b = tabulate (Batch.size b) (Selection.at b.selection)

-- The general loops, for any selection and with NULLs.
unfoldable pub general_loop :
    Arithmetic → ExprKind → Column → Option Column → List ℕ → Column → Result Column
general_loop m k a b rows out =
    if is_arithmetic k
    then elim b [ none ↦ err logic_error | some c ↦ for_rows (arithmetic_row m k a c) rows out ]
    else for_rows (logic_row k a b) rows out

-- `std::get<std::int64_t>`
abbrev pub get_int64 : Value → Result ℤ
get_int64 (int n) = ok n
get_int64 _ = err bad_variant_access

unfoldable pub less_path : Setting → ℕ → Value → Column → Column → Result Column
less_path g n v a out = do
  xs ← int64_data a
  c ← get_int64 v
  dest ← byte_data out
  ok (record out { payload = bytes8 (less_i64_constant g.machine g.mode xs c dest n) })

unfoldable pub add_path : Setting → ℕ → Column → Column → Column → Result Column
add_path g n a b out = do
  xs ← double_data a
  ys ← double_data b
  dest ← double_data out
  ok (record out { payload = doubles (add_f64 g.arithmetic g.machine g.mode xs ys dest n) })

-- The literal of an operand, if the operand is one.
abbrev pub literal_value : ExprPtr → Option Value
literal_value (node literal id v t l r) = some v
literal_value _ = none

-- An operator node: the two SIMD paths where both operands are dense and have no NULL, or the loops.
unfoldable pub run_operator :
    Setting → Batch → ExprKind → ExprPtr → Column → Option Column → Column → Result Column
run_operator g batch less r a (some b) out =
    let dense_valid = batch.selection.dense && all_valid a.validity && all_valid b.validity in
    elim (literal_value r) [
      | some v ↦
          if dense_valid && type_eq a.type int64
          then less_path g (Batch.size batch) v a out
          else general_loop g.arithmetic less a (some b) (active batch) out
      | none ↦ general_loop g.arithmetic less a (some b) (active batch) out
    ]
run_operator g batch add r a (some b) out =
    let dense_valid = batch.selection.dense && all_valid a.validity && all_valid b.validity in
    if dense_valid && type_eq a.type double
    then add_path g (Batch.size batch) a b out
    else general_loop g.arithmetic add a (some b) (active batch) out
run_operator g batch k r a b out = general_loop g.arithmetic k a b (active batch) out

-- A literal is appended once for each row.
unfoldable pub fill : ℕ → Value → Column → Result Column
fill zero v out = ok out
fill (suc n) v out = do out' ← append_value out v; fill n v out'

abbrev pub at_index : List Column → ℕ → Result Column
at_index cs i = elim (get_elem? cs i) [ none ↦ err out_of_range | some c ↦ ok c ]

-- The right operand, where the node has one.
abbrev pub operand : ExprPtr → Result Column → Result (Option Column)
operand missing c = ok none
operand e c = c >>= λ x. ok (some x)

-- The column of one node; `values` are those of the nodes before it. A buffer is reset before it is
-- written, so what it held does not matter.
unfoldable pub run_node : Setting → Batch → Node → List Column → Result Column
run_node g batch n values = elim n.expression [
  | missing ↦ err logic_error
  | node column id v t l r ↦ at_index batch.columns n.column_index
  | node literal id v t l r ↦ fill batch.physical_size v (Column.reset (Column.new n.type) 0)
  | node k id v t l r ↦ do
    let out = Column.reset (Column.new n.type) batch.physical_size
    a ← at_index values n.left
    b ← operand r (at_index values n.right)
    run_operator g batch k r a b out
]

unfoldable pub run_nodes : Setting → Batch → List Node → List Column → Result (List Column)
run_nodes g batch [] values = ok values
run_nodes g batch (n ∷ ns) values = do
  c ← run_node g batch n values
  run_nodes g batch ns (values ++ c ∷ [])

abbrev pub last_column : List Column → Result Column
last_column [] = err out_of_range
last_column (c ∷ []) = ok c
last_column (c ∷ d ∷ cs) = last_column (d ∷ cs)

-- The constructor and one call of `evaluate`.
unfoldable pub evaluate : Setting → ExprPtr → Schema → Batch → Result Column
evaluate g e s batch = do
  type ← expression_type e s
  nodes ← compile e s []
  values ← run_nodes g batch nodes.0 []
  last_column values
