-- ===== src/Blocking/Aggregate.antt =====
-- Class HashAggregate of src/blocking.cpp: the groups of the child's rows, each with one state for
-- each aggregate.
pub mod Update
pub mod Exact
pub mod Rows
use vectorized_query_engine.Base.{
  ℕ, zero, suc, ◌+◌, ◌-◌, ◌*◌, Bool, true, false, not, ◌||◌, ◌&&◌, Option, none, some, List, [],
  ◌∷◌, ◌++◌, ltb, ◌==◌, length, take, drop, get_or, set, replicate, min, if◌then◌else◌,
}
use vectorized_query_engine.Base.Int.{ℤ, pos}
use vectorized_query_engine.Base.Results.{
  Result, ok, err, logic_error, overflow_error, bad_variant_access, out_of_range, ◌>>=◌, ◌>>◌,
}
use vectorized_query_engine.Vector.Value.{Schema, int64, type_eq, column_index, Value, int, real}
use vectorized_query_engine.Vector.Double.{Arithmetic}
use vectorized_query_engine.Vector.Validity
use vectorized_query_engine.Vector.Column.{
  Column, append_from, append_null, append_int64, append_double,
}
use vectorized_query_engine.Vector.Batch
use vectorized_query_engine.Vector.Batch.{Batch}
use vectorized_query_engine.Expression.Evaluator.{active, int64_data, double_data}
use vectorized_query_engine.Hash
use vectorized_query_engine.Hash.{RowStore, hash_row, equal_key, append_key, count_from, column_at}
use vectorized_query_engine.Hash.Index
use vectorized_query_engine.Hash.Index.{HashIndex, find_or_insert}
use vectorized_query_engine.Operators.{Next, prepare}
use vectorized_query_engine.Operators.Scan.{column_indices}
use vectorized_query_engine.Blocking.{
  AggregateKind, count, sum, minimum, maximum, AggregateSpec, is_count,
}
use vectorized_query_engine.Blocking.Aggregate.Update.{
  State, no_state, count_row, int64_row, double_row,
}

-- The column positions of the keys and of the aggregates' inputs.
pub record Layout : Type 0 where
  pub aggregates : List AggregateSpec
  pub input_keys : List ℕ
  pub input_values : List (Option ℕ)

unfoldable pub value_positions : Schema → List AggregateSpec → Result (List (Option ℕ))
value_positions s [] = ok []
value_positions s (a ∷ aggs) = do
  i ← (elim a.input [ none ↦ ok none | some id ↦ (column_index s id >>= λ k. ok (some k)) ])
  rest ← value_positions s aggs
  ok (i ∷ rest)

unfoldable pub new_layout : Schema → List ℕ → List AggregateSpec → Result Layout
unfolding value_positions
new_layout s keys aggs = do
  is ← column_indices s keys
  vs ← value_positions s aggs
  ok (record { aggregates = aggs; input_keys = is; input_values = vs })

-- The stored keys of the groups, their index, and the states: those of group g stand from g times the
-- number of aggregates on.
pub record Groups : Type 0 where
  pub keys : RowStore
  pub index : HashIndex
  pub states : List State

-- One aggregate's state after a row of the input.
unfoldable pub update_state : Arithmetic → AggregateKind → Option Column → ℕ → State → Result State
update_state m k none row s = if is_count k then count_row s else err logic_error
update_state m k (some c) row s =
    if not (Validity.valid c.validity row)
    then ok s
    else if is_count k
    then count_row s
    else if type_eq c.type int64
    then (int64_data c >>= λ xs. ok (int64_row k (get_or xs row (pos 0)) s))
    else (double_data c >>= λ xs. ok (double_row m k (get_or xs row 0) s))

abbrev pub input_column : Batch → Option ℕ → Result (Option Column)
input_column b none = ok none
input_column b (some i) = do c ← column_at b.columns i; ok (some c)

-- The states of a group: the first of them stands at `at`.
unfoldable pub update_states :
    Arithmetic
    → Batch
    → ℕ
    → List AggregateSpec
    → List (Option ℕ)
    → ℕ
    → List State
    → Result (List State)
unfolding update_state
update_states m b row (a ∷ aggs) (i ∷ is) at states = do
  c ← input_column b i
  s ← update_state m a.kind c row (get_or states at no_state)
  update_states m b row aggs is (at + 1) (set states at s)
update_states m b row aggs is at states = ok states

-- The group of a row, which is a new one if no stored key equals the row's.
unfoldable pub find_group : Layout → Batch → ℕ → Groups → Result (Groups × ℕ)
find_group l b row gs = elim l.input_keys [
  | [] ↦ ok (gs, 0)
  | k ∷ ks ↦ do
    let keys = k ∷ ks
    let stored = count_from 0 (length keys)
    hash ← hash_row b.columns keys row
    let fresh = gs.keys.rows
    found ← find_or_insert gs.index hash (λ g. equal_key gs.keys g b keys stored row) fresh
    if found.2
        then (do
          store ← append_key gs.keys b keys row
          let wanted = (fresh + 1) * length l.aggregates
          let more = replicate (wanted - length gs.states) no_state
          ok (record { keys = store; index = found.0; states = gs.states ++ more }, found.1))
        else ok (record gs { index = found.0 }, found.1)
]

unfoldable pub consume_row : Arithmetic → Layout → Batch → ℕ → Groups → Result Groups
unfolding find_group update_states
consume_row m l b row gs = do
  found ← find_group l b row gs
  states ←
      update_states m b row l.aggregates l.input_values (found.1 * length l.aggregates)
        found.0.states
  ok (record found.0 { states = states })

unfoldable pub consume_rows : Arithmetic → Layout → Batch → List ℕ → Groups → Result Groups
unfolding consume_row
consume_rows m l b [] gs = ok gs
consume_rows m l b (row ∷ rows) gs = do gs' ← consume_row m l b row gs; consume_rows m l b rows gs'

-- Without keys there is one group from the start.
unfoldable pub first_group : Layout → Groups → Result Groups
first_group l gs = elim l.input_keys [
  | k ∷ ks ↦ ok gs
  | [] ↦ do
    empty ← Batch.new [] 1
    store ← append_key gs.keys empty [] 0
    ok (record gs { keys = store; states = replicate (length l.aggregates) no_state })
]

-- The cells of a group in the output: its key, then its aggregates.
unfoldable pub append_keys : List Column → List Column → ℕ → Result (List Column)
append_keys (c ∷ cs) [] group = ok (c ∷ cs)
append_keys [] stored group = ok []
append_keys (c ∷ cs) (d ∷ ds) group = do
  c' ← append_from c d group
  rest ← append_keys cs ds group
  ok (c' ∷ rest)

unfoldable pub append_result : AggregateKind → State → Column → Result Column
append_result k s c =
    if not (is_count k) && (not s.seen || s.overflow)
    then append_null c
    else if type_eq c.type int64
    then append_int64 c s.integer true
    else append_double c s.floating true

unfoldable pub append_results :
    List AggregateSpec → List State → ℕ → List Column → Result (List Column)
unfolding append_result
append_results (a ∷ aggs) states at (c ∷ cs) = do
  c' ← append_result a.kind (get_or states at no_state) c
  rest ← append_results aggs states (at + 1) cs
  ok (c' ∷ rest)
append_results aggs states at cs = ok cs

unfoldable pub append_group : Layout → Groups → List Column → ℕ → Result (List Column)
unfolding append_keys append_results
append_group l gs cs group = do
  let width = length gs.keys.columns
  ks ← append_keys (take width cs) gs.keys.columns group
  rs ← append_results l.aggregates gs.states (group * length l.aggregates) (drop width cs)
  ok (ks ++ rs)

unfoldable pub append_groups : Layout → Groups → List Column → List ℕ → Result (List Column)
unfolding append_group
append_groups l gs cs [] = ok cs
append_groups l gs cs (group ∷ groups) = do
  cs' ← append_group l gs cs group
  append_groups l gs cs' groups

pub record HashAggregate (S : Type 0) : Type 0 where
  pub child : S
  pub groups : Groups
  pub input : Batch
  pub consumed : Bool
  pub cursor : ℕ

module _ {S : Type 0} (child : Next S) where
  -- `while (child_->next(input_))`; no answer (`none`) is a child that goes on for `fuel` batches.
  unfoldable pub consume_all :
      ℕ → Arithmetic → Layout → S → Batch → Groups → Result (Option (S × Batch × Groups))
  unfolding consume_rows
  consume_all zero m l st input gs = ok none
  consume_all (suc fuel) m l st input gs = do
    pulled ← child st input
    if not pulled.0 then ok (some (pulled.1, pulled.2, gs)) else do
      gs' ← consume_rows m l pulled.2 (active pulled.2) gs
      consume_all fuel m l pulled.1 pulled.2 gs'

  -- `if (!consumed_) consume();`
  unfoldable pub ensure_consumed :
      ℕ → Arithmetic → Layout → HashAggregate S → Result (Option (HashAggregate S))
  unfolding first_group consume_all
  ensure_consumed fuel m l op = if op.consumed then ok (some op) else do
    gs ← first_group l op.groups
    read ← consume_all fuel m l op.child op.input gs
    elim read [
      | none ↦ ok none
      | some r ↦ ok (some (record op { child = r.0; input = r.1; groups = r.2; consumed = true }))
    ]

  -- `HashAggregate::next`: the flag, the operator and the batch.
  unfoldable pub next :
      ℕ
      → Arithmetic
      → Layout
      → Schema
      → ℕ
      → HashAggregate S
      → Batch
      → Result (Option (Bool × HashAggregate S × Batch))
  next fuel m l schema batch_size op out = do
    ready ← prepare schema batch_size out
    consumed ← ensure_consumed fuel m l op
    elim consumed [
      | none ↦ ok none
      | some op' ↦ do
        let n = min ready.capacity (op'.groups.keys.rows - op'.cursor)
        cs ← append_groups l op'.groups ready.columns (count_from op'.cursor n)
        done ← Batch.finish (record ready { columns = cs }) n
        ok (some (not (n == 0), record op' { cursor = op'.cursor + n }, done))
    ]
