-- ===== src/Blocking/Join.antt =====
-- Class HashJoin of src/blocking.cpp: the rows of the build side are stored and chained by key, the
-- rows of the probe side look up their chain. `no_row` is `none` here.
use vectorized_query_engine.Base.{
  ℕ, zero, suc, ◌+◌, Bool, true, false, not, ◌||◌, Option, none, some, List, [], ◌∷◌, ◌++◌, ltb,
  leb, ◌==◌, length, get_or, set, if◌then◌else◌, take, drop,
}
use vectorized_query_engine.Base.Results.{Result, ok, invalid_argument, throw_if, ◌>>=◌, ◌>>◌}
use vectorized_query_engine.Vector.Value.{Schema, type_eq, column_index}
use vectorized_query_engine.Vector.Batch
use vectorized_query_engine.Vector.Batch.{Batch}
use vectorized_query_engine.Vector.Column.{Column, append_from}
use vectorized_query_engine.Vector.Selection
use vectorized_query_engine.Expression.Evaluator.{active}
use vectorized_query_engine.Hash
use vectorized_query_engine.Hash.{RowStore, hash_row, equal_key, joinable_row}
use vectorized_query_engine.Hash.Index.{HashIndex, find, find_or_insert}
use vectorized_query_engine.Operators.{Next, prepare, field_of}

-- The positions of the keys on the build side and on the probe side, which have equal types.
unfoldable pub key_positions : Schema → Schema → List ℕ → List ℕ → Result (List ℕ × List ℕ)
key_positions build probe (b ∷ bk) (p ∷ pk) = do
  i ← column_index build b
  j ← column_index probe p
  f ← field_of build b
  g ← field_of probe p
  throw_if (not (type_eq f.type g.type)) invalid_argument
  rest ← key_positions build probe bk pk
  ok (i ∷ rest.0, j ∷ rest.1)
key_positions build probe bk pk = ok ([], [])

-- The checks of the constructor on the key lists, and the positions.
unfoldable pub join_keys : Schema → Schema → List ℕ → List ℕ → Result (List ℕ × List ℕ)
unfolding key_positions
join_keys build probe bk pk = do
  throw_if (length bk == 0 || not (length bk == length pk)) invalid_argument
  key_positions build probe bk pk

-- The build side: `links` is `next_`, the following row of the same key; `tails` is the last row of
-- the chain that a head begins.
pub record Chains : Type 0 where
  pub store : RowStore
  pub index : HashIndex
  pub links : List (Option ℕ)
  pub tails : List ℕ

-- A row joins the chain of its head, or begins one.
abbrev pub linked : Chains → ℕ → ℕ → Bool → List (Option ℕ) × List ℕ
linked c head id inserted =
    let links = c.links ++ none ∷ [] in
    let tails = c.tails ++ id ∷ [] in
    if inserted
    then (links, tails)
    else (set links (get_or tails head 0) (some id), set tails head id)

unfoldable pub build_row : Batch → List ℕ → ℕ → Chains → Result Chains
build_row b keys row c = do
  joins ← joinable_row b.columns keys row
  if not joins then ok c else do
    let id = c.store.rows
    hash ← hash_row b.columns keys row
    found ← find_or_insert c.index hash (λ h. equal_key c.store h b keys keys row) id
    store ← Hash.append c.store b row
    let chain = linked c found.1 id found.2
    ok (record { store = store; index = found.0; links = chain.0; tails = chain.1 })

unfoldable pub build_rows : Batch → List ℕ → List ℕ → Chains → Result Chains
unfolding build_row
build_rows b keys [] c = ok c
build_rows b keys (row ∷ rows) c = do c' ← build_row b keys row c; build_rows b keys rows c'

-- The head of a probe row's chain.
unfoldable pub head_of : Chains → Batch → List ℕ → List ℕ → ℕ → Result (Option ℕ)
head_of c b probe_keys build_keys row = do
  joins ← joinable_row b.columns probe_keys row
  if not joins then ok none else do
    hash ← hash_row b.columns probe_keys row
    find c.index hash (λ h. equal_key c.store h b probe_keys build_keys row)

unfoldable pub heads_of : Chains → Batch → List ℕ → List ℕ → List ℕ → Result (List (Option ℕ))
unfolding head_of
heads_of c b probe_keys build_keys [] = ok []
heads_of c b probe_keys build_keys (row ∷ rows) = do
  h ← head_of c b probe_keys build_keys row
  rest ← heads_of c b probe_keys build_keys rows
  ok (h ∷ rest)

unfoldable pub append_row : List Column → List Column → ℕ → Result (List Column)
append_row (c ∷ cs) (d ∷ ds) row = do
  c' ← append_from c d row
  rest ← append_row cs ds row
  ok (c' ∷ rest)
append_row cs ds row = ok cs

-- One pair of rows goes to the output, the left side's columns first.
unfoldable pub append_pair : Bool → List Column → Batch → ℕ → RowStore → ℕ → Result (List Column)
unfolding append_row
append_pair build_right cs probe probe_row store match = do
  let width = (if build_right then length probe.columns else length store.columns)
  a ←
      (if build_right
        then append_row (take width cs) probe.columns probe_row
        else append_row (take width cs) store.columns match)
  b ←
      (if build_right
        then append_row (drop width cs) store.columns match
        else append_row (drop width cs) probe.columns probe_row)
  ok (a ++ b)

-- The probe side: its child, the batch it is in, the heads of the batch's rows, the row it is at and
-- the next match of that row.
pub record Probing (S : Type 0) : Type 0 where
  pub child : S
  pub batch : Batch
  pub heads : List (Option ℕ)
  pub cursor : ℕ
  pub match : Option ℕ

module _ {S : Type 0} (child : Next S) where
  -- `while (build_->next(build_batch_))`; no answer (`none`) is a child that goes on for `fuel`
  -- batches.
  unfoldable pub build : ℕ → List ℕ → S → Batch → Chains → Result (Option (S × Batch × Chains))
  unfolding build_rows
  build zero keys st input c = ok none
  build (suc fuel) keys st input c = do
    pulled ← child st input
    if not pulled.0 then ok (some (pulled.1, pulled.2, c)) else do
      c' ← build_rows pulled.2 keys (active pulled.2) c
      build fuel keys pulled.1 pulled.2 c'

  -- `load_probe`: whether there is a batch, and the state in it.
  unfoldable pub load_probe : Chains → List ℕ → List ℕ → Probing S → Result (Bool × Probing S)
  unfolding heads_of
  load_probe c probe_keys build_keys p = do
    pulled ← child p.child p.batch
    if not pulled.0 then ok (false, record p { child = pulled.1; batch = pulled.2 }) else do
      heads ← heads_of c pulled.2 probe_keys build_keys (active pulled.2)
      ok (
        true,
        record {
          child = pulled.1;
          batch = pulled.2;
          heads = heads;
          cursor = 0;
          match = get_or heads 0 none;
        },
      )

  -- One round of the loop of `next`: the probe side, the output's columns and count, and whether the
  -- loop goes on.
  abbrev pub Round : Type 0
  Round = Probing S × List Column × ℕ × Bool

  -- The row's next match is written, or the row is over.
  unfoldable pub match_round : Bool → Chains → Probing S → List Column → ℕ → Result Round
  unfolding append_pair
  match_round build_right c p cs n = elim p.match [
    | none ↦
        let at = p.cursor + 1 in
        ok (
          record p {
            cursor = at;
            match = if ltb at (length p.heads) then get_or p.heads at none else none;
          },
          cs,
          n,
          true,
        )
    | some m ↦ do
      cs' ← append_pair build_right cs p.batch (Selection.at p.batch.selection p.cursor) c.store m
      ok (record p { match = get_or c.links m none }, cs', n + 1, true)
  ]

  unfoldable pub round :
      Bool → Chains → List ℕ → List ℕ → Probing S → List Column → ℕ → Result Round
  unfolding load_probe match_round
  round build_right c probe_keys build_keys p cs n =
      if leb (length p.heads) p.cursor
      then (do
        loaded ← load_probe c probe_keys build_keys p
        if loaded.0 then match_round build_right c loaded.1 cs n else ok (loaded.1, cs, n, false))
      else match_round build_right c p cs n

  -- The loop. No answer (`none`) is one that goes on for `fuel` rounds.
  unfoldable pub rounds :
      ℕ
      → Bool
      → Chains
      → List ℕ
      → List ℕ
      → ℕ
      → Probing S
      → List Column
      → ℕ
      → Result (Option (Probing S × List Column × ℕ))
  unfolding round
  rounds zero build_right c probe_keys build_keys capacity p cs n = ok none
  rounds (suc fuel) build_right c probe_keys build_keys capacity p cs n =
      if not (ltb n capacity) then ok (some (p, cs, n)) else do
        r ← round build_right c probe_keys build_keys p cs n
        if r.3
            then rounds fuel build_right c probe_keys build_keys capacity r.0 r.1 r.2
            else ok (some (r.0, r.1, r.2))

  -- `HashJoin::next` after the build side is read: the flag, the probe side and the batch.
  unfoldable pub probe_next :
      ℕ
      → Bool
      → Chains
      → List ℕ
      → List ℕ
      → Probing S
      → Batch
      → Result (Option (Bool × Probing S × Batch))
  unfolding rounds
  probe_next fuel build_right c probe_keys build_keys p ready =
      if c.store.rows == 0 then ok (some (false, p, ready)) else do
        done ← rounds fuel build_right c probe_keys build_keys ready.capacity p ready.columns 0
        elim done [
          | none ↦ ok none
          | some r ↦ do
            full ← Batch.finish (record ready { columns = r.1 }) r.2
            ok (some (not (r.2 == 0), r.0, full))
        ]

-- The operator's state: the build side's child with its batch, and the probe side.
pub record HashJoin (S T : Type 0) : Type 0 where
  pub child : S
  pub input : Batch
  pub built : Bool
  pub chains : Chains
  pub probing : Probing T

module _ {S T : Type 0} (build_child : Next S) (probe_child : Next T) where
  abbrev read_side : HashJoin S T → S × Batch × Chains → HashJoin S T
  read_side st read = record st { child = read.0; input = read.1; built = true; chains = read.2 }

  -- The first call reads the build side.
  unfoldable pub ensure_built : ℕ → List ℕ → HashJoin S T → Result (Option (HashJoin S T))
  ensure_built fuel build_keys st = if st.built then ok (some st) else do
    read ← build build_child fuel build_keys st.child st.input st.chains
    elim read [ none ↦ ok none | some r ↦ ok (some (read_side st r)) ]

  -- `HashJoin::next`: the flag, the operator and the batch.
  unfoldable pub next :
      ℕ
      → Schema
      → ℕ
      → Bool
      → List ℕ
      → List ℕ
      → HashJoin S T
      → Batch
      → Result (Option (Bool × HashJoin S T × Batch))
  next fuel schema batch_size build_right probe_keys build_keys st out = do
    ready ← prepare schema batch_size out
    built ← ensure_built fuel build_keys st
    elim built [
      | none ↦ ok none
      | some side ↦ do
        done ←
            probe_next probe_child fuel build_right side.chains probe_keys build_keys side.probing
              ready
        elim done [ none ↦ ok none | some r ↦ ok (some (r.0, record side { probing = r.1 }, r.2)) ]
    ]
