-- ===== src/Hash.antt =====
-- include/vqe/hash.hpp and src/hash.cpp: the hash and the order of cells, the hash index and the row
-- store that joins, aggregates and sorts are built on.
pub mod Cells
pub mod Index
use vectorized_query_engine.Base.{
  ℕ, zero, suc, ◌+◌, ◌*◌, ◌%◌, ◌^◌, Bool, true, false, not, ◌&&◌, ◌||◌, List, [], ◌∷◌, ltb, ◌==◌,
  get_or, get_elem?, none, some, if◌then◌else◌, length, map, Option,
}
use vectorized_query_engine.Base.Bits.{shr}
use vectorized_query_engine.Base.Int.{ℤ, pos, negsuc, ltb_ℤ, eqb_ℤ}
use vectorized_query_engine.Base.Results.{
  Result, ok, err, invalid_argument, out_of_range, bad_variant_access, throw_if, ◌>>=◌, ◌>>◌,
}
use vectorized_query_engine.Vector.Value.{Field, Schema, type_eq, int64, double}
use vectorized_query_engine.Vector.Double.{is_nan, eq_double, lt_double}
use vectorized_query_engine.Vector.Validity
use vectorized_query_engine.Vector.Column
use vectorized_query_engine.Vector.Column.{
  Column, Payload, bytes8, int64s, doubles, strings, text_at, append_from,
}
use vectorized_query_engine.Vector.Batch.{Batch}
use vectorized_query_engine.Expression.Scalar.{lt_text}
use vectorized_query_engine.Expression.Evaluator.{word_of}
use Prim.Native.Nat.{bit_xor}

-- One round: `x ^= x >> k; x *= factor`
abbrev pub mix_round : ℕ → ℕ → ℕ → ℕ
mix_round k factor x = bit_xor x (shr x k) * factor % 2 ^ 64

unfoldable pub mix_hash : ℕ → ℕ
mix_hash x =
    let y = mix_round 27 0x94d0_49bb_1331_11eb (mix_round 30 0xbf58_476d_1ce4_e5b9 x) in
    bit_xor y (shr y 31)

-- FNV-1a over the bytes of a text
abbrev pub hash_bytes : ℕ → List ℕ → ℕ
hash_bytes h [] = h
hash_bytes h (x ∷ xs) = hash_bytes (bit_xor h x * 1099511628211 % 2 ^ 64) xs

abbrev pub fnv_offset : ℕ
fnv_offset = 14695981039346656037

abbrev pub quiet_nan : ℕ
quiet_nan = 0x7ff8_0000_0000_0000

-- Both zeros become 0, and every NaN becomes one NaN.
abbrev pub canonical : ℕ → ℕ
canonical x = if is_nan x then quiet_nan else if eq_double x 0 then 0 else x

-- `switch (c.type())`, on the array that the type says.
abbrev pub hash_payload : Payload → ℕ → ℕ
hash_payload (bytes8 d) row = mix_hash (get_or d row 0)
hash_payload (int64s d) row = mix_hash (word_of (get_or d row (pos 0)))
hash_payload (doubles d) row = mix_hash (canonical (get_or d row 0))
hash_payload (strings s) row = mix_hash (hash_bytes fnv_offset (text_at s row))

unfoldable pub hash_cell : Column → ℕ → ℕ
hash_cell c row =
    if not (Validity.valid c.validity row)
    then 0x9e37_79b9_7f4a_7c15
    else hash_payload c.payload row

-- The template `cmp`: -1, 0 or 1.
abbrev pub cmp {ℓ} : {A : Type ℓ} → (A → A → Bool) → A → A → ℤ
cmp lt a b = if lt a b then negsuc 0 else if lt b a then pos 1 else pos 0

-- NaN comes after every number.
abbrev pub cmp_double : ℕ → ℕ → ℤ
cmp_double x y =
    if is_nan x || is_nan y
    then (if is_nan x then (if is_nan y then pos 0 else pos 1) else negsuc 0)
    else cmp lt_double x y

abbrev pub compare_payload : Payload → ℕ → Payload → ℕ → Result ℤ
compare_payload (bytes8 d) i (bytes8 e) j = ok (cmp ltb (get_or d i 0) (get_or e j 0))
compare_payload (int64s d) i (int64s e) j = ok (cmp ltb_ℤ (get_or d i (pos 0)) (get_or e j (pos 0)))
compare_payload (doubles d) i (doubles e) j = ok (cmp_double (get_or d i 0) (get_or e j 0))
compare_payload (strings s) i (strings t) j = ok (cmp lt_text (text_at s i) (text_at t j))
compare_payload _ i _ j = err bad_variant_access

unfoldable pub compare_cell : Column → ℕ → Column → ℕ → Result ℤ
compare_cell a i b j = do
  throw_if (not (type_eq a.type b.type)) invalid_argument
  let av = Validity.valid a.validity i
  let bv = Validity.valid b.validity j
  if not av || not bv
      then ok (if av then negsuc 0 else if bv then pos 1 else pos 0)
      else compare_payload a.payload i b.payload j

unfoldable pub equal_cell : Column → ℕ → Column → ℕ → Result Bool
equal_cell a i b j = do c ← compare_cell a i b j; ok (eqb_ℤ c (pos 0))

abbrev pub column_at : List Column → ℕ → Result Column
column_at cs k = elim (get_elem? cs k) [ none ↦ err out_of_range | some c ↦ ok c ]

-- The hash of the key columns, in the order of the keys, from h on.
unfoldable pub hash_keys : ℕ → List Column → List ℕ → ℕ → Result ℕ
hash_keys h cs [] row = ok h
hash_keys h cs (k ∷ keys) row = do
  c ← column_at cs k
  hash_keys (mix_hash (bit_xor h (hash_cell c row))) cs keys row

unfoldable pub hash_row : List Column → List ℕ → ℕ → Result ℕ
unfolding hash_keys
hash_row cs keys row = hash_keys 0x243f_6a88_85a3_08d3 cs keys row

abbrev pub holds_nan : Payload → ℕ → Bool
holds_nan (doubles d) row = is_nan (get_or d row 0)
holds_nan _ row = false

-- NULL and NaN join nothing.
unfoldable pub joinable_row : List Column → List ℕ → ℕ → Result Bool
joinable_row cs [] row = ok true
joinable_row cs (k ∷ keys) row = do
  c ← column_at cs k
  if not (Validity.valid c.validity row) || (type_eq c.type double && holds_nan c.payload row)
      then ok false
      else joinable_row cs keys row

pub record RowStore : Type 0 where
  pub columns : List Column
  pub rows : ℕ

unfoldable pub new_store : Schema → RowStore
new_store s = record { columns = map (λ f. Column.new f.type) s; rows = 0 }

-- Each stored column takes the cell of the source column of its key.
unfoldable pub append_cells_at : List Column → List Column → List ℕ → ℕ → Result (List Column)
append_cells_at [] source keys row = ok []
append_cells_at (c ∷ cs) source [] row = ok (c ∷ cs)
append_cells_at (c ∷ cs) source (k ∷ keys) row = do
  d ← column_at source k
  c' ← append_from c d row
  rest ← append_cells_at cs source keys row
  ok (c' ∷ rest)

abbrev pub count_from : ℕ → ℕ → List ℕ
count_from i zero = []
count_from i (suc n) = i ∷ count_from (i + 1) n

unfoldable pub append : RowStore → Batch → ℕ → Result RowStore
append s b row = do
  throw_if (not (length b.columns == length s.columns)) invalid_argument
  cs ← append_cells_at s.columns b.columns (count_from 0 (length s.columns)) row
  ok (record { columns = cs; rows = s.rows + 1 })

unfoldable pub append_key : RowStore → Batch → List ℕ → ℕ → Result RowStore
append_key s b keys row = do
  throw_if (not (length keys == length s.columns)) invalid_argument
  cs ← append_cells_at s.columns b.columns keys row
  ok (record { columns = cs; rows = s.rows + 1 })

-- The two lists of keys have one length; the source reads both by the length of the first.
unfoldable pub equal_key : RowStore → ℕ → Batch → List ℕ → List ℕ → ℕ → Result Bool
equal_key s stored b [] stored_keys input = ok true
equal_key s stored b (k ∷ keys) [] input = err out_of_range
equal_key s stored b (k ∷ keys) (h ∷ stored_keys) input = do
  c ← column_at s.columns h
  d ← column_at b.columns k
  same ← equal_cell c stored d input
  if same then equal_key s stored b keys stored_keys input else ok false
