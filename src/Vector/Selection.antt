-- ===== src/Vector/Selection.antt =====
-- Class Selection of include/vqe/vector.hpp: the rows of a batch that a query still wants.
use vectorized_query_engine.Base.{
  ℕ, ◌+◌, ◌%◌, ◌^◌, Bool, true, false, ◌||◌, List, [], ◌∷◌, ◌++◌, ltb, leb, ◌==◌, get_or, resize,
  if◌then◌else◌,
}
use vectorized_query_engine.Base.Results.{
  Result, ok, length_error, logic_error, out_of_range, throw_if, ◌>>◌,
}

abbrev pub max_batch_size : ℕ
max_batch_size = 65535

pub record Selection : Type 0 where
  pub dense : Bool
  pub size : ℕ
  pub indices : List ℕ

-- The member initialisers
abbrev pub empty : Selection
empty = record { dense = true; size = 0; indices = [] }

unfoldable pub identity : Selection → ℕ → Result Selection
identity s n = do
  throw_if (ltb max_batch_size n) length_error
  ok (record { dense = true; size = n; indices = [] })

unfoldable pub clear : Selection → Selection
clear s = record { dense = false; size = 0; indices = [] }

unfoldable pub push : Selection → ℕ → Result Selection
push s i = do
  throw_if s.dense logic_error
  throw_if (leb max_batch_size i || s.size == max_batch_size) length_error
  ok (record s { indices = s.indices ++ (i % 2 ^ 16) ∷ []; size = s.size + 1 })

unfoldable pub truncate : Selection → ℕ → Result Selection
truncate s n = do
  throw_if (ltb s.size n) out_of_range
  ok (record s { size = n; indices = if s.dense then s.indices else resize n 0 s.indices })

-- `operator[]`
unfoldable pub at : Selection → ℕ → ℕ
at s i = if s.dense then i else get_or s.indices i 0
