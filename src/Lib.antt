-- ===== src/Lib.antt =====
-- vqe, a vectorized analytical query engine: queries run over batches of typed, nullable columns.
--
-- The program's parts, from the bottom up, and the files that model them.
--
--   Vector (include/vqe/vector.hpp, src/vector.cpp). A Batch is a list of Columns with a Selection of
--   the rows that are still wanted; a Column is a typed array with a Validity, a NULL mask of one bit
--   to a row.
--     Vector/Value      Type, Value, Field, Schema, column_index, validate_schema, value_type
--     Vector/Double     doubles as bit patterns: isnan and the IEEE comparisons. The processor's
--                       rounded operations are a parameter, record Arithmetic, of which nothing is
--                       assumed.
--     Vector/Validity   class Validity, word by word. `set` is set_valid.
--     Vector/Selection  class Selection; `operator[]` is at.
--     Vector/Column     class Column; `append<T>` is append_byte, append_int64 and append_double.
--     Vector/Batch      struct Batch.
--   Kernels (include/vqe/kernels.hpp, src/kernels.cpp, src/kernels_scalar.cpp). The two hot loops in
--   their scalar, AVX2 and NEON forms, and the dispatch on the machine and the mode.
--   Expression (include/vqe/expression.hpp, src/expression.cpp). Typed expressions; Expression/Scalar
--   says what an operator means on one row in SQL, and Expression/Evaluator models class Evaluator:
--   `compile` flattens an expression to nodes in postorder and `evaluate` runs each node over the
--   batch, by a kernel where no operand has a NULL and the selection is dense, by a loop else.
--     Expression/Meaning is the meaning of a whole expression on one row, Expression/Typing gives the
--     rules that expression_type follows, and Evaluator/Correct puts the nodes of an expression together.
--   Hash (include/vqe/hash.hpp, src/hash.cpp). The hash of a cell and of a key, the order of cells,
--   RowStore, and in Hash/Index the class HashIndex with its linear probing and its growth.
--   Statistics (include/vqe/statistics.hpp, src/statistics.cpp). analyze, merge_statistics and may_match,
--   the test by which a scan skips row groups.
--   Operators (include/vqe/operators.hpp, src/operators.cpp, Limit of src/blocking.cpp). Table
--   (`Table::append` is append_table), Operators/Scan, Filter, Projection, Limit and collect. An operator
--   pulls batches from its child, which is given as a state and a function.
--   Blocking (include/vqe/blocking.hpp, src/blocking.cpp). Blocking/Aggregate is HashAggregate, with the
--   states of its aggregates in Aggregate/Update; Blocking/Join is HashJoin, whose chains of equal rows
--   are `next_` and `tails_`; Blocking/Sort is Sort, and Sort/Lexical says in which order SQL wants rows. Each reads its child to the end in its first call.
--   Plan (include/vqe/plan.hpp, src/plan.cpp; class Source of include/vqe/storage.hpp). Logical plans,
--   their schemas and row estimates; Plan/Simplify is simplify_expression, Plan/Rewrite is rewrite with
--   conjuncts, substitute and identity_projection, Plan/Prune is prune and optimize, Plan/Lower is
--   lower with the physical plans. The optimizer evaluates constant expressions with class Evaluator on
--   a batch of one row, and its pruning predicates are what a scan gives to may_match.
--   Base holds tests, lists, integers, bits, a stable sort and the result type.
--
-- Correspondence. A method that changes an object is a function from the old record to the new one;
-- one that throws returns a Result, with an Error for each exception class. The source's `this ==
-- &source` is a Boolean argument in append_range; append_from is modelled for a source that is another
-- column. An unsigned counter that may pass below 0 wraps at 2^64; a shift or a complement of a word
-- is taken modulo 2^64. Undefined behaviour (an index out of range in a Release build) reads as 0.
--
-- Bounds and fuel. A mask has fewer than 2^64 rows, and 63 fewer where it is reset or takes a range,
-- since the source rounds up to whole words in 64 bits; a string arena has at most 2^32 - 1 bytes. The
-- loop of append_range takes its row count as fuel: a round copies at least one row.
--
-- A scan's loop has a round for each row group and one more: a round passes to the next group or fills
-- the batch. Probing takes as many rounds as there are buckets; the source would go on for ever where
-- none is empty, and the model answers `lost`. Growth keeps at most seven tenths of them occupied. The
-- loops of Filter and collect go on as long as the child does; their fuel bounds the child's batches,
-- and no answer is given beyond it.
--
-- Not modelled: capacities and allocated_bytes, text output (to_string, describe, explain), execute,
-- which builds operator objects, the estimates of src/statistics.cpp (approximate_distinct and
-- estimate_selectivity are a parameter, with the conversions and the square root that estimated_rows
-- needs), Parquet input, the data generators, the drivers.
pub mod Base
pub mod Vector
pub mod Kernels
pub mod Expression
pub mod Hash
pub mod Statistics
pub mod Operators
pub mod Blocking
pub mod Plan
pub mod Tests
