-- ===== src/Vector.antt =====
-- include/vqe/vector.hpp and src/vector.cpp: the columnar data model.
pub mod Double
pub mod Value
pub mod Validity
pub mod Selection
pub mod Column
pub mod Batch
