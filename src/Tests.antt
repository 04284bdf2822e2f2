-- ===== src/Tests.antt =====
-- Inputs at which the theorems are used, by component.
pub mod Masks
pub mod Columns
pub mod Expressions
pub mod Pruning
pub mod Scanning
pub mod Evaluation
pub mod Plans
pub mod Blocking
