-- ===== src/Clauses.antt =====
-- Clauses of a contract: how they are compared with standard ones, how a document is segmented into them,
-- and the worker that checks and stores what the segmenter answers.
pub mod Diff
pub mod Hierarchy
pub mod Expressions
pub mod Patterns
pub mod Segmenter
pub mod Checks
pub mod JobTable
pub mod StoredRows
pub mod Worker
