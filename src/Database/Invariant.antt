-- ===== src/Database/Invariant.antt =====
-- Unique constraints on the rows of a table, and that the application of a plan is never set back.
pub mod Rows
pub mod Monotone
