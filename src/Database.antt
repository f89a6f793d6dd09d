-- ===== src/Database.antt =====
-- persistence/models.py and persistence/domain_processing.py: the tables that a transition of the
-- domain reads and writes, the four steps of a transition, and the transition itself. A transaction
-- is a function of the tables; a raised exception gives no tables, since it is rolled back.
pub mod Tables
pub mod Link
pub mod Progress
pub mod EventStep
pub mod ActionStep
pub mod Transition
pub mod Replay
pub mod Invariant
