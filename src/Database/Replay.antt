-- ===== src/Database/Replay.antt =====
-- A plan that is applied a second time changes nothing: the steps of persistence/domain_processing.py
-- one by one, and the whole transition.
pub mod Progress
pub mod Event
pub mod Action
pub mod Link
pub mod Whole
