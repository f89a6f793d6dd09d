-- ===== src/Brief.antt =====
-- The dispatch of the Daily Brief: application/daily_brief.py and persistence/daily_brief.py.
pub mod Dispatch
pub mod Send
pub mod Active
pub mod Once
pub mod Attempts
