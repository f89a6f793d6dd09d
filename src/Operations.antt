-- ===== src/Operations.antt =====
-- application/operations.py and persistence/operations.py: the control plane of the agent.
pub mod Control
pub mod Run
pub mod Email
pub mod World
pub mod Drain
pub mod Executor
pub mod Submit
