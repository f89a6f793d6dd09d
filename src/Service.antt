-- ===== src/Service.antt =====
-- application/domain_processing.py: evidence is resolved against the store, a transition is planned,
-- and the plan is handed to the store.
pub mod Store
pub mod Application
pub mod Event
pub mod Plan
