-- ===== src/Mail.antt =====
-- Mail synchronisation: domain/mail.py, persistence/mail.py and application/mail_sync.py.
pub mod Vocabulary
pub mod Upsert
pub mod Store
pub mod Sync
pub mod Lease
pub mod Outcome
pub mod Observed
pub mod Frame
pub mod Settle
