-- ===== src/Domain.antt =====
-- The domain model (domain/enums.py, domain/processing.py, domain/role.py).
pub mod Enums
pub mod Status
pub mod Role
pub mod Digest
pub mod Evidence
pub mod Processing
pub mod Recipient
