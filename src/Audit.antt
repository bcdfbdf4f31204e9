-- ===== src/Audit.antt =====
-- internal/audit: the chain of records of a tenant.
pub mod Chain
pub mod Tamper
pub mod Checkpoint
