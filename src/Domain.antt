-- ===== src/Domain.antt =====
-- internal/domain: the transaction types, the state machine and the checks on what comes in.
pub mod Status
pub mod Errors
pub mod Transaction
pub mod Event
pub mod Validate
pub mod Sensitive
