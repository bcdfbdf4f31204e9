-- ===== src/Store.antt =====
-- internal/store: the in-memory store, which the tests hold to the same suite as Postgres.
pub mod State
pub mod Debits
pub mod Credits
pub mod Reversals
pub mod Parking
pub mod Claims
pub mod Ledger
pub mod Checkpoints
pub mod Health
pub mod Expiry
pub mod Endpoints
pub mod Webhooks
pub mod Calls
pub mod Evolution
pub mod Lifecycle
pub mod Sweep
pub mod Claiming
pub mod Runs
