-- ===== src/Correlate.antt =====
-- internal/correlate: the engine that applies events to the store.
pub mod Credit
pub mod Early
pub mod Apply
pub mod Account
