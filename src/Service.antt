-- ===== src/Service.antt =====
-- internal/service: the workers that drive the store.
pub mod Dispatcher
pub mod Checkpointer
pub mod Detector
