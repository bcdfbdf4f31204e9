-- ===== src/Webhook.antt =====
-- internal/webhook: retries, and what becomes of an attempt.
pub mod Retry
pub mod Decide
pub mod Payload
