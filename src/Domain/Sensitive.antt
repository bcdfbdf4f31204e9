-- ===== src/Domain/Sensitive.antt =====
-- internal/domain/sensitive.go: the screen that keeps card data out.
pub mod Scan
pub mod Luhn
pub mod Cards
pub mod Metadata
