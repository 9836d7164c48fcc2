-- ===== src/Promotion.antt =====
-- The promotion of a variant over a baseline (src/e2h/promotion*.py).
pub mod Evidence
pub mod Comparison
pub mod Paired
pub mod Gate
pub mod Decision
pub mod Receipt
pub mod Rollback
