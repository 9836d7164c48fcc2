-- ===== src/Tests.antt =====
-- Sample values and witnesses for the theorems about src/e2h.
pub mod Samples
pub mod Records
pub mod Captures
pub mod Runs
pub mod Genomes
pub mod Schemas
pub mod Comparisons
pub mod Evidence
pub mod Decisions
pub mod Dialogues
pub mod Splits
pub mod Workflows
pub mod Routings
