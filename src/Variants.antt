-- ===== src/Variants.antt =====
-- The typed harness variants of src/e2h/variants.py: their workflow and their routing.
pub mod Workflow
pub mod Routing
