-- ===== src/Genome.antt =====
-- The harness genomes of src/e2h/genome.py.
pub mod Capsule
pub mod Patches
pub mod Frame
pub mod Applied
pub mod Targets
pub mod Kept
pub mod Once
