-- ===== src/Values.antt =====
-- Python values that reach the program as `Any`, the check that they are canonical JSON
-- (src/e2h/document.py) and the size of their JSON text.
pub mod Data
pub mod Compatible
pub mod Size
