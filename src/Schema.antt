-- ===== src/Schema.antt =====
-- The validators of src/e2h/models.py.
pub mod Texts
pub mod Documents
pub mod Inside
pub mod Located
pub mod Users
pub mod Metadata
