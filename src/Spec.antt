-- ===== src/Spec.antt =====
-- pkg/spec: the drill document, its validation, and the files that hold it.
pub mod Document
pub mod Name
pub mod Checks
pub mod Validate
pub mod Files
