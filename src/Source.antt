-- ===== src/Source.antt =====
-- pkg/source: backups, and where they come from.
pub mod Backup
pub mod Select
pub mod Limits
pub mod Layers
pub mod Fetch
