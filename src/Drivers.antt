-- ===== src/Drivers.antt =====
-- pkg/drivers: what the drivers do with a sandbox.
pub mod Texts
pub mod Quotes
pub mod Outcome
pub mod Postgres
pub mod Engines
pub mod Restores
pub mod Velero
