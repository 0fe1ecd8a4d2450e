-- ===== src/Examples.antt =====
-- Concrete drills, and the runs of the theorems on them.
mod Data
mod Documents
mod Checks
mod Runs
mod Gates
mod Sweeps
mod Sources
mod Buffers
mod Operators
mod Sandboxes
mod Restores
mod Signatures
mod Fetches
