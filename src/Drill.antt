-- ===== src/Drill.antt =====
-- pkg/drill: one recovery drill from the fetch of the backup to the evidence.
pub mod World
pub mod Steps
pub mod Verdict
pub mod Finalize
pub mod Run
