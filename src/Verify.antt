-- ===== src/Verify.antt =====
-- pkg/verify: the checks that run against what a drill restored.
pub mod Types
pub mod Engine
pub mod Rows
pub mod Pods
pub mod Run
