-- ===== src/Gc.antt =====
-- pkg/gc: the sandboxes that a crashed drill left behind.
pub mod Lease
pub mod Sweep
pub mod Docker
pub mod Kubernetes
