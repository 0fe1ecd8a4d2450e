-- ===== src/Sandbox.antt =====
-- pkg/sandbox: what the sandboxes share, and the two providers.
pub mod Buffer
pub mod Steps
pub mod Names
pub mod Ready
pub mod Docker
pub mod Env
pub mod Kubernetes
pub mod Leftover
