-- ===== src/Operator.antt =====
-- pkg/operator/controller.go: the controller that runs the drills of a cluster's resources.
pub mod Resource
pub mod Reconcile
