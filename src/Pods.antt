-- ===== src/Pods.antt =====
-- pkg/controllers/networking/pod_controller.go and what it calls of pkg/controllers/utils.
pub mod Text
pub mod World
pub mod Network
pub mod Allocate
pub mod Stateful
pub mod Reconcile
pub mod Instance
pub mod Compensation
mod Tests
