-- ===== src/Vec.antt =====
-- The evacuation of control-plane VMs of workload clusters: controllers/vmevacuation_controller.go.
pub mod Session
pub mod Scan
pub mod ControlPlane
pub mod Controller
