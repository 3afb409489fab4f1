-- ===== src/Hmc.antt =====
-- The host maintenance controller: controllers/host_maintenance_service.go and
-- controllers/host_maintenance_controller.go.
pub mod Replacement
pub mod Service
pub mod Controller
