-- ===== src/Maintenance.antt =====
-- pkg/maas/maintenance: the tags, the session and the services of host maintenance.
pub mod Tags
pub mod Sanitize
pub mod Session
pub mod TagService
pub mod Inventory
