-- ===== src/Machine.antt =====
-- The reconciliation of a MaasMachine: the machine scope, the machine service, the DNS service and
-- the controller.
pub mod Scope
pub mod Dns
pub mod Service
pub mod Vm
pub mod Compose
pub mod Deploy
pub mod Node
pub mod Controller
pub mod Reconcile
