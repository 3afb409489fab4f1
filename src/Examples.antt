-- ===== src/Examples.antt =====
-- The services in memory, and the theorems at concrete inputs.
mod Formats
mod Machines
mod Deployments
mod Services
mod Hosts
mod Registration
mod Memory
mod Session
mod Tags
mod Evacuation
mod Workload
